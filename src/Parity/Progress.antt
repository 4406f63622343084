-- ===== src/Parity/Progress.antt =====
-- One JSONL line, for an audit that has found no error so far.
use chat_downloader_fork.Base.{
  ℕ, ◌+◌, ◌≤◌, ◌<◌, ◌≡◌, refl, ap, ◌∙◌, String, Bool, true, false, Option, none, some, List, [],
  ◌∷◌, if◌then◌else◌, nat_Eq, list_eq, list_eq_iff, ℤ, arith, Bool-cases, Option-cases, inl, inr,
}
use chat_downloader_fork.Base.Json.{Fields}
use chat_downloader_fork.Base.Result.{Result, ok, raise}
use chat_downloader_fork.Dedup.SeenCache.{SeenCache}
use chat_downloader_fork.Dedup.Formatted.{should_emit}
use chat_downloader_fork.Parity.Lines.{Bytes}
use chat_downloader_fork.Parity.Stats.{AuditStats, Newlines, see_newline, observe_txt_newline}
use chat_downloader_fork.Parity.Audit.{
  Codec, Audit, parse_jsonl_line, note_txt_line, compare_txt_line, expect_line, render_item,
  dedup_item,
}
use chat_downloader_fork.Parity.Expected.{content, style, item_of, rendering}
use chat_downloader_fork.Parity.Errors.{errors, errors-observe_txt, errors-note_txt-le}

-- No error so far.
pub record IsGood (s : AuditStats) : Type 0 where
  pub clean : errors s ≡ 0
  pub complete : s.comparison_complete ≡ true
  pub level : s.expected_txt_lines ≡ s.txt_lines

module _ (codec : Codec) (max_seen : Option ℤ) where
  pub parse-some :
      (line : Bytes) (n : ℕ) (s : AuditStats) (item : Fields)
      → item_of codec line ≡ some item
      → parse_jsonl_line codec max_seen line n s
        ≡ (record s { jsonl_records = s.jsonl_records + 1 }, some item)
  unfolding item_of parse_jsonl_line
  parse-some line n s item h = ground arith

  pub parse-none :
      (line : Bytes) (n : ℕ) (s : AuditStats)
      → item_of codec line ≡ none
      → ((parse_jsonl_line codec max_seen line n s).1 ≡ none)
        × (errors s < errors (parse_jsonl_line codec max_seen line n s).0)
  unfolding item_of parse_jsonl_line
  parse-none line n s h = ground arith

  -- The TXT line `raw` has the given content, decodes, and its newline agrees with `seen`.
  pub record TxtOk (raw expected : Bytes) (seen : Newlines) : Type 0 where
    pub same : content raw ≡ expected
    pub decoded : String
    pub decodes : codec.decode (content raw) ≡ some decoded
    pub newline : (see_newline seen (style raw)).1 ≡ false

  -- What `note_txt_line` leaves alone, and the newline fields that it sets.
  pub record Noted (raw : Bytes) (s t : AuditStats) : Type 0 where
    pub txt : t.txt ≡ (see_newline s.txt (style raw)).0
    pub jsonl : t.jsonl ≡ s.jsonl
    pub complete : t.comparison_complete ≡ s.comparison_complete
    pub expected : t.expected_txt_lines ≡ s.expected_txt_lines
    pub read : t.txt_lines ≡ s.txt_lines + 1
    pub ended : t.count_mismatch ≡ s.count_mismatch

  pub note_txt-Noted :
      (raw : Bytes) (s : AuditStats) → Noted raw s (note_txt_line codec max_seen raw s)
  unfolding note_txt_line observe_txt_newline
  note_txt-Noted raw s = elim (Option-cases (codec.decode (content raw))) [
    | inl bad ↦ elim (Bool-cases (see_newline s.txt (style raw)).1) [
      | inl mixed ↦ ground arith
      | inr same ↦ ground arith
    ]
    | inr (t, good) ↦ ground arith
  ]

  pub note_txt-clean :
      (raw : Bytes) (s : AuditStats)
      → errors (note_txt_line codec max_seen raw s) ≤ errors s
      → ((see_newline s.txt (style raw)).1 ≡ false)
        × ((t : String) × (codec.decode (content raw) ≡ some t))
  unfolding note_txt_line
  note_txt-clean raw s h =
      let counted = record s { txt_lines = s.txt_lines + 1 } in
      let e = errors-observe_txt counted (style raw) (s.txt_lines + 1) in
      elim (Bool-cases (see_newline s.txt (style raw)).1) [
        | inl mixed ↦ absurd (ground (arith, e, h))
        | inr same ↦ elim (Option-cases (codec.decode (content raw))) [
          | inl bad ↦ absurd (ground (arith, e, h))
          | inr good ↦ (same, good)
        ]
      ]

  pub note_txt-errors :
      (raw : Bytes) (s : AuditStats)
      → (see_newline s.txt (style raw)).1 ≡ false
      → (t : String) → codec.decode (content raw) ≡ some t
      → errors (note_txt_line codec max_seen raw s) ≡ errors s
  unfolding note_txt_line
  note_txt-errors raw s same t good =
      let counted = record s { txt_lines = s.txt_lines + 1 } in
      ground (arith, errors-observe_txt counted (style raw) (s.txt_lines + 1))

  -- The TXT line that was compared, and what it leaves.
  pub record Compared (expected : Bytes) (a b : Audit) : Type 0 where
    pub raw : Bytes
    pub rest : List Bytes
    pub next : a.txt ≡ raw ∷ rest
    pub good : TxtOk raw expected a.stats.txt
    pub noted : Noted raw a.stats b.stats
    pub left : b.txt ≡ rest
    pub deduplicator : b.deduplicator ≡ a.deduplicator
    pub resets : b.resets ≡ a.resets

  compare-clean :
      (n : ℕ) (expected : Bytes) (a : Audit)
      → errors (compare_txt_line codec max_seen n expected a).stats ≤ errors a.stats
      → Compared expected a (compare_txt_line codec max_seen n expected a)
  unfolding compare_txt_line
  compare-clean n expected a h = go a.txt refl
    where
      go :
          (l : List Bytes)
          → a.txt ≡ l
          → Compared expected a (compare_txt_line codec max_seen n expected a)
      go [] e = absurd (let h' = rw (e, compare_txt_line) at h in omega arith)
      go (raw ∷ rest) e = elim (Bool-cases (list_eq (content raw) expected)) [
        | inl same ↦
            let h' = rw (e, same, compare_txt_line) at h in
            let (newline, decoded) = note_txt-clean raw a.stats h' in
            record {
              raw = raw;
              rest = rest;
              next = e;
              good = record {
                same = (list_eq_iff (content raw) expected).0 same;
                decoded = decoded.0;
                decodes = decoded.1;
                newline = newline;
              };
              noted = rw (e, same, compare_txt_line) (note_txt-Noted raw a.stats);
              left = rw (e, compare_txt_line);
              deduplicator = rw (e, compare_txt_line);
              resets = rw (e, compare_txt_line);
            }
        | inr differs ↦ absurd (
            let h' = rw (e, differs, compare_txt_line) at h in
            omega (arith, errors-note_txt-le codec max_seen raw a.stats))
      ]

  pub compare-ok :
      (n : ℕ) (expected : Bytes) (a : Audit) (raw : Bytes) (rest : List Bytes)
      → a.txt ≡ raw ∷ rest
      → TxtOk raw expected a.stats.txt
      → errors (compare_txt_line codec max_seen n expected a).stats ≡ errors a.stats
  unfolding compare_txt_line
  compare-ok n expected a raw rest e good =
      rw (e, (list_eq_iff (content raw) expected).1 good.same, compare_txt_line)
        (note_txt-errors raw a.stats good.newline good.decoded good.decodes)

  -- What one item does to the TXT side: nothing for a suppressed one, and for another the next TXT
  -- line is the expected one.
  pub data TxtStep (a b : Audit) : Option Bytes → Type 0 where
    suppressed : b.txt ≡ a.txt → b.stats.txt ≡ a.stats.txt → TxtStep a b none
    compared :
        (expected raw : Bytes) (rest : List Bytes)
        → a.txt ≡ raw ∷ rest
        → TxtOk raw expected a.stats.txt
        → b.txt ≡ rest
        → b.stats.txt ≡ (see_newline a.stats.txt (style raw)).0
        → TxtStep a b (some expected)

  -- What one item leaves.
  pub record ItemOk (item : Fields) (a b : Audit) : Type 0 where
    pub line : Option Bytes
    pub next : SeenCache
    pub rendered : rendering codec a.deduplicator item ≡ some (next, line)
    pub step : TxtStep a b line
    pub deduplicator : b.deduplicator ≡ next
    pub resets : b.resets ≡ a.resets
    pub jsonl : b.stats.jsonl ≡ a.stats.jsonl
    pub complete : b.stats.comparison_complete ≡ true
    pub level : b.stats.expected_txt_lines ≡ b.stats.txt_lines
    pub ended : b.stats.count_mismatch ≡ a.stats.count_mismatch

  rendered-emit :
      (c c' : SeenCache) (item : Fields) (line : Bytes)
      → should_emit c item ≡ ok (c', true)
      → codec.render item ≡ some line
      → rendering codec c item ≡ some (c', some line)
  unfolding rendering
  rendered-emit c c' item line e r = ground arith

  rendered-suppress :
      (c c' : SeenCache) (item : Fields)
      → should_emit c item ≡ ok (c', false)
      → rendering codec c item ≡ some (c', none)
  unfolding rendering
  rendered-suppress c c' item e = ground arith

  abbrev pub counted : Audit → Audit
  counted a = record a {
    stats = record a.stats { expected_txt_lines = a.stats.expected_txt_lines + 1 };
  }

  render-compare :
      (n : ℕ) (sk : Bool) (item : Fields) (a : Audit) (line : Bytes)
      → a.stats.comparison_complete ≡ true
      → codec.render item ≡ some line
      → render_item codec max_seen n sk item a ≡ compare_txt_line codec max_seen n line (counted a)
  unfolding render_item expect_line
  render-compare n sk item a line c r =
      rw (r, render_item)
        (ap (λ b. if b then compare_txt_line codec max_seen n line (counted a) else counted a) c)

  render-clean :
      (n : ℕ) (sk : Bool) (item : Fields) (a : Audit)
      → a.stats.comparison_complete ≡ true
      → errors (render_item codec max_seen n sk item a).stats ≤ errors a.stats
      → (line : Bytes) × (codec.render item ≡ some line)
        × Compared line (counted a) (render_item codec max_seen n sk item a)
  unfolding render_item
  render-clean n sk item a c h = elim (Option-cases (codec.render item)) [
    | inl bad ↦ absurd (let h' = rw (bad, render_item) at h in omega arith)
    | inr (line, good) ↦
        let e = render-compare n sk item a line c good in
        (line, good, rw e (compare-clean n line (counted a) (rw e at h)))
  ]

  dedup-suppress :
      (n : ℕ) (sk : Bool) (item : Fields) (a : Audit) (c : SeenCache)
      → should_emit a.deduplicator item ≡ ok (c, false)
      → dedup_item codec max_seen n sk item a ≡ record a {
        stats = record a.stats { suppressed_duplicates = a.stats.suppressed_duplicates + 1 };
        deduplicator = c;
      }
  unfolding dedup_item
  dedup-suppress n sk item a c e = ground arith

  dedup-emit :
      (n : ℕ) (sk : Bool) (item : Fields) (a : Audit) (c : SeenCache)
      → should_emit a.deduplicator item ≡ ok (c, true)
      → dedup_item codec max_seen n sk item a
        ≡ render_item codec max_seen n sk item (record a { deduplicator = c })
  unfolding dedup_item
  dedup-emit n sk item a c e = ground arith

  pub dedup-raise :
      (n : ℕ) (sk : Bool) (item : Fields) (a : Audit)
      → rendering codec a.deduplicator item ≡ none
      → a.stats.comparison_complete ≡ true
      → errors a.stats < errors (dedup_item codec max_seen n sk item a).stats
  unfolding dedup_item rendering render_item
  dedup-raise n sk item a h c = ground arith

  pub dedup-clean :
      (n : ℕ) (sk : Bool) (item : Fields) (a : Audit)
      → IsGood a.stats
      → errors (dedup_item codec max_seen n sk item a).stats ≤ errors a.stats
      → ItemOk item a (dedup_item codec max_seen n sk item a)
  unfolding dedup_item
  dedup-clean n sk item a g h = go (should_emit a.deduplicator item) refl
    where
      go :
          (r : Result (SeenCache × Bool))
          → should_emit a.deduplicator item ≡ r
          → ItemOk item a (dedup_item codec max_seen n sk item a)
      go (raise x) e = absurd (let h' = rw (e, dedup_item) at h in omega arith)
      go (ok (c, false)) e = rw (dedup-suppress n sk item a c e) (record {
        line = none;
        next = c;
        rendered = rendered-suppress a.deduplicator c item e;
        step = suppressed refl refl;
        deduplicator = refl;
        resets = refl;
        jsonl = refl;
        complete = g.complete;
        level = g.level;
        ended = refl;
      })
      go (ok (c, true)) e =
          let a' : Audit = record a { deduplicator = c } in
          let (line, r, k) =
            render-clean n sk item a' g.complete (rw (dedup-emit n sk item a c e) at h) in
          rw (dedup-emit n sk item a c e) (record {
            line = some line;
            next = c;
            rendered = rendered-emit a.deduplicator c item line e r;
            step = compared line k.raw k.rest k.next k.good k.left k.noted.txt;
            deduplicator = k.deduplicator;
            resets = k.resets;
            jsonl = k.noted.jsonl;
            complete = k.noted.complete ∙ g.complete;
            level = omega (arith, k.noted.expected, k.noted.read, g.level);
            ended = k.noted.ended;
          })

  pub dedup-ok :
      (n : ℕ) (sk : Bool) (item : Fields) (a : Audit) (c : SeenCache)
      → rendering codec a.deduplicator item ≡ some (c, none)
      → errors (dedup_item codec max_seen n sk item a).stats ≡ errors a.stats
  unfolding dedup_item rendering
  dedup-ok n sk item a c h = ground arith

  pub dedup-compare :
      (n : ℕ) (sk : Bool) (item : Fields) (a : Audit) (c : SeenCache) (line : Bytes)
      → a.stats.comparison_complete ≡ true
      → rendering codec a.deduplicator item ≡ some (c, some line)
      → dedup_item codec max_seen n sk item a
        ≡ compare_txt_line codec max_seen n line (counted (record a { deduplicator = c }))
  unfolding rendering
  dedup-compare n sk item a c line g h = go (should_emit a.deduplicator item) refl
    where
      go :
          (r : Result (SeenCache × Bool))
          → should_emit a.deduplicator item ≡ r
          → dedup_item codec max_seen n sk item a
            ≡ compare_txt_line codec max_seen n line (counted (record a { deduplicator = c }))
      go (raise x) e = absurd (ground arith)
      go (ok (d, false)) e = absurd (ground arith)
      go (ok (d, true)) e =
          let same : d ≡ c = ground arith in
          let shown : codec.render item ≡ some line = ground arith in
          rw (← same) (
            dedup-emit n sk item a d e
            ∙ render-compare n sk item (record a { deduplicator = d }) line g shown)
