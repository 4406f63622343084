-- ===== src/Parity/Step.antt =====
-- One JSONL line: with no error before it, when the audit finds none in it, and what it leaves.
use mathlib.Core.Path.{subst}
use chat_downloader_fork.Base.{
  ℕ, ◌+◌, ◌≤◌, ◌<◌, ◌≡◌, refl, ap, sym, ◌∙◌, Bool, true, false, not, Option, none, some, List, [],
  ◌∷◌, nat_Eq, ℤ, arith, Bool-cases, Option-cases, inl, inr,
}
use chat_downloader_fork.Base.Json.{Fields}
use chat_downloader_fork.Dedup.SeenCache.{SeenCache}
use chat_downloader_fork.Parity.Lines.{Bytes}
use chat_downloader_fork.Parity.Stats.{AuditStats, see_newline, observe_jsonl_newline}
use chat_downloader_fork.Parity.Audit.{
  Codec, Audit, dedup_item, apply_reset, count_line, count_skipped, parse_line, audit_line,
}
use chat_downloader_fork.Parity.Expected.{content, style, reset, item_of, rendering}
use chat_downloader_fork.Parity.Errors.{errors, errors-observe_jsonl, errors-dedup-le}
use chat_downloader_fork.Parity.Progress.{
  IsGood, TxtOk, TxtStep, suppressed, compared, ItemOk, counted, dedup-clean, dedup-ok,
  dedup-compare, compare-ok, parse-some, parse-none,
}

-- What the start of a line leaves.
record Begun (max_seen : Option ℤ) (n : ℕ) (a b : Audit) : Type 0 where
  txt : b.txt ≡ a.txt
  txt_newlines : b.stats.txt ≡ a.stats.txt
  jsonl : b.stats.jsonl ≡ a.stats.jsonl
  deduplicator : b.deduplicator ≡ (reset max_seen n a.deduplicator a.resets).0
  resets : b.resets ≡ (reset max_seen n a.deduplicator a.resets).1
  same_errors : errors b.stats ≡ errors a.stats
  complete : b.stats.comparison_complete ≡ a.stats.comparison_complete
  expected : b.stats.expected_txt_lines ≡ a.stats.expected_txt_lines
  read : b.stats.txt_lines ≡ a.stats.txt_lines
  ended : b.stats.count_mismatch ≡ a.stats.count_mismatch

-- What a line without an error leaves.
pub record LineOk (codec : Codec) (max_seen : Option ℤ) (n : ℕ) (raw : Bytes) (a b : Audit)
    : Type 0 where
  pub item : Fields
  pub parsed : item_of codec (content raw) ≡ some item
  pub newline : (see_newline a.stats.jsonl (style raw)).1 ≡ false
  pub line : Option Bytes
  pub next : SeenCache
  pub rendered :
      rendering codec (reset max_seen n a.deduplicator a.resets).0 item ≡ some (next, line)
  pub step : TxtStep codec max_seen a b line
  pub deduplicator : b.deduplicator ≡ next
  pub resets : b.resets ≡ (reset max_seen n a.deduplicator a.resets).1
  pub jsonl : b.stats.jsonl ≡ (see_newline a.stats.jsonl (style raw)).0
  pub good : IsGood b.stats
  pub ended : b.stats.count_mismatch ≡ a.stats.count_mismatch

module _ (codec : Codec) (max_seen : Option ℤ) where
  abbrev begun : ℕ → Audit → Audit
  begun n a =
      count_skipped codec max_seen (apply_reset codec max_seen n (count_line codec max_seen a))

  begun-Begun : (n : ℕ) (a : Audit) → Begun max_seen n a (begun n a)
  unfolding count_skipped apply_reset count_line reset
  begun-Begun n a = go a.resets refl
    where
      go : (l : List ℕ) → a.resets ≡ l → Begun max_seen n a (begun n a)
      go [] e = ground arith
      go (at ∷ later) e = ground arith

  -- The statistics when the line's newline has been seen, and when it has been parsed.
  abbrev seen : ℕ → Bytes → Audit → AuditStats
  seen n raw a = observe_jsonl_newline a.stats (style raw) n

  abbrev with_record : AuditStats → AuditStats
  with_record s = record s { jsonl_records = s.jsonl_records + 1 }

  parse_line-item :
      (n : ℕ) (raw : Bytes) (sk : Bool) (a : Audit) (item : Fields)
      → item_of codec (content raw) ≡ some item
      → parse_line codec max_seen n raw sk a
        ≡ dedup_item codec max_seen n sk item (record a { stats = with_record (seen n raw a) })
  unfolding parse_line
  parse_line-item n raw sk a item h =
      let e = parse-some codec max_seen (content raw) n (seen n raw a) item h in
      rw (ap (λ p. p.1) e, parse_line)
        (ap (λ p. dedup_item codec max_seen n sk item (record a { stats = p.0 })) e)

  parse_line-bad :
      (n : ℕ) (raw : Bytes) (sk : Bool) (a : Audit)
      → item_of codec (content raw) ≡ none
      → errors a.stats < errors (parse_line codec max_seen n raw sk a).stats
  unfolding parse_line
  parse_line-bad n raw sk a h =
      let (lost, more) = parse-none codec max_seen (content raw) n (seen n raw a) h in
      rw (lost, parse_line) (omega (arith, more, errors-observe_jsonl a.stats (style raw) n))

  seen-facts :
      (n : ℕ) (raw : Bytes) (a : Audit)
      → ((seen n raw a).jsonl ≡ (see_newline a.stats.jsonl (style raw)).0)
        × ((seen n raw a).txt ≡ a.stats.txt)
        × ((seen n raw a).comparison_complete ≡ a.stats.comparison_complete)
        × ((seen n raw a).expected_txt_lines ≡ a.stats.expected_txt_lines)
        × ((seen n raw a).txt_lines ≡ a.stats.txt_lines)
        × ((seen n raw a).count_mismatch ≡ a.stats.count_mismatch)
  unfolding observe_jsonl_newline
  seen-facts n raw a = elim (Bool-cases (see_newline a.stats.jsonl (style raw)).1) [
    | inl mixed ↦ ground arith
    | inr same ↦ ground arith
  ]

  TxtStep-from :
      {a' a b : Audit} {line : Option Bytes}
      → TxtStep codec max_seen a' b line
      → a'.txt ≡ a.txt
      → a'.stats.txt ≡ a.stats.txt
      → TxtStep codec max_seen a b line
  TxtStep-from (suppressed t s) e f = suppressed (t ∙ e) (s ∙ f)
  TxtStep-from (compared expected raw rest next good left s) e f =
      compared expected raw rest (sym e ∙ next) (rw (← f) good) left
        (s ∙ ap (λ m. (see_newline m (style raw)).0) f)

  abbrev line_of : ℕ → Bytes → Audit → Audit
  line_of n raw a = audit_line codec max_seen n raw a

  unfold_line :
      (n : ℕ) (raw : Bytes) (a : Audit)
      → line_of n raw a
        ≡ parse_line codec max_seen n raw
            (not
              (apply_reset codec max_seen n
                (count_line codec max_seen a)).stats.comparison_complete)
            (begun n a)
  unfolding audit_line
  unfold_line n raw a = refl

  parse_line-clean :
      (n : ℕ) (raw : Bytes) (sk : Bool) (a : Audit)
      → IsGood a.stats
      → errors (parse_line codec max_seen n raw sk a).stats ≤ errors a.stats
      → (item : Fields) × (item_of codec (content raw) ≡ some item)
        × ((see_newline a.stats.jsonl (style raw)).1 ≡ false)
        × ItemOk codec max_seen item
            (record a { stats = with_record (seen n raw a) })
            (parse_line codec max_seen n raw sk a)
  parse_line-clean n raw sk a g h = elim (Option-cases (item_of codec (content raw))) [
    | inl bad ↦ absurd (omega (arith, parse_line-bad n raw sk a bad))
    | inr (item, good) ↦
        let a' : Audit = record a { stats = with_record (seen n raw a) } in
        let e = parse_line-item n raw sk a item good in
        let facts = seen-facts n raw a in
        let total = errors-observe_jsonl a.stats (style raw) n in
        let h' = rw e at h in
        let more = errors-dedup-le codec max_seen n sk item a' in
        elim (Bool-cases (see_newline a.stats.jsonl (style raw)).1) [
          | inl mixed ↦ absurd (ground (arith, total, h', more))
          | inr same ↦
              let none_new : errors (seen n raw a) ≡ errors a.stats = ground (arith, total) in
              let g' : IsGood a'.stats = record {
                clean = omega (arith, none_new, g.clean);
                complete = facts.2 ∙ g.complete;
                level = facts.3 ∙ g.level ∙ sym facts.4;
              } in
              (
                item,
                good,
                same,
                rw e (dedup-clean codec max_seen n sk item a' g' (omega (arith, h', none_new))),
              )
        ]
  ]

  begun-IsGood : (n : ℕ) (a : Audit) → IsGood a.stats → IsGood (begun n a).stats
  begun-IsGood n a g =
      let b = begun-Begun n a in
      record {
        clean = b.same_errors ∙ g.clean;
        complete = b.complete ∙ g.complete;
        level = b.expected ∙ g.level ∙ sym b.read;
      }

  -- A line in which no error is found is as expected, and leaves an audit without errors.
  pub audit_line-clean :
      (n : ℕ) (raw : Bytes) (a : Audit)
      → IsGood a.stats
      → errors (line_of n raw a).stats ≡ 0
      → LineOk codec max_seen n raw a (line_of n raw a)
  audit_line-clean n raw a g h =
      let b = begun-Begun n a in
      let sk =
        not
          (apply_reset codec max_seen n (count_line codec max_seen a)).stats.comparison_complete in
      let h' = rw (unfold_line n raw a) at h in
      let (item, parsed, newline, k) =
        parse_line-clean n raw sk (begun n a) (begun-IsGood n a g) (omega (arith, h')) in
      let facts = seen-facts n raw (begun n a) in
      rw (unfold_line n raw a) (record {
        item = item;
        parsed = parsed;
        newline = rw b.jsonl at newline;
        line = k.line;
        next = k.next;
        rendered =
            subst (λ c. rendering codec c item ≡ some (k.next, k.line)) b.deduplicator k.rendered;
        step = TxtStep-from k.step b.txt (facts.1 ∙ b.txt_newlines);
        deduplicator = k.deduplicator;
        resets = k.resets ∙ b.resets;
        jsonl = k.jsonl ∙ facts.0 ∙ ap (λ m. (see_newline m (style raw)).0) b.jsonl;
        good = record { clean = h'; complete = k.complete; level = k.level };
        ended = k.ended ∙ facts.5 ∙ b.ended;
      })

  -- A line that is as expected has no error.
  pub audit_line-suppressed :
      (n : ℕ) (raw : Bytes) (a : Audit) (item : Fields) (next : SeenCache)
      → IsGood a.stats
      → item_of codec (content raw) ≡ some item
      → (see_newline a.stats.jsonl (style raw)).1 ≡ false
      → rendering codec (reset max_seen n a.deduplicator a.resets).0 item ≡ some (next, none)
      → errors (line_of n raw a).stats ≡ 0
  audit_line-suppressed n raw a item next g parsed newline rendered =
      let b = begun-Begun n a in
      let total = errors-observe_jsonl (begun n a).stats (style raw) n in
      let same = rw (← b.jsonl) at newline in
      let sk =
        not
          (apply_reset codec max_seen n (count_line codec max_seen a)).stats.comparison_complete in
      let a' : Audit = record (begun n a) { stats = with_record (seen n raw (begun n a)) } in
      rw (unfold_line n raw a, parse_line-item n raw sk (begun n a) item parsed)
        (dedup-ok codec max_seen n sk item a' next (rw (← b.deduplicator) at rendered)
          ∙ ground (arith, total, same, b.same_errors, g.clean))

  pub audit_line-compared :
      (n : ℕ) (raw : Bytes) (a : Audit) (item : Fields) (next : SeenCache) (line txt_line : Bytes)
      (rest : List Bytes)
      → IsGood a.stats
      → item_of codec (content raw) ≡ some item
      → (see_newline a.stats.jsonl (style raw)).1 ≡ false
      → rendering codec (reset max_seen n a.deduplicator a.resets).0 item ≡ some (next, some line)
      → a.txt ≡ txt_line ∷ rest
      → TxtOk codec max_seen txt_line line a.stats.txt
      → errors (line_of n raw a).stats ≡ 0
  audit_line-compared n raw a item next line txt_line rest g parsed newline rendered e good =
      let b = begun-Begun n a in
      let facts = seen-facts n raw (begun n a) in
      let total = errors-observe_jsonl (begun n a).stats (style raw) n in
      let same = rw (← b.jsonl) at newline in
      let sk =
        not
          (apply_reset codec max_seen n (count_line codec max_seen a)).stats.comparison_complete in
      let a' : Audit = record (begun n a) { stats = with_record (seen n raw (begun n a)) } in
      let going : a'.stats.comparison_complete ≡ true = facts.2 ∙ b.complete ∙ g.complete in
      let shape =
        dedup-compare codec max_seen n sk item a' next line going
          (rw (← b.deduplicator) at rendered) in
      rw (unfold_line n raw a, parse_line-item n raw sk (begun n a) item parsed, shape)
        (compare-ok codec max_seen n line
            (counted codec max_seen (record a' { deduplicator = next })) txt_line rest (b.txt ∙ e)
            (rw (facts.1 ∙ b.txt_newlines) good)
          ∙ ground (arith, total, same, b.same_errors, g.clean))
