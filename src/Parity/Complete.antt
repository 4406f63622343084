-- ===== src/Parity/Complete.antt =====
-- Lines that are as expected give no error.
use mathlib.Core.Path.{subst}
use chat_downloader_fork.Base.{
  ℕ, ◌+◌, ◌≡◌, refl, ap, sym, ◌∙◌, false, Option, none, some, List, [], ◌∷◌, ◌++◌, map, nat_Eq, ℤ,
  arith, Option-cases, inl, inr,
}
use chat_downloader_fork.Base.Json.{Fields}
use chat_downloader_fork.Dedup.SeenCache.{SeenCache}
use chat_downloader_fork.Parity.Lines.{Bytes}
use chat_downloader_fork.Parity.Stats.{see_newline}
use chat_downloader_fork.Parity.Audit.{Codec, Audit, audit_line, audit_lines}
use chat_downloader_fork.Parity.Expected.{content, style, reset, item_of, rendering}
use chat_downloader_fork.Parity.Errors.{errors}
use chat_downloader_fork.Parity.Progress.{IsGood, TxtOk, TxtStep, suppressed, compared}
use chat_downloader_fork.Parity.Expected.{expected_lines, prepend}
use chat_downloader_fork.Parity.Step.{
  LineOk, audit_line-clean, audit_line-suppressed, audit_line-compared,
}
use chat_downloader_fork.Parity.Run.{NewlinesOk, AllDecode}

-- How `expected_lines` got its result on a first line.
record Unfolded (codec : Codec) (max_seen : Option ℤ) (n : ℕ) (c : SeenCache) (resets : List ℕ)
    (raw : Bytes) (js lines : List Bytes) : Type 0 where
  item : Fields
  parsed : item_of codec (content raw) ≡ some item
  next : SeenCache
  line : Option Bytes
  rendered : rendering codec (reset max_seen n c resets).0 item ≡ some (next, line)
  rest : List Bytes
  later : expected_lines codec max_seen (n + 1) next (reset max_seen n c resets).1 js ≡ some rest
  whole : lines ≡ prepend codec line rest

module _ (codec : Codec) (max_seen : Option ℤ) where
  unfold_reset :
      (n : ℕ) (c : SeenCache) (resets : List ℕ) (raw : Bytes) (js : List Bytes)
      → expected_lines codec max_seen n c resets (raw ∷ js) ≡ elim (item_of codec (content raw)) [
        | none ↦ none
        | some item ↦ elim (rendering codec (reset max_seen n c resets).0 item) [
          | none ↦ none
          | some (c'', line) ↦
              elim (expected_lines codec max_seen (n + 1) c'' (reset max_seen n c resets).1 js) [
                | none ↦ none
                | some rest ↦ some (prepend codec line rest)
              ]
        ]
      ]
  unfolding expected_lines
  unfold_reset n c [] raw js = refl
  unfold_reset n c (at ∷ later) raw js = refl

  unfold_expected :
      (n : ℕ) (c : SeenCache) (resets : List ℕ) (raw : Bytes) (js lines : List Bytes)
      → expected_lines codec max_seen n c resets (raw ∷ js) ≡ some lines
      → Unfolded codec max_seen n c resets raw js lines
  unfold_expected n c resets raw js lines h =
      let h' = sym (unfold_reset n c resets raw js) ∙ h in
      elim (Option-cases (item_of codec (content raw))) [
        | inl e ↦ absurd (ground arith)
        | inr (item, e) ↦ elim (Option-cases (rendering codec (reset max_seen n c resets).0 item)) [
          | inl e' ↦ absurd (ground arith)
          | inr (r, e') ↦
              elim (Option-cases
                (expected_lines codec max_seen (n + 1) r.0 (reset max_seen n c resets).1 js)) [
                  | inl e'' ↦ absurd (ground arith)
                  | inr (rest, e'') ↦ record {
                    item = item;
                    parsed = e;
                    next = r.0;
                    line = r.1;
                    rendered = e';
                    rest = rest;
                    later = e'';
                    whole = ground arith;
                  }
                ]
        ]
      ]

  same_line :
      {n : ℕ} {raw : Bytes} {a b : Audit} {js lines : List Bytes}
      (k : LineOk codec max_seen n raw a b)
      (u : Unfolded codec max_seen n a.deduplicator a.resets raw js lines)
      → (k.line ≡ u.line) × (k.next ≡ u.next)
  same_line {n} {raw} {a} k u =
      let items : k.item ≡ u.item = ground (arith, k.parsed, u.parsed) in
      let c = (reset max_seen n a.deduplicator a.resets).0 in
      let results : some (k.next, k.line) ≡ some (u.next, u.line) =
        sym k.rendered ∙ ap (rendering codec c) items ∙ u.rendered in
      (ground (arith, results), ground (arith, results))

  -- What remains to be shown of the lines that follow.
  pub record Finished (js : List Bytes) (n : ℕ) (a : Audit) (rest : List Bytes) : Type 0 where
    pub clean : errors (audit_lines codec max_seen n js a).stats ≡ 0
    pub left : (audit_lines codec max_seen n js a).txt ≡ rest
    pub no_resets : (audit_lines codec max_seen n js a).resets ≡ []

  -- What a line that is as expected leaves, and what the lines after it should have.
  record Onward (n : ℕ) (js : List Bytes) (m : Audit) (rest : List Bytes) : Type 0 where
    used : List Bytes
    read : m.txt ≡ used ++ rest
    expected : expected_lines codec max_seen n m.deduplicator m.resets js ≡ some (map content used)
    decodes : AllDecode codec max_seen used
    jsonl : NewlinesOk m.stats.jsonl js
    txt : NewlinesOk m.stats.txt used
    good : IsGood m.stats

  module _ (n : ℕ) (raw : Bytes) (js rest : List Bytes) (a : Audit) (g : IsGood a.stats)
      (newline : (see_newline a.stats.jsonl (style raw)).1 ≡ false)
      (newlines : NewlinesOk (see_newline a.stats.jsonl (style raw)).0 js) where
    abbrev after_line : Audit
    after_line = audit_line codec max_seen n raw a

    onward-suppressed :
        (used : List Bytes)
        → a.txt ≡ used ++ rest
        → AllDecode codec max_seen used
        → NewlinesOk a.stats.txt used
        → (u : Unfolded codec max_seen n a.deduplicator a.resets raw js (map content used))
        → u.line ≡ none
        → Onward (n + 1) js after_line rest
    onward-suppressed used read decodes txt u e =
        let clean =
          audit_line-suppressed codec max_seen n raw a u.item u.next g u.parsed newline
            (rw e at u.rendered) in
        let k = audit_line-clean codec max_seen n raw a g clean in
        let (line, next) = same_line k u in go k (line ∙ e) next k.step
      where
        go :
            (k : LineOk codec max_seen n raw a after_line)
            → k.line ≡ none
            → k.next ≡ u.next
            → TxtStep codec max_seen a after_line k.line
            → Onward (n + 1) js after_line rest
        go k none_line next step =
            let (t, s) = quiet (subst (TxtStep codec max_seen a after_line) none_line step) in
            record {
              used = used;
              read = t ∙ read;
              expected =
                  rw (k.deduplicator, next, k.resets)
                    (u.later ∙ ap some (sym (u.whole ∙ ap (λ l. prepend codec l u.rest) e)));
              decodes = decodes;
              jsonl = rw k.jsonl newlines;
              txt = rw s txt;
              good = k.good;
            }
          where
            quiet :
                TxtStep codec max_seen a after_line none
                → (after_line.txt ≡ a.txt) × (after_line.stats.txt ≡ a.stats.txt)
            quiet (suppressed t s) = (t, s)

    onward-compared :
        (txt_line : Bytes) (used : List Bytes) (expected : Bytes)
        → a.txt ≡ txt_line ∷ used ++ rest
        → AllDecode codec max_seen (txt_line ∷ used)
        → NewlinesOk a.stats.txt (txt_line ∷ used)
        → (u : Unfolded codec max_seen n a.deduplicator a.resets raw js
            (map content (txt_line ∷ used)))
        → u.line ≡ some expected
        → Onward (n + 1) js after_line rest
    onward-compared txt_line used expected read ((decoded, decodes), all) (same_newline, txt) u e =
        let lists = u.whole ∙ ap (λ l. prepend codec l u.rest) e in
        let good : TxtOk codec max_seen txt_line expected a.stats.txt = record {
          same = ground (arith, lists);
          decoded = decoded;
          decodes = decodes;
          newline = same_newline;
        } in
        let clean =
          audit_line-compared codec max_seen n raw a u.item u.next expected txt_line (used ++ rest)
            g u.parsed newline (rw e at u.rendered) read good in
        let k = audit_line-clean codec max_seen n raw a g clean in
        let (line, next) = same_line k u in go (ground (arith, lists)) k (line ∙ e) next k.step
      where
        go :
            map content used ≡ u.rest
            → (k : LineOk codec max_seen n raw a after_line) → k.line ≡ some expected
            → k.next ≡ u.next
            → TxtStep codec max_seen a after_line k.line
            → Onward (n + 1) js after_line rest
        go others k some_line next step =
            let (t, s) = moved (subst (TxtStep codec max_seen a after_line) some_line step) in
            record {
              used = used;
              read = t;
              expected = rw (k.deduplicator, next, k.resets, others) u.later;
              decodes = all;
              jsonl = rw k.jsonl newlines;
              txt = rw s txt;
              good = k.good;
            }
          where
            moved :
                TxtStep codec max_seen a after_line (some expected)
                → (after_line.txt ≡ used ++ rest)
                  × (after_line.stats.txt ≡ (see_newline a.stats.txt (style txt_line)).0)
            moved (compared _ raw' rest' next' good' left s) =
                let both : txt_line ∷ used ++ rest ≡ raw' ∷ rest' = sym read ∙ next' in
                (
                  left ∙ ground (arith, both),
                  s ∙ ap (λ l. (see_newline a.stats.txt (style l)).0) (ground (arith, both)),
                )

    onward :
        (used : List Bytes)
        → a.txt ≡ used ++ rest
        → AllDecode codec max_seen used
        → NewlinesOk a.stats.txt used
        → (u : Unfolded codec max_seen n a.deduplicator a.resets raw js (map content used))
        → (line : Option Bytes) → u.line ≡ line
        → Onward (n + 1) js after_line rest
    onward used read decodes txt u none e = onward-suppressed used read decodes txt u e
    onward [] read decodes txt u (some expected) e =
        absurd (let lists = u.whole ∙ ap (λ l. prepend codec l u.rest) e in ground (arith, lists))
    onward (txt_line ∷ used) read decodes txt u (some expected) e =
        onward-compared txt_line used expected read decodes txt u e

  -- Lines that are as expected give no error, and leave the TXT lines after the expected ones.
  pub audit_lines-ok :
      (n : ℕ) (js : List Bytes) (a : Audit) (rest used : List Bytes)
      → IsGood a.stats
      → a.txt ≡ used ++ rest
      → expected_lines codec max_seen n a.deduplicator a.resets js ≡ some (map content used)
      → AllDecode codec max_seen used
      → NewlinesOk a.stats.jsonl js
      → NewlinesOk a.stats.txt used
      → Finished js n a rest
  unfolding audit_lines
  audit_lines-ok n [] a rest used g read e decodes jsonl txt = go used a.resets refl read e
    where
      go :
          (used : List Bytes) (l : List ℕ)
          → a.resets ≡ l
          → a.txt ≡ used ++ rest
          → expected_lines codec max_seen n a.deduplicator a.resets [] ≡ some (map content used)
          → Finished [] n a rest
      go [] [] r read e = record { clean = g.clean; left = read; no_resets = r }
      go (x ∷ xs) [] r read e =
          absurd (unfold expected_lines in let e' = rw r at e in ground (arith, e'))
      go used (at ∷ later) r read e =
          absurd (unfold expected_lines in let e' = rw r at e in ground (arith, e'))
  audit_lines-ok n (raw ∷ js) a rest used g read e decodes (newline, newlines) txt =
      let u = unfold_expected n a.deduplicator a.resets raw js (map content used) e in
      let o = onward n raw js rest a g newline newlines used read decodes txt u u.line refl in
      let f =
        audit_lines-ok (n + 1) js (audit_line codec max_seen n raw a) rest o.used o.good o.read
          o.expected o.decodes o.jsonl o.txt in
      record { clean = f.clean; left = f.left; no_resets = f.no_resets }
