-- ===== src/Parity/Errors.antt =====
-- The audit's error counters only grow.
use chat_downloader_fork.Base.{
  ℕ, ◌+◌, ◌≤◌, ◌≡◌, refl, Bool, true, false, not, Option, none, some, List, [], ◌∷◌, if◌then◌else◌,
  nat_Eq, list_eq, ℤ, arith, Bool-cases, Option-cases, inl, inr,
}
use chat_downloader_fork.Base.Json.{Json, obj, Fields}
use chat_downloader_fork.Base.Result.{Result, ok, raise}
use chat_downloader_fork.Dedup.SeenCache.{SeenCache}
use chat_downloader_fork.Dedup.Formatted.{should_emit}
use chat_downloader_fork.Parity.Lines.{Bytes, Style, split_physical_line}
use chat_downloader_fork.Parity.Stats.{
  AuditStats, see_newline, observe_jsonl_newline, observe_txt_newline,
}
use chat_downloader_fork.Parity.Audit.{
  Codec, Audit, parse_value, parse_jsonl_line, note_txt_line, compare_txt_line, expect_line,
  render_item, dedup_item, apply_reset, count_line, count_skipped, parse_line, audit_line,
  audit_lines, drain_txt,
}

-- All errors that `failed` counts, but for the number of lines and the last newlines.
abbrev pub errors : AuditStats → ℕ
errors s =
    s.jsonl_errors + s.dedup_errors + s.render_errors + s.txt_utf8_errors + s.text_mismatches
    + s.newline_errors + s.dedup_reset_errors

pub errors-observe_jsonl :
    (s : AuditStats) (style : Option Style) (n : ℕ)
    → errors (observe_jsonl_newline s style n)
      ≡ errors s + (if (see_newline s.jsonl style).1 then 1 else 0)
unfolding observe_jsonl_newline
errors-observe_jsonl s style n = elim (Bool-cases (see_newline s.jsonl style).1) [
  | inl mixed ↦ rw (mixed, observe_jsonl_newline) (omega arith)
  | inr same ↦ rw (same, observe_jsonl_newline) (omega arith)
]

pub errors-observe_txt :
    (s : AuditStats) (style : Option Style) (n : ℕ)
    → errors (observe_txt_newline s style n)
      ≡ errors s + (if (see_newline s.txt style).1 then 1 else 0)
unfolding observe_txt_newline
errors-observe_txt s style n = elim (Bool-cases (see_newline s.txt style).1) [
  | inl mixed ↦ rw (mixed, observe_txt_newline) (omega arith)
  | inr same ↦ rw (same, observe_txt_newline) (omega arith)
]

module _ (codec : Codec) (max_seen : Option ℤ) where
  errors-parse_value-le :
      (v : Json) (n : ℕ) (s : AuditStats) → errors s ≤ errors (parse_value codec max_seen v n s).0
  unfolding parse_value
  errors-parse_value-le (obj item) n s = omega arith
  errors-parse_value-le _ n s = omega arith

  pub errors-parse-le :
      (content : Bytes) (n : ℕ) (s : AuditStats)
      → errors s ≤ errors (parse_jsonl_line codec max_seen content n s).0
  unfolding parse_jsonl_line
  errors-parse-le content n s = elim (Option-cases (codec.decode content)) [
    | inl bad ↦ rw (bad, parse_jsonl_line) (omega arith)
    | inr (line, good) ↦ elim (Bool-cases (codec.is_blank line)) [
      | inl blank ↦ rw (good, blank, parse_jsonl_line) (omega arith)
      | inr full ↦ elim (Option-cases (codec.loads line)) [
        | inl bad ↦ rw (good, full, bad, parse_jsonl_line) (omega arith)
        | inr (v, value) ↦ rw (good, full, value, parse_jsonl_line) (errors-parse_value-le v n s)
      ]
    ]
  ]

  pub errors-note_txt-le :
      (raw : Bytes) (s : AuditStats) → errors s ≤ errors (note_txt_line codec max_seen raw s)
  unfolding note_txt_line
  errors-note_txt-le raw s =
      let style = (split_physical_line raw).1 in
      let counted = record s { txt_lines = s.txt_lines + 1 } in
      let e = errors-observe_txt counted style (s.txt_lines + 1) in
      elim (Option-cases (codec.decode (split_physical_line raw).0)) [
        | inl bad ↦ rw (bad, note_txt_line) (omega (arith, e))
        | inr (t, good) ↦ rw (good, note_txt_line) (omega (arith, e))
      ]

  errors-compare-le :
      (n : ℕ) (expected : Bytes) (a : Audit)
      → errors a.stats ≤ errors (compare_txt_line codec max_seen n expected a).stats
  unfolding compare_txt_line
  errors-compare-le n expected a = go a.txt refl
    where
      go :
          (l : List Bytes)
          → a.txt ≡ l
          → errors a.stats ≤ errors (compare_txt_line codec max_seen n expected a).stats
      go [] e = rw (e, compare_txt_line) (omega arith)
      go (raw ∷ rest) e =
          let seen = errors-note_txt-le raw a.stats in
          elim (Bool-cases (list_eq (split_physical_line raw).0 expected)) [
            | inl same ↦ rw (e, same, compare_txt_line) seen
            | inr differs ↦ rw (e, differs, compare_txt_line) (omega (arith, seen))
          ]

  pub errors-expect-le :
      (n : ℕ) (expected : Bytes) (a : Audit)
      → errors a.stats ≤ errors (expect_line codec max_seen n expected a).stats
  unfolding expect_line
  errors-expect-le n expected a =
      let counted : Audit = record a {
        stats = record a.stats { expected_txt_lines = a.stats.expected_txt_lines + 1 };
      } in
      elim (Bool-cases a.stats.comparison_complete) [
        | inl going ↦ rw (going, expect_line) (errors-compare-le n expected counted)
        | inr lost ↦ rw (lost, expect_line) (omega arith)
      ]

  pub errors-render-le :
      (n : ℕ) (skipped : Bool) (item : Fields) (a : Audit)
      → errors a.stats ≤ errors (render_item codec max_seen n skipped item a).stats
  unfolding render_item
  errors-render-le n skipped item a = elim (Option-cases (codec.render item)) [
    | inl bad ↦ rw (bad, render_item) (omega arith)
    | inr (line, good) ↦ rw (good, render_item) (errors-expect-le n line a)
  ]

  pub errors-dedup-le :
      (n : ℕ) (skipped : Bool) (item : Fields) (a : Audit)
      → errors a.stats ≤ errors (dedup_item codec max_seen n skipped item a).stats
  unfolding dedup_item
  errors-dedup-le n skipped item a = go (should_emit a.deduplicator item) refl
    where
      go :
          (r : Result (SeenCache × Bool))
          → should_emit a.deduplicator item ≡ r
          → errors a.stats ≤ errors (dedup_item codec max_seen n skipped item a).stats
      go (raise x) e = rw (e, dedup_item) (omega arith)
      go (ok (c, false)) e = rw (e, dedup_item) (omega arith)
      go (ok (c, true)) e =
          rw (e, dedup_item) (errors-render-le n skipped item (record a { deduplicator = c }))

  pub errors-begin :
      (n : ℕ) (a : Audit)
      → errors
          (count_skipped codec max_seen
            (apply_reset codec max_seen n (count_line codec max_seen a))).stats
        ≡ errors a.stats
  unfolding count_skipped apply_reset count_line
  errors-begin n a = ground arith

  pub errors-parse_line-le :
      (n : ℕ) (raw : Bytes) (skipped : Bool) (a : Audit)
      → errors a.stats ≤ errors (parse_line codec max_seen n raw skipped a).stats
  unfolding parse_line
  errors-parse_line-le n raw skipped a =
      go (parse_jsonl_line codec max_seen (split_physical_line raw).0 n s).1 refl
    where
      s : AuditStats
      s = observe_jsonl_newline a.stats (split_physical_line raw).1 n

      go :
          (o : Option Fields)
          → (parse_jsonl_line codec max_seen (split_physical_line raw).0 n s).1 ≡ o
          → errors a.stats ≤ errors (parse_line codec max_seen n raw skipped a).stats
      go none e =
          rw (e, parse_line)
            (omega (
              arith,
              errors-observe_jsonl a.stats (split_physical_line raw).1 n,
              errors-parse-le (split_physical_line raw).0 n s,
            ))
      go (some item) e =
          let parsed = (parse_jsonl_line codec max_seen (split_physical_line raw).0 n s).0 in
          rw (e, parse_line)
            (omega (
              arith,
              errors-observe_jsonl a.stats (split_physical_line raw).1 n,
              errors-parse-le (split_physical_line raw).0 n s,
              errors-dedup-le n skipped item (record a { stats = parsed }),
            ))

  errors-audit_line-le :
      (n : ℕ) (raw : Bytes) (a : Audit)
      → errors a.stats ≤ errors (audit_line codec max_seen n raw a).stats
  unfolding audit_line
  errors-audit_line-le n raw a =
      let begun = apply_reset codec max_seen n (count_line codec max_seen a) in
      omega (
        arith,
        errors-begin n a,
        errors-parse_line-le n raw (not begun.stats.comparison_complete)
            (count_skipped codec max_seen begun),
      )

  pub errors-audit_lines-le :
      (n : ℕ) (lines : List Bytes) (a : Audit)
      → errors a.stats ≤ errors (audit_lines codec max_seen n lines a).stats
  unfolding audit_lines
  errors-audit_lines-le n [] a = omega arith
  errors-audit_lines-le n (raw ∷ lines) a = omega (
    arith,
    errors-audit_line-le n raw a,
    errors-audit_lines-le (n + 1) lines (audit_line codec max_seen n raw a),
  )

  pub errors-drain-le :
      (txt : List Bytes) (s : AuditStats) (first : Option ℕ)
      → errors s ≤ errors (drain_txt codec max_seen txt s first).0
  unfolding drain_txt
  errors-drain-le [] s first = omega arith
  errors-drain-le (raw ∷ rest) s first =
      omega (
        arith,
        errors-note_txt-le raw s,
        errors-drain-le rest (note_txt_line codec max_seen raw s) _,
      )
