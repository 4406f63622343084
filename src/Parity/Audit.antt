-- ===== src/Parity/Audit.antt =====
-- `audit_capture`: one pass over the JSONL lines that consumes the TXT lines, then the checks at
-- the end.
use chat_downloader_fork.Base.{
  ℕ, ◌+◌, String, Bool, true, false, not, Option, none, some, List, [], ◌∷◌, if◌then◌else◌, ◌==◌,
  nat_Eq, list_eq, ℤ,
}
use chat_downloader_fork.Base.Json.{Json, obj, Fields}
use chat_downloader_fork.Base.Result.{ok, raise}
use chat_downloader_fork.Dedup.SeenCache.{SeenCache}
use chat_downloader_fork.Dedup.Formatted.{should_emit}
use chat_downloader_fork.Dedup.Formatted as Formatted
use chat_downloader_fork.Parity.Lines.{Bytes, split_physical_line}
use chat_downloader_fork.Parity.Stats.{
  AuditStats, is_none, record_issue, record_text_mismatch, observe_jsonl_newline,
  observe_txt_newline, mark_comparison_incomplete, jsonl_invalid_utf8, jsonl_blank_line,
  jsonl_invalid_json, jsonl_non_object, dedup_error, render_error, text_mismatch, txt_invalid_utf8,
}

-- What the audit uses of Python and of the formatter: UTF-8 decoding, `strip` to nothing,
-- `json.loads`, and the rendered line in UTF-8. `none` stands for an exception.
pub record Codec : Type 0 where
  pub decode : Bytes → Option String
  pub is_blank : String → Bool
  pub loads : String → Option Json
  pub render : Fields → Option Bytes

-- One file as `_open_optional_input` finds it: truly absent, not to be opened as a regular file, or
-- a regular file with its device and inode and its content.
pub data Input : Type 0 where
  absent : Input
  unusable : Input
  regular : ℕ × ℕ → Bytes → Input

-- The loop's variables. `resets` holds the reset lines from `next_reset_index` on, and `txt` the
-- TXT lines that have not been read.
pub record Audit : Type 0 where
  pub stats : AuditStats
  pub deduplicator : SeenCache
  pub resets : List ℕ
  pub txt : List Bytes

module _ (codec : Codec) (max_seen : Option ℤ) where
  -- `_parse_jsonl_line`
  unfoldable pub parse_value : Json → ℕ → AuditStats → AuditStats × Option Fields
  parse_value (obj item) n s = (record s { jsonl_records = s.jsonl_records + 1 }, some item)
  parse_value _ n s = (
    record_issue (record s { jsonl_errors = s.jsonl_errors + 1 }) jsonl_non_object (some n) none,
    none,
  )

  unfoldable pub parse_jsonl_line : Bytes → ℕ → AuditStats → AuditStats × Option Fields
  unfolding parse_value
  parse_jsonl_line content n s =
      let bad = record s { jsonl_errors = s.jsonl_errors + 1 } in
      elim (codec.decode content) [
        | none ↦ (record_issue bad jsonl_invalid_utf8 (some n) none, none)
        | some line ↦ elim (codec.is_blank line) [
          | true ↦ (record_issue bad jsonl_blank_line (some n) none, none)
          | false ↦ elim (codec.loads line) [
            | none ↦ (record_issue bad jsonl_invalid_json (some n) none, none)
            | some value ↦ parse_value value n s
          ]
        ]
      ]

  -- The part of `_read_txt_line` after a line has been read.
  unfoldable pub note_txt_line : Bytes → AuditStats → AuditStats
  note_txt_line raw s =
      let n = s.txt_lines + 1 in
      let (content, style) = split_physical_line raw in
      let seen = observe_txt_newline (record s { txt_lines = n }) style n in
      elim (codec.decode content) [
        | some _ ↦ seen
        | none ↦
            record_issue (record seen { txt_utf8_errors = seen.txt_utf8_errors + 1 })
              txt_invalid_utf8 none (some n)
      ]

  -- `_read_txt_line`, and the comparison with the expected line
  unfoldable pub compare_txt_line : ℕ → Bytes → Audit → Audit
  unfolding note_txt_line
  compare_txt_line n expected a = elim a.txt [
    | [] ↦ record a {
      stats = record_text_mismatch a.stats text_mismatch (some n) (some a.stats.expected_txt_lines);
    }
    | raw ∷ rest ↦
        let s = note_txt_line raw a.stats in
        record a {
          stats =
              if list_eq (split_physical_line raw).0 expected
              then s
              else record_text_mismatch s text_mismatch (some n) (some s.expected_txt_lines);
          txt = rest;
        }
  ]

  -- A rendered line is expected, and compared while the comparison is complete.
  unfoldable pub expect_line : ℕ → Bytes → Audit → Audit
  unfolding compare_txt_line
  expect_line n expected a =
      let counted = record a {
        stats = record a.stats { expected_txt_lines = a.stats.expected_txt_lines + 1 };
      } in
      if a.stats.comparison_complete then compare_txt_line n expected counted else counted

  unfoldable pub render_item : ℕ → Bool → Fields → Audit → Audit
  unfolding expect_line
  render_item n skipped item a = elim (codec.render item) [
    | none ↦ record a {
      stats =
          mark_comparison_incomplete
            (record_issue (record a.stats { render_errors = a.stats.render_errors + 1 })
              render_error (some n) none)
            skipped;
    }
    | some expected ↦ expect_line n expected a
  ]

  unfoldable pub dedup_item : ℕ → Bool → Fields → Audit → Audit
  unfolding render_item
  dedup_item n skipped item a = elim (should_emit a.deduplicator item) [
    | raise e ↦ record a {
      stats =
          mark_comparison_incomplete
            (record_issue (record a.stats { dedup_errors = a.stats.dedup_errors + 1 }) dedup_error
              (some n) none)
            skipped;
    }
    | ok (deduplicator, false) ↦ record a {
      stats = record a.stats { suppressed_duplicates = a.stats.suppressed_duplicates + 1 };
      deduplicator = deduplicator;
    }
    | ok (deduplicator, true) ↦
        render_item n skipped item (record a { deduplicator = deduplicator })
  ]

  -- A new deduplicator if the next reset is at this line.
  unfoldable pub apply_reset : ℕ → Audit → Audit
  apply_reset n a = elim a.resets [
    | [] ↦ a
    | at ∷ later ↦
        if at == n
        then record a {
          stats = record a.stats { dedup_resets_applied = a.stats.dedup_resets_applied + 1 };
          deduplicator = Formatted.init max_seen;
          resets = later;
        }
        else a
  ]

  -- The counts at the start of a line.
  unfoldable pub count_line : Audit → Audit
  count_line a = record a { stats = record a.stats { jsonl_lines = a.stats.jsonl_lines + 1 } }

  unfoldable pub count_skipped : Audit → Audit
  count_skipped a = if a.stats.comparison_complete then a else record a {
    stats = record a.stats { comparison_skipped = a.stats.comparison_skipped + 1 };
  }

  -- The line is split, its newline observed, and it is parsed.
  unfoldable pub parse_line : ℕ → Bytes → Bool → Audit → Audit
  unfolding parse_jsonl_line dedup_item
  parse_line n raw skipped a =
      let (content, style) = split_physical_line raw in
      let (s, item) = parse_jsonl_line content n (observe_jsonl_newline a.stats style n) in
      elim item [
        | none ↦ record a { stats = mark_comparison_incomplete s skipped }
        | some fields ↦ dedup_item n skipped fields (record a { stats = s })
      ]

  -- The body of the loop over the JSONL lines.
  unfoldable pub audit_line : ℕ → Bytes → Audit → Audit
  unfolding count_line apply_reset count_skipped parse_line
  audit_line n raw a =
      let begun = apply_reset n (count_line a) in
      parse_line n raw (not begun.stats.comparison_complete) (count_skipped begun)

  unfoldable pub audit_lines : ℕ → List Bytes → Audit → Audit
  unfolding audit_line
  audit_lines n [] a = a
  audit_lines n (raw ∷ lines) a = audit_lines (n + 1) lines (audit_line n raw a)

  -- The `while True` loop over the rest of the TXT file: the statistics, and the first extra line.
  unfoldable pub drain_txt : List Bytes → AuditStats → Option ℕ → AuditStats × Option ℕ
  unfolding note_txt_line
  drain_txt [] s first = (s, first)
  drain_txt (raw ∷ rest) s first =
      let s' = note_txt_line raw s in
      drain_txt rest s' (if is_none first then some s'.txt_lines else first)
