-- ===== src/Parity/Finish.antt =====
-- The end of `audit_capture`: the checks after both files are read, and the whole function.
use chat_downloader_fork.Base.{
  ℕ, Bool, true, false, not, ◌&&◌, Option, none, some, List, [], ◌∷◌, if◌then◌else◌, ◌==◌, nat_Eq,
  length, ℤ,
}
use chat_downloader_fork.Base.Result.{Result, ok, raise, os_error, ◌>>=◌, ◌>>◌, raise_if}
use chat_downloader_fork.Dedup.Formatted as Formatted
use chat_downloader_fork.Parity.Lines.{Bytes, Style, read_lines}
use chat_downloader_fork.Parity.Stats.{
  AuditStats, new_stats, is_false, same_style, record_issue, record_text_mismatch,
  record_newline_mismatch, dedup_reset_out_of_range, text_count_mismatch,
  jsonl_missing_trailing_newline, txt_missing_trailing_newline, capture_newline_style_mismatch,
}
use chat_downloader_fork.Parity.Audit.{
  Codec, Input, absent, unusable, regular, audit_lines, drain_txt,
}

-- Resets that no line reached.
unfoldable pub check_resets : List ℕ → AuditStats → AuditStats
check_resets [] s = s
check_resets (line ∷ later) s =
    record_issue
      (record s { dedup_reset_errors = length (line ∷ later); comparison_complete = false })
      dedup_reset_out_of_range (some line) none

-- `first_extra` decides how a difference in the number of lines is reported.
unfoldable pub report_count : Option ℕ → AuditStats → AuditStats
report_count none s = record_issue s text_count_mismatch none none
report_count (some line) s =
    if s.comparison_complete
    then record_text_mismatch s text_count_mismatch none (some line)
    else record_issue s text_count_mismatch none none

unfoldable pub check_count : Option ℕ → AuditStats → AuditStats
unfolding report_count
check_count first_extra s =
    if s.expected_txt_lines == s.txt_lines
    then record s { count_mismatch = false }
    else report_count first_extra (record s { count_mismatch = true })

unfoldable pub check_jsonl_end : AuditStats → AuditStats
check_jsonl_end s =
    if is_false s.jsonl.trailing
    then record_newline_mismatch s jsonl_missing_trailing_newline (some s.jsonl_lines) none
    else s

unfoldable pub check_txt_end : AuditStats → AuditStats
check_txt_end s =
    if is_false s.txt.trailing
    then record_newline_mismatch s txt_missing_trailing_newline none (some s.txt_lines)
    else s

abbrev pub styles_differ : Option Style → Option Style → Bool
styles_differ (some a) (some b) = not (same_style a b)
styles_differ _ _ = false

unfoldable pub check_styles : AuditStats → AuditStats
check_styles s =
    if styles_differ s.jsonl.style s.txt.style
    then record_newline_mismatch (record s { newline_style_mismatch = true })
        capture_newline_style_mismatch (some 1) (some 1)
    else s

unfoldable pub finish : Option ℕ → List ℕ → AuditStats → AuditStats
unfolding check_resets check_count check_jsonl_end check_txt_end check_styles
finish first_extra resets s =
    check_styles (check_txt_end (check_jsonl_end (check_count first_extra (check_resets resets s))))

module _ (codec : Codec) (max_seen : Option ℤ) where
  -- The audit of two open files.
  unfoldable pub audit_streams : List Bytes → List Bytes → Bool → Bool → List ℕ → AuditStats
  unfolding audit_lines drain_txt finish
  audit_streams jsonl txt jsonl_missing txt_missing resets =
      let start = record new_stats { jsonl_missing = jsonl_missing; txt_missing = txt_missing } in
      let read = audit_lines codec max_seen 1 jsonl (record {
        stats = start;
        deduplicator = Formatted.init max_seen;
        resets = resets;
        txt = txt;
      }) in
      let (s, first_extra) = drain_txt codec max_seen read.txt read.stats none in
      finish first_extra read.resets s

  abbrev pub open_input : Input → Result (Bytes × Bool × Option (ℕ × ℕ))
  open_input absent = ok ([], true, none)
  open_input unusable = raise os_error
  open_input (regular identity content) = ok (content, false, some identity)

  abbrev pub same_identity : Option (ℕ × ℕ) → Option (ℕ × ℕ) → Bool
  same_identity (some (d, i)) (some (d', i')) = d == d' && i == i'
  same_identity _ _ = false

  unfoldable pub audit_capture : Input → Input → List ℕ → Result AuditStats
  unfolding audit_streams read_lines
  audit_capture jsonl_path txt_path resets = do
    (jsonl, jsonl_missing, jsonl_identity) ← open_input jsonl_path
    (txt, txt_missing, txt_identity) ← open_input txt_path
    raise_if (same_identity jsonl_identity txt_identity) os_error
    ok (audit_streams (read_lines jsonl) (read_lines txt) jsonl_missing txt_missing resets)
