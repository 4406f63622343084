-- ===== src/Parity/Stats.antt =====
-- `AuditStats` and the helpers that update it. `first_issue` and the position fields are the
-- record `Positions`; the three fields that the code keeps for each file are `Newlines`.
use chat_downloader_fork.Base.{
  ℕ, ◌+◌, Bool, true, false, Option, none, some, ltb, if◌then◌else◌, ◌||◌,
}
use chat_downloader_fork.Parity.Lines.{Style, lf, crlf}

pub data Reason : Type 0 where
  jsonl_mixed_newlines txt_mixed_newlines txt_invalid_utf8 jsonl_invalid_utf8 : Reason
  jsonl_blank_line jsonl_invalid_json jsonl_non_object dedup_error render_error : Reason
  text_mismatch dedup_reset_out_of_range text_count_mismatch : Reason
  jsonl_missing_trailing_newline txt_missing_trailing_newline : Reason
  capture_newline_style_mismatch : Reason

pub record Newlines : Type 0 where
  pub trailing : Option Bool
  pub style : Option Style
  pub mixed : ℕ

pub record Positions : Type 0 where
  pub first_issue : Option Reason
  pub first_issue_jsonl_line : Option ℕ
  pub first_issue_txt_line : Option ℕ
  pub first_mismatch_jsonl_line : Option ℕ
  pub first_mismatch_txt_line : Option ℕ

pub record AuditStats : Type 0 where
  pub jsonl_lines : ℕ
  pub jsonl_records : ℕ
  pub expected_txt_lines : ℕ
  pub txt_lines : ℕ
  pub suppressed_duplicates : ℕ
  pub jsonl_errors : ℕ
  pub dedup_errors : ℕ
  pub render_errors : ℕ
  pub txt_utf8_errors : ℕ
  pub text_mismatches : ℕ
  pub newline_errors : ℕ
  pub dedup_reset_errors : ℕ
  pub dedup_resets_applied : ℕ
  pub count_mismatch : Bool
  pub jsonl : Newlines
  pub txt : Newlines
  pub newline_style_mismatch : Bool
  pub jsonl_missing : Bool
  pub txt_missing : Bool
  pub comparison_complete : Bool
  pub comparison_skipped : ℕ
  pub positions : Positions

abbrev pub no_newlines : Newlines
no_newlines = record { trailing = none; style = none; mixed = 0 }

abbrev pub new_stats : AuditStats
new_stats = record {
  jsonl_lines = 0;
  jsonl_records = 0;
  expected_txt_lines = 0;
  txt_lines = 0;
  suppressed_duplicates = 0;
  jsonl_errors = 0;
  dedup_errors = 0;
  render_errors = 0;
  txt_utf8_errors = 0;
  text_mismatches = 0;
  newline_errors = 0;
  dedup_reset_errors = 0;
  dedup_resets_applied = 0;
  count_mismatch = false;
  jsonl = no_newlines;
  txt = no_newlines;
  newline_style_mismatch = false;
  jsonl_missing = false;
  txt_missing = false;
  comparison_complete = true;
  comparison_skipped = 0;
  positions = record {
    first_issue = none;
    first_issue_jsonl_line = none;
    first_issue_txt_line = none;
    first_mismatch_jsonl_line = none;
    first_mismatch_txt_line = none;
  };
}

abbrev pub is_false : Option Bool → Bool
is_false (some false) = true
is_false _ = false

-- The property `failed`.
unfoldable pub failed : AuditStats → Bool
failed s =
    ltb 0 s.jsonl_errors
    || ltb 0 s.dedup_errors
    || ltb 0 s.render_errors
    || ltb 0 s.txt_utf8_errors
    || ltb 0 s.text_mismatches
    || ltb 0 s.newline_errors
    || ltb 0 s.dedup_reset_errors
    || s.count_mismatch
    || is_false s.jsonl.trailing
    || is_false s.txt.trailing

abbrev pub is_none {ℓ} : {A : Type ℓ} → Option A → Bool
is_none none = true
is_none (some _) = false

-- `_record_issue`
unfoldable pub note_issue : Positions → Reason → Option ℕ → Option ℕ → Positions
note_issue p reason jsonl_line txt_line =
    if is_none p.first_issue
    then record p {
      first_issue = some reason;
      first_issue_jsonl_line = jsonl_line;
      first_issue_txt_line = txt_line;
    }
    else p

abbrev pub record_issue : AuditStats → Reason → Option ℕ → Option ℕ → AuditStats
record_issue s reason jsonl_line txt_line = record s {
  positions = note_issue s.positions reason jsonl_line txt_line;
}

abbrev pub neither : Option ℕ → Option ℕ → Bool
neither none none = true
neither _ _ = false

unfoldable pub note_mismatch : Positions → Option ℕ → Option ℕ → Positions
note_mismatch p jsonl_line txt_line =
    if neither p.first_mismatch_jsonl_line p.first_mismatch_txt_line
    then record p { first_mismatch_jsonl_line = jsonl_line; first_mismatch_txt_line = txt_line }
    else p

-- `_record_mismatch` with `newline=False`
abbrev pub record_text_mismatch : AuditStats → Reason → Option ℕ → Option ℕ → AuditStats
record_text_mismatch s reason jsonl_line txt_line = record s {
  text_mismatches = s.text_mismatches + 1;
  positions = note_issue (note_mismatch s.positions jsonl_line txt_line) reason jsonl_line txt_line;
}

-- `_record_mismatch` with `newline=True`
abbrev pub record_newline_mismatch : AuditStats → Reason → Option ℕ → Option ℕ → AuditStats
record_newline_mismatch s reason jsonl_line txt_line = record s {
  newline_errors = s.newline_errors + 1;
  positions = note_issue (note_mismatch s.positions jsonl_line txt_line) reason jsonl_line txt_line;
}

abbrev pub same_style : Style → Style → Bool
same_style lf lf = true
same_style crlf crlf = true
same_style _ _ = false

-- The fields of one file after a line with the given terminator; the flag says that the style
-- differs from the first one.
unfoldable pub see_newline : Newlines → Option Style → Newlines × Bool
see_newline n none = (record n { trailing = some false }, false)
see_newline n (some style) = elim n.style [
  | none ↦ (record n { trailing = some true; style = some style }, false)
  | some first ↦
      if same_style first style
      then (record n { trailing = some true }, false)
      else (record n { trailing = some true; mixed = n.mixed + 1 }, true)
]

-- `_observe_newline` for each artifact
unfoldable pub observe_jsonl_newline : AuditStats → Option Style → ℕ → AuditStats
unfolding see_newline
observe_jsonl_newline s style line_number =
    let (n, mixed) = see_newline s.jsonl style in
    let s' = record s { jsonl = n } in
    if mixed then record_newline_mismatch s' jsonl_mixed_newlines (some line_number) none else s'

unfoldable pub observe_txt_newline : AuditStats → Option Style → ℕ → AuditStats
unfolding see_newline
observe_txt_newline s style line_number =
    let (n, mixed) = see_newline s.txt style in
    let s' = record s { txt = n } in
    if mixed then record_newline_mismatch s' txt_mixed_newlines none (some line_number) else s'

-- `_mark_comparison_incomplete`
abbrev pub mark_comparison_incomplete : AuditStats → Bool → AuditStats
mark_comparison_incomplete s current_line_already_skipped = record s {
  comparison_skipped =
      if current_line_already_skipped then s.comparison_skipped else s.comparison_skipped + 1;
  comparison_complete = false;
}
