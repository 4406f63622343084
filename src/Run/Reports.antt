-- ===== src/Run/Reports.antt =====
-- `_verify_capture_outputs` and `_complete_run_record`.
pub mod Success
use chat_downloader_fork.Base.{
  Bool, true, false, not, ◌&&◌, ◌||◌, Option, none, some, String, ◌==◌, string_Eq, if◌then◌else◌,
}
use chat_downloader_fork.Run.Types.{
  Exc, Kind, is_chat_error, is_os_or_value, Message, plain, inspection_required, replay_incomplete,
  manifest_failed, or_message, or_stage, RunResult, verification, completion, manifest, passed,
  Parity,
}
use chat_downloader_fork.Run.Policy.{ChatView, replay_complete}

-- What the provider's inspection gives: the status of its report, if it has one, or what it raises.
pub data Inspection : Type 0 where
  reported : Option String → Inspection
  inspection_failed : Exc → Inspection

-- What a part of the reports leaves: the result, whether it wrote its file, and what it raises.
pub record Report : Type 0 where
  pub result : RunResult
  pub wrote : Bool
  pub error : Option Exc

abbrev pub fine_report : RunResult → Report
fine_report r = record { result = r; wrote = false; error = none }

abbrev pub failed_report : RunResult → Exc → Report
failed_report r e = record { result = r; wrote = false; error = some e }

abbrev pub written : RunResult → Option Exc → Report
written r none = record { result = r; wrote = true; error = none }
written r (some e) = failed_report r e

-- `next` runs only if nothing is raised before it.
abbrev pub unless : Option Exc → Report → (RunResult → Report) → Report
unless none report next = next report.result
unless (some e) report next = report

abbrev pub and_then : Report → (RunResult → Report) → Report
and_then report next = unless report.error report next

abbrev pub inspected : RunResult → Inspection → Report
inspected r (reported status) = fine_report (record r { provider_inspection = status })
inspected r (inspection_failed e) = failed_report r e

abbrev pub needs_review : Option String → Bool
needs_review none = false
needs_review (some status) = not (status == "ok")

unfoldable pub review : RunResult → RunResult
review r =
    if r.success && needs_review r.provider_inspection
    then record r {
      success = false;
      error_message = some inspection_required;
      failure_stage = some verification;
    }
    else r

abbrev pub verified : RunResult → Option Exc → Report
verified r none = fine_report (review (record r { parity_status = passed }))
verified r (some e) = failed_report (record r { parity_status = Parity.failed }) e

-- What the calls of the reports give.
pub record Answers : Type 0 where
  pub inspect_provider_capture : Inspection
  pub verify_capture : Option Exc
  pub checkpoint_save : Option Exc
  pub manifest_write : Option Exc

abbrev pub inspect_outputs : Bool → Answers → RunResult → Report
inspect_outputs bound answers r =
    if bound then inspected r answers.inspect_provider_capture else fine_report r

abbrev pub verify_outputs : Bool → Bool → Answers → RunResult → Report
verify_outputs requested after_error answers r =
    if requested && (r.success || r.interrupted || after_error)
    then verified r answers.verify_capture
    else fine_report r

abbrev pub save_outputs : Bool → Answers → RunResult → Report
save_outputs bound answers r = if bound then written r answers.checkpoint_save else fine_report r

-- The `except` clause of `_verify_capture_outputs`
unfoldable pub reject_capture : Exc → RunResult → RunResult
reject_capture e r = record r {
  success = false;
  termination_reason = elim r.error_message [ none ↦ "error" | some _ ↦ r.termination_reason ];
  error_message = some (or_message r.error_message (plain e.text));
  failure_stage = some (or_stage r.failure_stage verification);
}

abbrev pub handled : Option Exc → (Kind → Bool) → (Exc → RunResult → RunResult) → Report → Report
handled none catches handle report = report
handled (some e) catches handle report =
    if catches e.kind then fine_report (handle e report.result) else report

abbrev pub catch_report : (Kind → Bool) → (Exc → RunResult → RunResult) → Report → Report
catch_report catches handle report = handled report.error catches handle report

abbrev pub is_reported : Kind → Bool
is_reported k = is_chat_error k || is_os_or_value k

-- `inspects` and `saves` are that the verification and the checkpoint are bound, with a chat.
unfoldable pub verify_capture_outputs : Bool → Bool → Bool → Bool → Answers → RunResult → Report
verify_capture_outputs verify_output inspects saves after_error answers r =
    catch_report is_reported reject_capture (
      and_then
        (and_then (inspect_outputs inspects answers r)
          (verify_outputs (verify_output && inspects) after_error answers))
        (save_outputs saves answers))

unfoldable pub require_replay : Bool → Option ChatView → RunResult → RunResult
require_replay require_complete chat r =
    if require_complete && r.success && not (replay_complete chat r)
    then record r {
      success = false;
      error_message = some replay_incomplete;
      failure_stage = some completion;
    }
    else r

unfoldable pub reject_manifest : Exc → RunResult → RunResult
reject_manifest e r = record r {
  success = false;
  failure_stage = some (or_stage r.failure_stage manifest);
  error_message = some (elim r.error_message [ none ↦ manifest_failed e.text | some m ↦ m ]);
}

abbrev pub is_valid : Option Bool → Bool
is_valid none = false
is_valid (some valid) = valid

unfoldable pub complete_run_record :
    Bool → Option Bool → Option ChatView → Answers → RunResult → Report
complete_run_record require_complete valid chat answers r =
    let completed = require_replay require_complete chat r in
    catch_report is_os_or_value reject_manifest
      (if is_valid valid then written completed answers.manifest_write else fine_report completed)
