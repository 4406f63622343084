-- ===== src/Run/Execute.antt =====
-- `execute_run`: the setup, the capture, and the finalization that always follows.
mod Kept
pub mod Counted
mod Failing
pub mod Success
pub mod Saved
pub mod Explained
use chat_downloader_fork.Base.{
  ℕ, zero, Bool, true, false, not, ◌&&◌, Option, none, some, List, String, if◌then◌else◌,
}
use chat_downloader_fork.Base.Json.{Fields, end}
use chat_downloader_fork.Run.Types.{
  Exc, RunResult, new_result, not_run, not_requested, shutdown, classify_run_error,
}
use chat_downloader_fork.Run.Policy.{ChatView, observe_provider}
use chat_downloader_fork.Run.Shutdown.{Closing, Closed, finalize_run, Deadline, observe_shutdown}
use chat_downloader_fork.Run.Setup.{Config, Calls, Locals, Progress, going, cut, failed, setup}
use chat_downloader_fork.Run.Capture.{
  Next, capture_loop, end_capture, is_going, is_cut, verifies_after,
}
use chat_downloader_fork.Run.Reports.{Answers, Report, verify_capture_outputs, complete_run_record}

-- All that the run asks of the code around it. `begun` is the chat as it is made, `ended` as it is
-- when it is closed, and `unlock` what the removal of the checkpoint's lock raises.
pub record World : Type 0 where
  pub calls : Calls
  pub begun : ChatView
  pub source : List Next
  pub reason : Option String
  pub closing : Closing
  pub setup_diagnostics : Fields
  pub ended : ChatView
  pub deadline : Deadline
  pub answers : Answers
  pub unlock : Option Exc

-- How the run ends: it returns its result, or an exception or an interrupt leaves it.
pub data Ending : Type 0 where
  returned : RunResult → Ending
  escaped : Exc → Ending
  interrupted : Ending

-- With the ending: whether the checkpoint was saved and the manifest written.
pub record Ran : Type 0 where
  pub ending : Ending
  pub saved : Bool
  pub wrote_manifest : Bool

abbrev pub start_result : Config → RunResult
start_result config = record new_result {
  parity_status = if config.verify_output then not_run else not_requested;
}

-- The body of the `try`
abbrev pub capture_from : World → Progress → RunResult → RunResult × Progress
capture_from w going r = capture_loop w.source r
capture_from w (failed e) r = (r, failed e)
capture_from w cut r = (r, cut)

-- What `_finalize_run` meets: nothing of a chat or a downloader that is not there
abbrev pub closing_of : Locals → Closing → Closing
closing_of l c = record {
  chat_close = if l.has_chat then c.chat_close else none;
  write_error_count = if l.has_chat then c.write_error_count else zero;
  writer_error_text = c.writer_error_text;
  downloader_close = if l.has_downloader then c.downloader_close else none;
}

abbrev pub shutdown_error : Exc → RunResult → RunResult
shutdown_error e r = record r {
  success = false;
  termination_reason = "error";
  failure_stage = some shutdown;
  error_message = some (classify_run_error e);
}

-- After `_finalize_run`: an exception it raises replaces the error, one it returns only if there
-- is no error yet.
abbrev pub replace_error : Bool → Option Exc → Option Exc → RunResult → RunResult
replace_error primary_error (some e) suppressed r = shutdown_error e r
replace_error primary_error none none r = r
replace_error true none (some e) r = r
replace_error false none (some e) r = shutdown_error e r

unfoldable pub after_close : Bool → Closed → RunResult → RunResult
after_close primary_error closed r =
    replace_error primary_error closed.close_error closed.suppressed r

-- `_finalize_run` neither raises nor returns an exception.
abbrev pub is_clean : Closed → Bool
is_clean closed = elim closed.close_error [
  | some _ ↦ false
  | none ↦ elim closed.suppressed [ some _ ↦ false | none ↦ true ]
]

abbrev pub chat_of : Locals → World → Option ChatView
chat_of l w = if l.has_chat then some w.ended else none

abbrev pub observed_by : Bool → Deadline → RunResult → RunResult
observed_by true d r = observe_shutdown r d
observed_by false d r = r

unfoldable pub observe : World → Locals → RunResult → RunResult
observe w l r =
    observed_by l.has_chat w.deadline
      (observe_provider r (chat_of l w) (if l.has_downloader then w.setup_diagnostics else end))

abbrev pub end_of : Bool → Option Exc → RunResult → Ending
end_of cut_short (some e) r = escaped e
end_of true none r = interrupted
end_of false none r = returned r

-- The manifest is not written when an exception leaves the reports.
abbrev pub leave : Bool → Exc → Ran
leave saved e = record { ending = escaped e; saved = saved; wrote_manifest = false }

abbrev pub finish_report : Bool → Option Exc → Option Exc → Bool → Report → Ran
finish_report cut_short (some e) error saved done = leave saved e
finish_report cut_short none (some e) saved done = leave saved e
finish_report cut_short none none saved done = record {
  ending = end_of cut_short done.error done.result;
  saved = saved;
  wrote_manifest = done.wrote;
}

-- The end of the `finally` clause, after the reports; `cut_short` is that the interrupt is raised
-- again.
unfoldable pub finish : Config → World → Locals → Bool → Report → Ran
finish config w l cut_short report =
    finish_report cut_short (if l.locked then w.unlock else none) report.error report.wrote
      (complete_run_record config.require_complete l.manifest (chat_of l w) w.answers report.result)

unfoldable pub finalize : Config → World → Locals → RunResult × Progress → Ran
unfolding finalize_run
finalize config w l (r, p) =
    let primary_error = not (is_going p) in
    let closed = finalize_run (closing_of l w.closing) primary_error in
    let clean = is_clean closed in
    let observed =
      observe w l (after_close primary_error closed (end_capture w.reason l.phase (r, p))) in
    finish config w l (is_cut p && config.propagate_interrupt) (
      verify_capture_outputs config.verify_output (clean && l.verification_bound && l.has_chat)
        (clean && l.checkpoint && l.checkpoint_bound && l.has_chat) (verifies_after l.phase p)
        w.answers observed)

unfoldable pub run_from : Config → World → Locals × Progress → Ran
run_from config w (l, p) = finalize config w l (capture_from w p (start_result config))

unfoldable pub execute_run : Config → World → Ran
unfolding setup
execute_run config w = run_from config w (setup config w.calls w.begun)
