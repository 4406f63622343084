-- ===== src/Run/Capture.antt =====
-- The capture loop of `execute_run`, and the clauses that handle what its `try` raises.
use chat_downloader_fork.Base.{
  ◌+◌, Bool, true, false, ◌&&◌, Option, none, some, List, [], ◌∷◌, String, if◌then◌else◌,
}
use chat_downloader_fork.Base.Json.{Json, text, Fields, get}
use chat_downloader_fork.Checkpoint.Events.{increment}
use chat_downloader_fork.Run.Types.{
  Exc, Kind, broken_pipe, Outcome, fine, raised, interrupt, Stage, is_capture, RunResult,
  classify_run_error, keyboard_interrupt,
}
use chat_downloader_fork.Run.Setup.{Progress, going, cut, failed}

-- What the source (or `checkpoint.advance` around it) gives: a message, with whether an interrupt
-- waits until it is counted, and what its callback gives; or what it raises. The list's end is
-- `StopIteration`.
pub data Next : Type 0 where
  item : Fields → Bool → Outcome → Next
  source_failed : Exc → Next
  source_cut : Next

abbrev pub counter_key : Json → String
counter_key (text kind) = kind
counter_key _ = "<missing>"

unfoldable pub count_message : Fields → RunResult → RunResult
count_message message r = record r {
  message_count = r.message_count + 1;
  message_type_counts = increment (counter_key (get "message_type" message)) r.message_type_counts;
}

-- A call that goes on by `rest` if it returns
abbrev pub after_call : Outcome → RunResult → RunResult × Progress → RunResult × Progress
after_call fine r rest = rest
after_call (raised e) r rest = (r, failed e)
after_call interrupt r rest = (r, cut)

unfoldable pub capture_loop : List Next → RunResult → RunResult × Progress
capture_loop [] r = (r, going)
capture_loop (source_failed e ∷ rest) r = (r, failed e)
capture_loop (source_cut ∷ rest) r = (r, cut)
capture_loop (item message interrupted callback ∷ rest) r =
    let counted = count_message message r in
    let next = after_call callback counted (capture_loop rest counted) in
    if interrupted then (counted, cut) else next

abbrev pub or_completed : Option String → String
or_completed none = "completed"
or_completed (some reason) = reason

-- `reason` is the text of the diagnostics' termination reason.
unfoldable pub end_capture : Option String → Stage → RunResult × Progress → RunResult
end_capture reason phase (r, going) = record r {
  success = true;
  termination_reason = or_completed reason;
}
end_capture reason phase (r, failed e) = record r {
  failure_stage = some phase;
  error_message = some (classify_run_error e);
}
end_capture reason phase (r, cut) = record r {
  interrupted = true;
  termination_reason = "interrupted";
  error_message = some keyboard_interrupt;
  failure_stage = some phase;
}

abbrev pub is_going : Progress → Bool
is_going going = true
is_going _ = false

abbrev pub is_cut : Progress → Bool
is_cut cut = true
is_cut _ = false

abbrev pub is_broken_pipe : Kind → Bool
is_broken_pipe broken_pipe = true
is_broken_pipe _ = false

-- `verify_after_error`
abbrev pub verifies_after : Stage → Progress → Bool
verifies_after phase (failed e) = is_broken_pipe e.kind && is_capture phase
verifies_after phase _ = false
