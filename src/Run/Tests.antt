-- ===== src/Run/Tests.antt =====
-- Runs at concrete inputs.
use chat_downloader_fork.Base.{true, false, none, some, List, [], ◌∷◌, ◌≡◌, refl, pos}
use chat_downloader_fork.Base.Json.{end, field, text, null, int}
use chat_downloader_fork.Checkpoint.Events.{increment}
use chat_downloader_fork.Run.Types.{
  with_connection_hint, not_run, capture, RunResult, fine, connection, passed, classify_run_error,
}
use chat_downloader_fork.Run.Policy.{
  ChatView, replay_complete, has_record_loss, is_completed_replay, observe_provider,
}
use chat_downloader_fork.Run.Shutdown.{
  Closing, summary, finalize_run, close_chat, check_writers, close_downloader, observe_shutdown,
}
use chat_downloader_fork.Run.Setup.{
  Config, Calls, run_calls, validate_complete_request, setup_calls, setup,
}
use chat_downloader_fork.Run.Capture.{
  Next, item, source_failed, count_message, capture_loop, end_capture,
}
use chat_downloader_fork.Run.Reports.{
  reported, review, verify_capture_outputs, require_replay, complete_run_record,
}
use chat_downloader_fork.Run.Execute.{
  World, returned, execute_run, after_close, observe, finish, finalize, run_from,
}
use chat_downloader_fork.Run.Execute.Explained.{explained, execute_run-explained}
use chat_downloader_fork.Run.Execute.Counted.{total, execute_run-counted}
use chat_downloader_fork.Run.Execute.Success.{Fulfilled, execute_run-success}
use chat_downloader_fork.Run.Execute.Saved.{Faultless, execute_run-saved}

abbrev config : Config
config = record {
  verify_output = true;
  require_complete = true;
  run_manifest = true;
  resume = true;
  propagate_interrupt = false;
}

abbrev calls : Calls
calls = record {
  manifest_init = fine;
  validate_verification = fine;
  checkpoint_lock = fine;
  checkpoint_init = fine;
  downloader_init = fine;
  get_chat = fine;
  manifest_bind = fine;
  capture_paths = fine;
  checkpoint_bind = fine;
  create_message_callback = fine;
  iter_chat = fine;
}

abbrev replay : ChatView
replay = record {
  status = "completed";
  classify = none;
  diagnostics = field "parse_error" (int (pos 0)) end;
}

abbrev closing : Closing
closing = record {
  chat_close = none;
  write_error_count = 0;
  writer_error_text = "";
  downloader_close = none;
}

abbrev messages : List Next
messages =
    item (field "message_type" (text "text_message") end) false fine
    ∷ item (field "message_type" null end) false fine
    ∷ item (field "message_type" (text "text_message") end) false fine
    ∷ []

abbrev world : World
world = record {
  calls = calls;
  begun = replay;
  source = messages;
  reason = none;
  closing = closing;
  setup_diagnostics = end;
  ended = replay;
  deadline = summary 0 true;
  answers = record {
    inspect_provider_capture = reported (some "ok");
    verify_capture = none;
    checkpoint_save = none;
    manifest_write = none;
  };
  unlock = none;
}

abbrev done : RunResult
done = record {
  success = true;
  message_count = 3;
  interrupted = false;
  error_message = none;
  message_type_counts = ("text_message", 2) ∷ ("<missing>", 1) ∷ [];
  parity_status = passed;
  termination_reason = "completed";
  provider_inspection = some "ok";
  prefetched_after_deadline_count = 0;
  deadline_prefetch_count_complete = true;
  provider_diagnostics = field "parse_error" (int (pos 0)) end;
  failure_stage = none;
}

runs_to_done : (execute_run config world).ending ≡ returned done
unfolding execute_run setup setup_calls run_calls validate_complete_request is_completed_replay
    run_from capture_loop count_message increment finalize end_capture finalize_run close_chat
    check_writers close_downloader after_close finish observe observe_provider observe_shutdown
    verify_capture_outputs review complete_run_record require_replay replay_complete has_record_loss
runs_to_done = refl

execute_run-success_example : Fulfilled config world (execute_run config world) done
execute_run-success_example = execute_run-success config world done runs_to_done refl

abbrev broken : World
broken = record world {
  source =
      item (field "message_type" (text "text_message") end) false fine
      ∷ source_failed (record { kind = connection; text = "reset" })
      ∷ [];
  closing = record closing {
    write_error_count = 1;
    writer_error_text = "1 output writer(s) reported errors during close";
  };
}

abbrev broken_done : RunResult
broken_done = record done {
  success = false;
  message_count = 1;
  error_message = some (with_connection_hint "reset");
  message_type_counts = ("text_message", 1) ∷ [];
  parity_status = not_run;
  termination_reason = "error";
  provider_inspection = none;
  failure_stage = some capture;
}

runs_to_broken : (execute_run config broken).ending ≡ returned broken_done
unfolding execute_run setup setup_calls run_calls validate_complete_request is_completed_replay
    run_from capture_loop count_message increment finalize end_capture classify_run_error
    finalize_run close_chat check_writers close_downloader after_close finish observe
    observe_provider observe_shutdown verify_capture_outputs review complete_run_record
    require_replay replay_complete has_record_loss
runs_to_broken = refl

execute_run-explained_example : explained broken_done ≡ true
execute_run-explained_example = execute_run-explained config broken broken_done runs_to_broken

execute_run-counted_example : total broken_done.message_type_counts ≡ broken_done.message_count
execute_run-counted_example = execute_run-counted config broken broken_done runs_to_broken

saves : (execute_run config world).saved ≡ true
unfolding execute_run setup setup_calls run_calls validate_complete_request is_completed_replay
    run_from capture_loop count_message increment finalize end_capture finalize_run close_chat
    check_writers close_downloader after_close finish observe observe_provider observe_shutdown
    verify_capture_outputs review complete_run_record require_replay replay_complete has_record_loss
saves = refl

execute_run-saved_example : Faultless closing
execute_run-saved_example = execute_run-saved config world saves
