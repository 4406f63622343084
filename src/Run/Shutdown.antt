-- ===== src/Run/Shutdown.antt =====
-- `_finalize_run` and `observe_shutdown`.
use chat_downloader_fork.Base.{
  ℕ, zero, suc, Bool, false, not, ◌&&◌, Option, none, some, String, if◌then◌else◌, string_Eq,
}
use chat_downloader_fork.Run.Types.{
  Exc, chat, is_os_or_value, deadline_failed, or_message, RunResult, shutdown,
}

-- What closing gives: the chat's exception, its count of writer errors with the text that
-- tells of them, and the downloader's exception. `none` for a chat or a downloader that is not there.
pub record Closing : Type 0 where
  pub chat_close : Option Exc
  pub write_error_count : ℕ
  pub writer_error_text : String
  pub downloader_close : Option Exc

-- `a or b`; an exception is true.
abbrev pub or_exc : Option Exc → Exc → Exc
or_exc none b = b
or_exc (some a) b = a

-- The two variables of `_finalize_run`.
pub record Closed : Type 0 where
  pub close_error : Option Exc
  pub suppressed : Option Exc

unfoldable pub close_chat : Bool → Option Exc → Closed
close_chat primary_error none = record { close_error = none; suppressed = none }
close_chat primary_error (some e) = record {
  close_error = if not primary_error && not (is_os_or_value e.kind) then some e else none;
  suppressed = some e;
}

abbrev pub writers_failed : String → Exc
writers_failed message = record { kind = chat; text = message }

unfoldable pub check_writers : Bool → ℕ → String → Closed → Closed
check_writers primary_error zero text c = c
check_writers primary_error (suc n) text c = record {
  close_error =
      if primary_error then c.close_error else some (or_exc c.close_error (writers_failed text));
  suppressed = some (or_exc c.suppressed (writers_failed text));
}

unfoldable pub close_downloader : Bool → Option Exc → Closed → Closed
close_downloader primary_error none c = c
close_downloader primary_error (some e) c =
    if primary_error
    then record c { suppressed = some (or_exc c.suppressed e) }
    else record c { close_error = some (or_exc c.close_error e) }

-- `_finalize_run` raises `close_error` if there is one, and else returns `suppressed`.
unfoldable pub finalize_run : Closing → Bool → Closed
unfolding close_chat check_writers close_downloader
finalize_run closing primary_error = close_downloader primary_error closing.downloader_close (
    check_writers primary_error closing.write_error_count closing.writer_error_text
      (close_chat primary_error closing.chat_close))

-- What `deadline_prefetch_summary` gives.
pub data Deadline : Type 0 where
  summary : ℕ → Bool → Deadline
  unavailable : Exc → Deadline

unfoldable pub observe_shutdown : RunResult → Deadline → RunResult
observe_shutdown result (summary count complete) = record result {
  prefetched_after_deadline_count = count;
  deadline_prefetch_count_complete = complete;
}
observe_shutdown result (unavailable e) = record result {
  prefetched_after_deadline_count = 0;
  deadline_prefetch_count_complete = false;
  success = false;
  termination_reason = "error";
  failure_stage = some shutdown;
  error_message = some (or_message result.error_message (deadline_failed e.text));
}
