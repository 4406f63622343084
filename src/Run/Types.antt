-- ===== src/Run/Types.antt =====
-- `RunResult`, the exceptions that a run tells apart, and what it reports of them.
use chat_downloader_fork.Base.{
  ℕ, Bool, true, false, Option, none, some, [], String, ◌==◌, string_Eq, if◌then◌else◌,
}
use chat_downloader_fork.Base.Json.{Fields, end}
use chat_downloader_fork.Checkpoint.Events.{Events}

-- `site_change` is `ChatGeneratorError` or `ParsingError`, `chat` any other `ChatDownloaderError`,
-- `connection` and `request` are those of `requests`, and `os` is an `OSError` that is none of them
-- and no `BrokenPipeError`.
pub data Kind : Type 0 where
  site_change testing chat connection request broken_pipe os value other : Kind

pub record Exc : Type 0 where
  pub kind : Kind
  pub text : String

-- `isinstance(e, (OSError, ValueError))`; the exceptions of `requests` are `OSError`s.
abbrev pub is_os_or_value : Kind → Bool
is_os_or_value connection = true
is_os_or_value request = true
is_os_or_value broken_pipe = true
is_os_or_value os = true
is_os_or_value value = true
is_os_or_value _ = false

-- `isinstance(e, ChatDownloaderError)`
abbrev pub is_chat_error : Kind → Bool
is_chat_error site_change = true
is_chat_error chat = true
is_chat_error _ = false

-- The error messages, by the text that they are built around.
pub data Message : Type 0 where
  plain with_site_hint with_connection_hint : String → Message
  keyboard_interrupt inspection_required replay_incomplete : Message
  deadline_failed manifest_failed : String → Message

abbrev pub is_empty : Message → Bool
is_empty (plain text) = text == ""
is_empty _ = false

-- `a or b`
abbrev pub or_message : Option Message → Message → Message
or_message none b = b
or_message (some a) b = if is_empty a then b else a

-- `_classify_run_error`
unfoldable pub classify_run_error : Exc → Message
classify_run_error e = elim e.kind [
  | site_change ↦ with_site_hint e.text
  | testing ↦ with_site_hint e.text
  | connection ↦ with_connection_hint e.text
  | _ ↦ plain e.text
]

-- The phases of a run, and the later stages at which it can fail.
pub data Stage : Type 0 where
  initialization bootstrap capture shutdown verification completion manifest : Stage

abbrev pub is_capture : Stage → Bool
is_capture capture = true
is_capture _ = false

-- `a or b`; a stage is no empty text.
abbrev pub or_stage : Option Stage → Stage → Stage
or_stage none b = b
or_stage (some a) b = a

pub data Parity : Type 0 where
  not_requested not_run failed passed : Parity

-- `provider_inspection` is the report's status. The dictionary of type counts is compared without
-- its order, so that its sorting changes nothing; the elapsed time is left out.
pub record RunResult : Type 0 where
  pub success : Bool
  pub message_count : ℕ
  pub interrupted : Bool
  pub error_message : Option Message
  pub message_type_counts : Events
  pub parity_status : Parity
  pub termination_reason : String
  pub provider_inspection : Option String
  pub prefetched_after_deadline_count : ℕ
  pub deadline_prefetch_count_complete : Bool
  pub provider_diagnostics : Fields
  pub failure_stage : Option Stage

abbrev pub new_result : RunResult
new_result = record {
  success = false;
  message_count = 0;
  interrupted = false;
  error_message = none;
  message_type_counts = [];
  parity_status = not_requested;
  termination_reason = "error";
  provider_inspection = none;
  prefetched_after_deadline_count = 0;
  deadline_prefetch_count_complete = true;
  provider_diagnostics = end;
  failure_stage = none;
}

-- What a call gives: it returns, raises, or is interrupted from the keyboard.
pub data Outcome : Type 0 where
  fine : Outcome
  raised : Exc → Outcome
  interrupt : Outcome
