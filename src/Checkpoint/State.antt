-- ===== src/Checkpoint/State.antt =====
-- `CaptureCheckpoint`: its state, `observe`, `reset_positions`, and what `bind` starts.
use chat_downloader_fork.Base.{
  ℕ, suc, zero, String, Bool, true, false, not, ◌||◌, Option, none, some, List, [], ◌∷◌, ◌++◌,
  if◌then◌else◌, ◌==◌, string_Eq, int_Eq, ℤ,
}
use chat_downloader_fork.Base.Json.{Json, Fields, get}
use chat_downloader_fork.Base.Result.{Result, ok, raise, value_error}
use chat_downloader_fork.Checkpoint.Events.{Events, increment}
use chat_downloader_fork.Checkpoint.Stream.{Stream, ordered_initial_preroll}

abbrev pub boundary_limit : ℕ
boundary_limit = 10000

-- Offsets are in millionths of a second. The paths, the request's fingerprint and the signatures
-- are left out.
pub record Checkpoint : Type 0 where
  pub offset : Option ℤ
  pub events : Events
  pub total : ℕ
  pub resets : List ℕ
  pub chat_id : Option String
  pub completed : Bool
  pub record_loss : Bool
  pub limit : Option ℕ
  pub prior_offset : Option ℤ
  pub prior_events : Events

abbrev pub same_offset : Option ℤ → Option ℤ → Bool
same_offset none none = true
same_offset (some a) (some b) = a == b
same_offset _ _ = false

-- `_event_identity`; the SHA-256 digest of the three values is a parameter.
abbrev pub event_identity : (Json → Json → Json → String) → Fields → String
event_identity digest item =
    digest (get "message_id" item) (get "message_type" item) (get "action_type" item)

-- `observe`, for an item whose offset and identity are these
unfoldable pub observe_event : ℤ → String → Checkpoint → Checkpoint
observe_event offset identity c =
    if same_offset (some offset) c.offset
    then record c { events = increment identity c.events }
    else record c { offset = some offset; events = increment identity [] }

-- `reset_positions`: `count and self.total`
unfoldable pub reset_positions : Checkpoint → ℕ → List ℕ
reset_positions c zero = c.resets
reset_positions c (suc count) = elim c.total [
  | zero ↦ c.resets
  | suc total ↦ c.resets ++ (suc (suc total)) ∷ []
]

-- The chat that `bind` is given: whether its site calls it a completed replay, its id, its
-- source, and the termination reason among its diagnostics.
pub record Replay : Type 0 where
  pub is_completed : Bool
  pub id : Option String
  pub source : Option Stream
  pub termination_reason : Option String

-- The locals of `remaining`, and the diagnostics that it writes. `pending` tells that an item has
-- been yielded and the code after the `yield` has not run yet.
pub record Run : Type 0 where
  pub checkpoint : Checkpoint
  pub pending : Bool
  pub emitted : ℕ
  pub last_offset : Option ℤ
  pub overlap : Events
  pub source : Stream
  pub suppressed : ℕ
  pub termination_reason : Option String

abbrev pub is_other : Option String → String → Bool
is_other none id = false
is_other (some known) id = not (id == known)

abbrev pub start : Checkpoint → Stream → Option String → Run
start c source reason = record {
  checkpoint = c;
  pending = false;
  emitted = 0;
  last_offset = c.prior_offset;
  overlap = c.prior_events;
  source = ordered_initial_preroll boundary_limit source;
  suppressed = 0;
  termination_reason = reason;
}

-- The guards of `bind` on the replay's kind and identity.
unfoldable pub bind : Checkpoint → Replay → Result Run
bind c chat = elim chat.id [
  | none ↦ raise value_error
  | some id ↦ if not chat.is_completed || id == "" then raise value_error else elim chat.source [
    | none ↦ raise value_error
    | some source ↦
        if is_other c.chat_id id
        then raise value_error
        else ok (start (record c { chat_id = some id }) source chat.termination_reason)
  ]
]

-- The end of `__init__` for a checkpoint that was read back: it has this request's message limit, has
-- completed nothing yet, and what it knows is the overlap to suppress.
unfoldable pub reopen : Option ℕ → Checkpoint → Checkpoint
reopen limit saved = record saved {
  limit = limit;
  completed = false;
  prior_offset = saved.offset;
  prior_events = saved.events;
}
