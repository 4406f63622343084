-- ===== src/Kick/Replay/Emit.antt =====
-- The output of a collected replay, oldest first, and the generators around the collection.
use mathlib.Core.List.{reverse}
use chat_downloader_fork.Base.{
  ℕ, ◌+◌, String, Bool, true, false, Option, none, some, List, [], ◌∷◌, ◌++◌, map, ℤ, pos, ltb_ℤ,
  leb, if◌then◌else◌, sub_ℕ, pos_part, neg_part,
}
use chat_downloader_fork.Base.Json.{Json, bool, int, real, text, Fields, get, put, finite}
use chat_downloader_fork.Base.Result.{Error, kick_error}
use chat_downloader_fork.Kick.Replay.State.{Source, Window}
use chat_downloader_fork.Kick.Replay.Collect.{
  Step, more, complete, cancelled, failed, collect, begin_collection,
}

-- What a generator yields, the termination reason in its diagnostics, and the exception that it
-- raised, if any.
pub record Output : Type 0 where
  pub messages : List Fields
  pub reason : String
  pub error : Option Error

-- `isinstance(timestamp, int)`, which a `bool` satisfies too
abbrev pub timestamp_of : Json → Option ℤ
timestamp_of (int n) = some n
timestamp_of (bool true) = some (pos 1)
timestamp_of (bool false) = some (pos 0)
timestamp_of _ = none

abbrev pub is_earlier : Option ℤ → Option ℤ → Bool
is_earlier (some time) (some last) = ltb_ℤ time last
is_earlier _ _ = false

abbrev pub latest : Option ℤ → Option ℤ → Option ℤ
latest none last = last
latest (some time) last = some time

abbrev pub is_spent : Option ℕ → ℕ → Bool
is_spent none emitted = false
is_spent (some max_messages) emitted = leb max_messages emitted

abbrev pub yield_one : Fields → Output → Output
yield_one message o = record o { messages = message ∷ o.messages }

-- The messages of pages that were collected newest first, in chronological order.
unfoldable pub chronological : List (List Fields) → List Fields
chronological [] = []
chronological (page ∷ pages) = chronological pages ++ reverse page

module _ (source : Source) (window : Window) where
  -- The two loops that read the spool back.
  unfoldable pub emit_from : ℕ → Option ℤ → String → List Fields → Output
  emit_from emitted last reason [] = record { messages = []; reason = "completed"; error = none }
  emit_from emitted last reason (message ∷ rest) =
      let time = timestamp_of (get "timestamp" message) in
      let reason' =
        if is_spent window.max_messages (emitted + 1) then "message_limit" else reason in
      let later = emit_from (emitted + 1) (latest time last) reason' rest in
      if source.is_cancelled_output emitted
      then record { messages = []; reason = reason; error = none }
      else if is_spent window.max_messages emitted
      then record { messages = []; reason = "message_limit"; error = none }
      else if is_earlier time last
      then record { messages = []; reason = reason; error = some kick_error }
      else yield_one message later

  -- What follows the collection.
  unfoldable pub emit_collected : String → Step → Output
  unfolding emit_from chronological
  emit_collected reason (complete c) = emit_from 0 none reason (chronological c.pages)
  emit_collected reason (failed c e) = record { messages = []; reason = reason; error = some e }
  emit_collected reason (cancelled c) = record { messages = []; reason = reason; error = none }
  emit_collected reason (more c) = record { messages = []; reason = reason; error = none }

  abbrev pub emit_ended : String → Option Step → Option Output
  emit_ended reason none = none
  emit_ended reason (some s) = some (emit_collected reason s)

  -- `_iter_reverse_vod_messages`, from the cursor after the window; `reason` is the termination
  -- reason so far. `none` means that the fuel ran out.
  unfoldable pub iter_reverse_vod_messages : ℕ → String → String → Option Output
  unfolding emit_collected collect
  iter_reverse_vod_messages fuel cursor_after reason =
      if ltb_ℤ window.start window.stop
      then emit_ended reason
          (collect source window fuel (begin_collection source window cursor_after))
      else some (record { messages = []; reason = "empty_window"; error = none })

  -- The recording-relative time of a message; `clock` is `seconds_to_time`.
  abbrev pub difference : ℤ → ℤ → ℤ
  difference a b = sub_ℕ (pos_part a + neg_part b) (pos_part b + neg_part a)

  abbrev pub put_time : (ℤ → String) → Option ℤ → Fields → Fields
  put_time clock none message = message
  put_time clock (some offset) message =
      put "time_text" (text (clock offset)) (put "time_in_seconds" (real (finite offset)) message)

  abbrev pub offset_from : ℤ → Option ℤ → Option ℤ
  offset_from origin none = none
  offset_from origin (some time) = some (difference time origin)

  unfoldable pub add_time : (ℤ → String) → ℤ → Fields → Fields
  add_time clock origin message =
      put_time clock (offset_from origin (timestamp_of (get "timestamp" message))) message

  abbrev pub reason_of : Option Error → String → String
  reason_of none reason = reason
  reason_of (some e) reason = "error"

  abbrev pub relate : (ℤ → String) → ℤ → Option Output → Option Output
  relate clock origin none = none
  relate clock origin (some o) = some (record o {
    messages = map (add_time clock origin) o.messages;
    reason = reason_of o.error o.reason;
  })

  -- `_iter_vod_messages`
  unfoldable pub iter_vod_messages : (ℤ → String) → ℤ → ℕ → String → Option Output
  unfolding iter_reverse_vod_messages add_time
  iter_vod_messages clock origin fuel cursor_after =
      relate clock origin (iter_reverse_vod_messages fuel cursor_after "interrupted")
