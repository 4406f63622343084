-- ===== src/Checkpoint/Remaining.antt =====
-- The generator `remaining` of `CaptureCheckpoint.bind`, one `next` at a time, and `advance`.
use chat_downloader_fork.Base.{
  ℕ, suc, zero, ◌+◌, String, Bool, true, false, not, ◌&&◌, Option, none, some, List, [], ◌∷◌,
  if◌then◌else◌, ◌==◌, string_Eq, int_Eq, ℤ, ltb, leb, ltb_ℤ, length,
}
use chat_downloader_fork.Base.Json.{Json, text, Fields, get, has}
use chat_downloader_fork.Base.Result.{Error, Result, ok, raise, value_error}
use chat_downloader_fork.Checkpoint.Events.{Events, count, is_in, decrement}
use chat_downloader_fork.Checkpoint.Stream.{Stream, done, fail, item, offset_of}
use chat_downloader_fork.Checkpoint.State.{
  Checkpoint, Run, same_offset, boundary_limit, event_identity, observe_event,
}

abbrev pub is_text : Json → String → Bool
is_text (text s) expected = s == expected
is_text _ expected = false

-- A provider's end marker, which is no record of the chat.
unfoldable pub is_end_marker : Fields → Bool
is_end_marker x =
    is_text (get "message_type" x) "chat_ended"
    && is_text (get "action_type" x) "chat_ended"
    && not (has "message_id" x)
    && not (has "time_in_seconds" x)

abbrev pub named_text : Json → Bool
named_text (text s) = not (s == "")
named_text _ = false

-- The offset of an item that can be resumed at: it has a finite offset and a message id.
unfoldable pub resumable_offset : Fields → Option ℤ
resumable_offset x =
    if named_text (get "message_id" x) then offset_of (get "time_in_seconds" x) else none

abbrev pub below : ℤ → Option ℤ → Bool
below offset none = false
below offset (some bound) = ltb_ℤ offset bound

-- What the loop body does with an item: pass over it, raise, or yield it. `overlap` tells whether
-- the item stands at the committed offset itself, where it is counted off.
pub data Judgement : Type 0 where
  skip_marker malformed backwards crowded fresh : Judgement
  overlapping : Bool → Judgement

-- The tests on an item with a valid offset.
unfoldable pub judge_event : Checkpoint → Option ℤ → Events → ℤ → String → Judgement
judge_event c last_offset overlap offset identity =
    if below offset c.prior_offset
    then overlapping false
    else if same_offset (some offset) c.prior_offset && ltb 0 (count identity overlap)
    then overlapping true
    else if below offset last_offset
    then backwards
    else if same_offset (some offset) c.offset
        && not (is_in identity c.events)
        && leb boundary_limit (length c.events)
    then crowded
    else fresh

-- What the loop finds next: the end, an error, or an item to yield. The overlap that is left, the
-- number of suppressed items so far, and the rest of the source come with it.
pub data Found : Type 0 where
  exhausted : Events → ℕ → Found
  raised : Error → Events → ℕ → Found
  yielded : Fields → Events → ℕ → Stream → Found

-- What a `next` gives.
pub data Next : Type 0 where
  stop : Next
  error : Error → Next
  message : Fields → Next

-- `diagnostics.get("termination_reason", "completed") == "completed"`
abbrev pub ran_out : Option String → Bool
ran_out none = true
ran_out (some reason) = reason == "completed"

abbrev pub found_run : Run → Found → Run × Next
found_run r (exhausted overlap suppressed) = (
  record r {
    checkpoint = record r.checkpoint { completed = ran_out r.termination_reason };
    pending = false;
    overlap = overlap;
    suppressed = suppressed;
    source = done;
  },
  stop,
)
found_run r (raised e overlap suppressed) = (
  record r { pending = false; overlap = overlap; suppressed = suppressed; source = done },
  error e,
)
found_run r (yielded x overlap suppressed rest) = (
  record r {
    pending = true;
    last_offset = resumable_offset x;
    overlap = overlap;
    suppressed = suppressed;
    source = rest;
  },
  message x,
)

abbrev pub reached : Option ℕ → ℕ → Bool
reached none emitted = false
reached (some limit) emitted = leb limit emitted

module _ (digest : Json → Json → Json → String) where
  unfoldable pub judge : Checkpoint → Option ℤ → Events → Fields → Judgement
  unfolding is_end_marker resumable_offset judge_event
  judge c last_offset overlap x =
      if is_end_marker x then skip_marker else elim (resumable_offset x) [
        | none ↦ malformed
        | some offset ↦ judge_event c last_offset overlap offset (event_identity digest x)
      ]

  unfoldable pub scan : Checkpoint → Option ℤ → Events → ℕ → Stream → Found
  unfolding judge
  scan c last_offset overlap suppressed done = exhausted overlap suppressed
  scan c last_offset overlap suppressed (fail e) = raised e overlap suppressed
  scan c last_offset overlap suppressed (item x rest) = elim (judge c last_offset overlap x) [
    | skip_marker ↦ scan c last_offset overlap suppressed rest
    | malformed ↦ raised value_error overlap suppressed
    | backwards ↦ raised value_error overlap suppressed
    | crowded ↦ raised value_error overlap suppressed
    | overlapping false ↦ scan c last_offset overlap (suppressed + 1) rest
    | overlapping true ↦
        scan c last_offset (decrement (event_identity digest x) overlap) (suppressed + 1) rest
    | fresh ↦ yielded x overlap suppressed rest
  ]

  unfoldable pub search : Run → Run × Next
  unfolding scan
  search r = found_run r (scan r.checkpoint r.last_offset r.overlap r.suppressed r.source)

  -- The code after a `yield`: the item is counted, and the limit is tested.
  unfoldable pub resume : Run → Run × Next
  unfolding search
  resume r =
      if reached r.checkpoint.limit (r.emitted + 1)
      then (
        record r {
          pending = false;
          emitted = r.emitted + 1;
          source = done;
          termination_reason = some "message_limit";
        },
        stop,
      )
      else search (record r { emitted = r.emitted + 1 })

  -- `next(remaining)`
  unfoldable pub next : Run → Run × Next
  unfolding resume
  next r = if r.pending then resume r else search r

  -- `observe`. An item without an offset never comes here.
  unfoldable pub observe : Fields → Checkpoint → Checkpoint
  unfolding observe_event resumable_offset
  observe x c = elim (resumable_offset x) [
    | none ↦ c
    | some offset ↦ observe_event offset (event_identity digest x) c
  ]

  -- `advance`, where `emit` tells whether the attached writers accept the item. If they do not, the
  -- checkpoint and the count are as before, and the chat has closed its source.
  unfoldable pub advance : (Fields → Result (Unit {0})) → Run × ℕ → (Run × ℕ) × Next
  unfolding next observe
  advance emit (r, message_count) =
      let (r', outcome) = next r in
      elim outcome [
        | stop ↦ ((r', message_count), stop)
        | error e ↦ ((r', message_count), error e)
        | message x ↦ elim (emit x) [
          | raise e ↦ ((record r' { pending = false; source = done }, message_count), error e)
          | ok _ ↦
              ((record r' { checkpoint = observe x r'.checkpoint }, message_count + 1), message x)
        ]
      ]

  -- The capture loop: `advance` until it stops or raises. `fuel` bounds the number of calls, and
  -- `none` means that it ran out.
  unfoldable pub capture :
      (Fields → Result (Unit {0})) → ℕ → Run × ℕ → Option (List Fields × (Run × ℕ) × Next)
  unfolding advance
  capture emit zero state = none
  capture emit (suc fuel) state =
      let (state', outcome) = advance emit state in
      elim outcome [
        | stop ↦ some ([], state', stop)
        | error e ↦ some ([], state', error e)
        | message x ↦ elim (capture emit fuel state') [
          | none ↦ none
          | some (xs, last, ended) ↦ some (x ∷ xs, last, ended)
        ]
      ]
