-- ===== src/Checkpoint/Stream.antt =====
-- A message source: a generator that yields items, and ends or raises. `ordered_initial_preroll`
-- of src/chat_downloader/runtime/capture_replay_order.py.
use chat_downloader_fork.Base.{
  ℕ, Option, none, some, List, [], ◌∷◌, ◌++◌, leb, ltb_ℤ, if◌then◌else◌, ◌==◌, int_Eq, ℤ, pos,
  length,
}
use chat_downloader_fork.Base.Json.{
  Float, finite, not_finite, Json, int, real, Fields, get, to_float,
}
use chat_downloader_fork.Base.Result.{Error, value_error}

pub data Stream : Type 0 where
  done : Stream
  fail : Error → Stream
  item : Fields → Stream → Stream

-- The finite value of a number, in millionths; a `bool` is no number here. `_finite_number` and
-- `_valid_offset` ask whether there is one.
abbrev pub finite_value : Float → Option ℤ
finite_value (finite x) = some x
finite_value not_finite = none

unfoldable pub offset_of : Json → Option ℤ
offset_of (int n) = finite_value (to_float n)
offset_of (real x) = finite_value x
offset_of _ = none

abbrev pub yield_all : List Fields → Stream → Stream
yield_all [] s = s
yield_all (x ∷ xs) s = item x (yield_all xs s)

-- Where an item stands in the opening: `none` for one that ends it.
pub data Opening : Type 0 where
  zero_offset negative ending : Opening

unfoldable pub opening : Fields → Opening
unfolding offset_of
opening x = elim (offset_of (get "time_in_seconds" x)) [
  | none ↦ ending
  | some offset ↦
      if offset == pos 0 then zero_offset else if ltb_ℤ offset (pos 0) then negative else ending
]

-- The loop; `initial_zero` holds the notices that are kept back.
unfoldable pub preroll_from : ℕ → List Fields → Stream → Stream
unfolding opening
preroll_from boundary_limit initial_zero done = yield_all initial_zero done
preroll_from boundary_limit initial_zero (fail e) = fail e
preroll_from boundary_limit initial_zero (item x rest) = elim (opening x) [
  | zero_offset ↦
      if leb boundary_limit (length initial_zero)
      then fail value_error
      else preroll_from boundary_limit (initial_zero ++ x ∷ []) rest
  | negative ↦ item x (preroll_from boundary_limit initial_zero rest)
  | ending ↦ yield_all initial_zero (item x rest)
]

unfoldable pub ordered_initial_preroll : ℕ → Stream → Stream
unfolding preroll_from
ordered_initial_preroll boundary_limit source = preroll_from boundary_limit [] source
