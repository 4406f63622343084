-- ===== src/Dedup/Formatted.antt =====
-- `_FormattedMessageDeduplicator` and `_ConsoleStateDeduplicator` of
-- src/chat_downloader/sites/_message_dedup.py.
use chat_downloader_fork.Base.{
  suc, ltb_ℤ, String, Bool, true, false, not, Option, none, some, List, [], ◌∷◌, ◌++◌,
  if◌then◌else◌, ◌==◌, ◌||◌, string_Eq, length, contains, ℤ, pos,
}
use chat_downloader_fork.Base.Json.{Json, text, arr, obj, Fields, get}
use chat_downloader_fork.Base.Result.{Result, ok, raise, type_error}
use chat_downloader_fork.Dedup.SeenCache
use chat_downloader_fork.Dedup.SeenCache.{SeenCache, register}

abbrev pub superchat_dedup_types : List String
superchat_dedup_types =
    "paid_message" ∷ "ticker_paid_message_item" ∷ "paid_sticker" ∷ "ticker_paid_sticker_item"
    ∷ "membership_item" ∷ "ticker_sponsor_item" ∷ []

-- `__init__`: no limit is the limit 0, which the cache replaces by its default.
unfoldable pub init : Option ℤ → SeenCache
unfolding SeenCache.init_int
init none = SeenCache.init_int (pos 0)
init (some limit) = SeenCache.init_int limit

-- `message_type not in SUPERCHAT_DEDUP_TYPES` hashes the value first.
unfoldable pub is_superchat : Json → Result Bool
is_superchat (text kind) = ok (contains kind superchat_dedup_types)
is_superchat (arr _) = raise type_error
is_superchat (obj _) = raise type_error
is_superchat _ = ok false

-- The id under which an item is deduplicated; `none` for an item that is always emitted.
unfoldable pub dedup_id : Fields → Result (Option String)
unfolding is_superchat
dedup_id item = elim (is_superchat (get "message_type" item)) [
  | raise e ↦ raise e
  | ok false ↦ ok none
  | ok true ↦ elim (get "message_id" item) [
    | text id ↦ if id == "" then ok none else ok (some id)
    | _ ↦ ok none
  ]
]

unfoldable pub should_emit : SeenCache → Fields → Result (SeenCache × Bool)
unfolding dedup_id register
should_emit cache item = elim (dedup_id item) [
  | raise e ↦ raise e
  | ok none ↦ ok (cache, true)
  | ok (some id) ↦ let (cache', is_new, _) = register cache id in ok (cache', is_new)
]

-- `_ConsoleState` with the two digests that the code computes of `key` and of `payload`;
-- `identity` is `none` where one of them cannot be serialised.
pub record ConsoleState : Type 0 where
  pub digests : Option (String × String)
  pub always_display : Bool

pub record ConsoleDedup : Type 0 where
  pub max_states : ℤ
  pub states : List (String × String)

-- `states.pop(identity, None)`
unfoldable pub pop_state : String → List (String × String) → Option String × List (String × String)
pop_state identity [] = (none, [])
pop_state identity ((k, v) ∷ rest) =
    let (found, left) = pop_state identity rest in
    if k == identity then (some v, rest) else (found, (k, v) ∷ left)

-- `popitem(last=False)`
abbrev pub drop_oldest : List (String × String) → List (String × String)
drop_oldest [] = []
drop_oldest (oldest ∷ rest) = rest

-- `len(states) > max_states` drops the oldest.
unfoldable pub trim_states : ℤ → List (String × String) → List (String × String)
trim_states limit states = if ltb_ℤ limit (pos (length states)) then drop_oldest states else states

abbrev pub changed : Option String → String → Bool
changed none fingerprint = true
changed (some previous) fingerprint = not (previous == fingerprint)

unfoldable pub console_should_emit : ConsoleDedup → Option ConsoleState → ConsoleDedup × Bool
unfolding pop_state trim_states
console_should_emit d none = (d, true)
console_should_emit d (some state) = elim d.max_states [
  | pos (suc n) ↦ elim state.digests [
    | none ↦ (record d { states = [] }, true)
    | some (identity, fingerprint) ↦
        let (previous, left) = pop_state identity d.states in
        (
          record d { states = trim_states d.max_states (left ++ (identity, fingerprint) ∷ []) },
          state.always_display || changed previous fingerprint,
        )
  ]
  | _ ↦ (d, true)
]
