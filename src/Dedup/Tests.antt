-- ===== src/Dedup/Tests.antt =====
-- The deduplicators at concrete inputs.
use chat_downloader_fork.Base.{
  ◌≡◌, refl, ◌↔◌, String, false, some, List, [], ◌∷◌, ◌++◌, pos, Distinct, arith, string_Eq,
}
use chat_downloader_fork.Base.Json.{Fields, end, field, get, hashable, text}
use chat_downloader_fork.Base.Result.{ok, raise, type_error}
use chat_downloader_fork.Dedup.SeenCache.{SeenCache, number, init}
use chat_downloader_fork.Dedup.Window.{
  Tracks, Registered, accept_all, register_all, register-Registered, register_all-Tracks, Created,
  init-Created,
}
use chat_downloader_fork.Dedup.Formatted.{
  ConsoleState, ConsoleDedup, dedup_id, should_emit, console_should_emit,
}
use chat_downloader_fork.Dedup.Superchats.{
  Decided, emitted_ids, should_emit-Decided, should_emit-raises_iff, emitted_ids-Distinct,
}
use chat_downloader_fork.Dedup.Console.{IsValid, console-IsValid, console_repeated}

abbrev two : SeenCache
two = record { limit = 2; message_ids = "b" ∷ "c" ∷ []; evictions = 1 }

abbrev abc : List String
abc = "a" ∷ "b" ∷ "c" ∷ []

two-Tracks : Tracks two abc
two-Tracks = record { positive = omega arith; window = refl; evicted = refl }

register-Registered_example : Registered two abc "d"
register-Registered_example = register-Registered two abc "d" two-Tracks

register_all-Tracks_example :
    Tracks (register_all two ("b" ∷ "d" ∷ "e" ∷ [])) (accept_all 2 abc ("b" ∷ "d" ∷ "e" ∷ []))
register_all-Tracks_example = register_all-Tracks two abc ("b" ∷ "d" ∷ "e" ∷ []) two-Tracks

init-Created_example : Created (number (pos 3)) (init (number (pos 3)))
init-Created_example = init-Created (number (pos 3))

abbrev paid : Fields
paid = field "message_type" (text "paid_message") (field "message_id" (text "d") end)

is_d : dedup_id paid ≡ ok (some "d")
unfolding dedup_id
is_d = refl

should_emit-Decided_example : Decided two abc paid (some "d")
should_emit-Decided_example = should_emit-Decided two abc paid two-Tracks refl

should_emit-raises_iff_example :
    (should_emit two paid ≡ raise type_error) ↔ (hashable (get "message_type" paid) ≡ false)
should_emit-raises_iff_example = should_emit-raises_iff two paid

abbrev one : SeenCache
one = record { limit = 3; message_ids = "a" ∷ []; evictions = 0 }

one-Tracks : Tracks one ("a" ∷ [])
one-Tracks = record { positive = omega arith; window = refl; evicted = refl }

abbrev twice : List (Fields × String)
twice = (paid, "d") ∷ (paid, "d") ∷ []

emitted_ids-Distinct_example : Distinct (("a" ∷ []) ++ emitted_ids one twice)
emitted_ids-Distinct_example =
    emitted_ids-Distinct one ("a" ∷ []) twice one-Tracks (refl, tt) (omega arith) (is_d, (is_d, tt))

abbrev console : ConsoleDedup
console = record { max_states = pos 2; states = ("k", "f") ∷ ("l", "g") ∷ [] }

two_states-IsValid : IsValid 1 console
two_states-IsValid = record { limit_is = refl; few = omega arith; distinct = (refl, (refl, tt)) }

abbrev state : ConsoleState
state = record { digests = some ("m", "h"); always_display = false }

console-IsValid_example : IsValid 1 (console_should_emit console (some state)).0
console-IsValid_example = console-IsValid 1 console two_states-IsValid (some state)

console_repeated_example :
    (console_should_emit (console_should_emit console (some state)).0 (some state)).1 ≡ false
console_repeated_example = console_repeated 1 console two_states-IsValid state "m" "h" refl
