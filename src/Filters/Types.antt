-- ===== src/Filters/Types.antt =====
-- `MessageFilter`: which message types are wanted.
use chat_downloader_fork.Base.{
  ◌≡◌, refl, ap, ◌∙◌, String, Bool, true, false, ◌||◌, Option, none, some, List, [], ◌∷◌, ◌++◌,
  if◌then◌else◌, ◌==◌, string_Eq, contains, arith, contains-append,
}
use chat_downloader_fork.Base.Json.{text, arr, obj, Fields, get}
use chat_downloader_fork.Base.Result.{Result, ok, raise, type_error, invalid_parameter}

-- `message_groups_dict`, a dictionary of lists
abbrev pub Groups : Type 0
Groups = List (String × List String)

-- `_valid_types`: `none` accepts every type.
abbrev pub Filter : Type 0
Filter = Option (List String)

unfoldable pub known_types : Groups → List String
known_types [] = []
known_types ((_, kinds) ∷ groups) = kinds ++ known_types groups

abbrev pub all_in : List String → List String → Bool
all_in [] known = true
all_in (x ∷ xs) known = if contains x known then all_in xs known else false

abbrev pub names : Groups → List String
names [] = []
names ((name, _) ∷ groups) = name ∷ names groups

-- `message_groups_dict.get(group_name, [])`
abbrev pub kinds_of : Groups → String → List String
kinds_of [] name = []
kinds_of ((key, kinds) ∷ groups) name = if key == name then kinds else kinds_of groups name

-- The loop that updates `types`.
unfoldable pub collect : Groups → List String → List String
collect groups [] = []
collect groups (name ∷ rest) = kinds_of groups name ++ collect groups rest

unfoldable pub filter_groups : Groups → List String → Result Filter
unfolding collect
filter_groups groups [] = ok none
filter_groups groups (name ∷ rest) =
    if contains "all" (name ∷ rest)
    then ok none
    else if all_in (name ∷ rest) (names groups)
    then ok (some (collect groups (name ∷ rest)))
    else raise invalid_parameter

-- `__init__`. A missing list acts as an empty one, for groups and for types.
unfoldable pub init : Groups → List String → List String → Result Filter
unfolding known_types filter_groups
init groups groups_to_add [] = filter_groups groups groups_to_add
init groups groups_to_add (kind ∷ types) =
    if contains "all" (kind ∷ types)
    then ok none
    else if all_in (kind ∷ types) (known_types groups)
    then ok (some (kind ∷ types))
    else raise invalid_parameter

-- The test hashes the type.
unfoldable pub should_add : Filter → Fields → Result Bool
should_add none item = ok true
should_add (some valid) item = elim (get "message_type" item) [
  | text kind ↦ ok (contains kind valid)
  | arr _ ↦ raise type_error
  | obj _ ↦ raise type_error
  | _ ↦ ok false
]

-- What a request asks for: its types if it names any, or else the types of its groups; `all` and
-- an empty request ask for every type.
abbrev pub in_groups : Groups → List String → String → Bool
in_groups groups [] kind = false
in_groups groups (name ∷ rest) kind =
    contains kind (kinds_of groups name) || in_groups groups rest kind

unfoldable pub wanted : Groups → List String → List String → String → Bool
wanted groups [] [] kind = true
wanted groups (name ∷ rest) [] kind =
    contains "all" (name ∷ rest) || in_groups groups (name ∷ rest) kind
wanted groups asked (first ∷ types) kind =
    contains "all" (first ∷ types) || contains kind (first ∷ types)

contains-collect :
    (groups : Groups) (asked : List String) (kind : String)
    → contains kind (collect groups asked) ≡ in_groups groups asked kind
unfolding collect
contains-collect groups [] kind = refl
contains-collect groups (name ∷ rest) kind =
    contains-append kind (kinds_of groups name) (collect groups rest)
    ∙ ap (λ b. contains kind (kinds_of groups name) || b) (contains-collect groups rest kind)

-- If a message filter is made, then an item with a text type passes exactly if the request asks
-- for its type, by its types, or by its groups where it names no types; `all` and an empty
-- request ask for every type.
pub should_add-wanted :
    (groups : Groups) (asked types : List String) (f : Filter) (item : Fields) (kind : String)
    → init groups asked types ≡ ok f
    → get "message_type" item ≡ text kind
    → should_add f item ≡ ok (wanted groups asked types kind)
unfolding init filter_groups should_add wanted
should_add-wanted groups [] [] f item kind made is = ground arith
should_add-wanted groups (name ∷ rest) [] f item kind made is =
    ground (arith, contains-collect groups (name ∷ rest) kind)
should_add-wanted groups asked (first ∷ types) f item kind made is = ground arith
