-- ===== src/Kick/Pages.antt =====
-- A page of Kick's chat history: its validation, its records' times and ids, and its order
-- (src/chat_downloader/sites/kick/history.py).
use chat_downloader_fork.Base.{String, Option, none, some, List, [], ◌∷◌, ℤ, ltb_ℤ, if◌then◌else◌}
use chat_downloader_fork.Base.Json.{
  Json, null, bool, int, real, text, arr, obj, Items, nil, cons, Fields, get, get_dict,
}
use chat_downloader_fork.Base.Result.{Result, ok, raise, kick_server_error}

abbrev pub items_of : Items → List Json
items_of nil = []
items_of (cons v rest) = v ∷ items_of rest

-- The records of a page, and the cursor of the next one.
abbrev pub Page : Type 0
Page = List Json × Option String

unfoldable pub page_cursor : Json → List Json → Result Page
page_cursor null records = ok (records, none)
page_cursor (text cursor) records = ok (records, some cursor)
page_cursor _ records = raise kick_server_error

-- `fetch_validated_page`, on the page that the client returned
unfoldable pub validate_page : Fields → Result Page
unfolding page_cursor
validate_page page =
    let data_section = get_dict page "data" in
    elim (get "messages" data_section) [
      | arr records ↦ page_cursor (get "cursor" data_section) (items_of records)
      | _ ↦ raise kick_server_error
    ]

-- A record with its time, in microseconds.
abbrev pub Stamped : Type 0
Stamped = ℤ × Fields

-- The place of a record in the order of times: after those with the same time.
abbrev pub insert_stamped : Stamped → List Stamped → List Stamped
insert_stamped x [] = x ∷ []
insert_stamped x (y ∷ rest) = if ltb_ℤ x.0 y.0 then x ∷ y ∷ rest else y ∷ insert_stamped x rest

-- A stable sort by time.
abbrev pub sort_from : List Stamped → List Stamped → List Stamped
sort_from sorted [] = sorted
sort_from sorted (x ∷ rest) = sort_from (insert_stamped x sorted) rest

-- `iso` parses a time (`datetime.fromisoformat`, UTC if it names no zone) and `str_of` is `str`.
module _ (iso : String → Option ℤ) (str_of : Json → String) where
  -- `_message_timestamp`
  unfoldable pub message_timestamp : Fields → Option ℤ
  message_timestamp raw = elim (get "created_at" raw) [
    | text created_at ↦ iso created_at
    | _ ↦ none
  ]

  -- `_message_identity`
  unfoldable pub message_identity : Fields → Option String
  message_identity raw = elim (get "id" raw) [
    | null ↦ none
    | bool b ↦ some (str_of (bool b))
    | int n ↦ some (str_of (int n))
    | real x ↦ some (str_of (real x))
    | text s ↦ some (str_of (text s))
    | arr xs ↦ some (str_of (arr xs))
    | obj fields ↦ some (str_of (obj fields))
  ]

  -- The records with a time.
  abbrev pub stamp : Option ℤ → Fields → List Stamped → List Stamped
  stamp none raw rest = rest
  stamp (some time) raw rest = (time, raw) ∷ rest

  unfoldable pub timestamped : List Json → List Stamped
  unfolding message_timestamp
  timestamped [] = []
  timestamped (obj raw ∷ rest) = stamp (message_timestamp raw) raw (timestamped rest)
  timestamped (_ ∷ rest) = timestamped rest

  -- `_ordered_page_messages`
  unfoldable pub ordered_page_messages : List Json → List Stamped
  unfolding timestamped
  ordered_page_messages raw_messages = sort_from [] (timestamped raw_messages)
