-- ===== src/Kick/DeletedCache.antt =====
-- `_DeletedMessageCache` of src/chat_downloader/sites/kick/deleted_message_cache.py. The ordered
-- dictionary is a list, oldest first. `size_of` is Python's `sys.getsizeof` on a string.
pub mod Bounds
pub mod Recall
mod Tests
use chat_downloader_fork.Base.{
  ℕ, zero, suc, ◌+◌, ◌-◌, ◌≡◌, String, Bool, true, false, Option, none, some, List, [], ◌∷◌, ◌++◌,
  ltb, leb, if◌then◌else◌, ◌==◌, ◌||◌, string_Eq, length,
}
use chat_downloader_fork.Base.Json.{
  Json, null, bool, int, real, text, arr, obj, Fields, get, put, get_str, get_dict,
}

pub record Entry : Type 0 where
  pub message_id : String
  pub text : String
  pub author : String
  pub size : ℕ

-- A limit below 0 acts as the limit 0.
pub record Cache : Type 0 where
  pub limit : ℕ
  pub max_bytes : ℕ
  pub bytes : ℕ
  pub messages : List Entry

abbrev pub default_limit : ℕ
default_limit = 10000

abbrev pub default_byte_limit : ℕ
default_byte_limit = 16777216

unfoldable pub init : ℕ → ℕ → Cache
init limit max_bytes = record { limit = limit; max_bytes = max_bytes; bytes = 0; messages = [] }

unfoldable pub find : String → List Entry → Option Entry
find id [] = none
find id (e ∷ rest) = if e.message_id == id then some e else find id rest

-- The `while` loop of `_remember`.
unfoldable pub evict : ℕ → ℕ → ℕ → List Entry → ℕ → List Entry × ℕ
evict limit max_bytes size [] bytes = ([], bytes)
evict limit max_bytes size (oldest ∷ rest) bytes =
    if leb limit (length (oldest ∷ rest)) || ltb max_bytes (bytes + size)
    then evict limit max_bytes size rest (bytes - oldest.size)
    else (oldest ∷ rest, bytes)

-- `display_name or name`
abbrev pub author_name : Fields → String
author_name info =
    if get_str info "display_name" "" == ""
    then get_str info "name" ""
    else get_str info "display_name" ""

unfoldable pub insert : Cache → Entry → Cache
unfolding evict
insert c e =
    let (kept, bytes) = evict c.limit c.max_bytes e.size c.messages c.bytes in
    record c { messages = kept ++ e ∷ []; bytes = bytes + e.size }

abbrev pub is_cached : Option Entry → Bool
is_cached none = false
is_cached (some e) = true

-- The guards of `_remember`, and the insertion.
unfoldable pub admit : Cache → Entry → Cache
unfolding insert find
admit c e =
    if e.message_id == "" || e.text == "" || is_cached (find e.message_id c.messages)
    then c
    else if ltb c.max_bytes e.size || leb c.limit 0
    then c
    else insert c e

module _ (size_of : String → ℕ) where
  abbrev pub entry_of : Fields → Entry
  entry_of message =
      let id = get_str message "message_id" "" in
      let body = get_str message "message" "" in
      let author = author_name (get_dict message "author") in
      record {
        message_id = id;
        text = body;
        author = author;
        size = size_of id + size_of body + size_of author;
      }

  unfoldable pub remember : Cache → Fields → Cache
  unfolding admit
  remember c message = admit c (entry_of message)

-- The cached text and, if there is one, the author are written into the event's metadata.
unfoldable pub annotate : Option Entry → Fields → Fields
annotate none metadata = metadata
annotate (some e) metadata =
    let with_text = put "deleted_message_text" (text e.text) metadata in
    if e.author == "" then with_text else put "deleted_message_author" (text e.author) with_text

-- `metadata` is the event's own dictionary only if it has one; a default `{}` is dropped.
abbrev pub annotate_event : Cache → Json → Fields → Fields
annotate_event c (obj metadata) message =
    put "metadata"
      (obj (annotate (find (get_str metadata "deleted_message_id" "") c.messages) metadata)) message
annotate_event c _ message = message

module _ (size_of : String → ℕ) where
  unfoldable pub observe : Cache → Fields → Cache × Fields
  unfolding remember annotate find
  observe c message = elim (get "message_type" message) [
    | text kind ↦
        if kind == "text_message"
        then (remember size_of c message, message)
        else if kind == "message_deleted"
        then (c, annotate_event c (get "metadata" message) message)
        else (c, message)
    | _ ↦ (c, message)
  ]
