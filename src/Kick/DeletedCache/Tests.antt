-- ===== src/Kick/DeletedCache/Tests.antt =====
-- The cache of deleted messages at concrete inputs.
use chat_downloader_fork.Base.{ℕ, ◌≡◌, refl, String, [], ◌∷◌, ◌++◌, drop, ==_iff, string_Eq}
use chat_downloader_fork.Base.Json.{Fields, end, field, get, get_dict, text, obj}
use chat_downloader_fork.Kick.DeletedCache.{Entry, Cache, find, admit, entry_of, observe}
use chat_downloader_fork.Kick.DeletedCache.Bounds.{IsValid, Evicted, observe-IsValid}
use chat_downloader_fork.Kick.DeletedCache.Recall.{Fits, admit-newest, observe_recalls}
use native.Mathlib.Omega.{arith}

abbrev hello : Entry
hello = record { message_id = "1"; text = "hello"; author = "ann"; size = 3 }

abbrev world : Entry
world = record { message_id = "2"; text = "world"; author = "bob"; size = 3 }

abbrev full : Cache
full = record { limit = 1; max_bytes = 10; bytes = 3; messages = hello ∷ [] }

full-IsValid : IsValid full
full-IsValid = record {
  counted = refl;
  few_entries = omega arith;
  few_bytes = omega arith;
  distinct = (refl, tt);
}

abbrev sizes : String → ℕ
sizes s = 1

abbrev message : Fields
message =
    field "message_type" (text "text_message")
      (field "message_id" (text "2") (field "message" (text "world") end))

abbrev metadata : Fields
metadata = field "deleted_message_id" (text "2") end

abbrev event : Fields
event = field "message_type" (text "message_deleted") (field "metadata" (obj metadata) end)

observe-IsValid_example : IsValid (observe sizes full message).0
observe-IsValid_example = observe-IsValid sizes full message full-IsValid

world-Fits : Fits full world
unfolding find
world-Fits = record {
  has_id = ground (arith, ==_iff world.message_id "");
  has_text = ground (arith, ==_iff world.text "");
  absent = refl;
  small = omega arith;
  enabled = omega arith;
}

admit-newest_example :
    (r : Evicted 1 10 3 (hello ∷ []) 3) × ((admit full world).messages
      ≡ drop r.dropped (hello ∷ []) ++ world ∷ [])
admit-newest_example = admit-newest full world full-IsValid world-Fits

message-Fits : Fits full (entry_of sizes message)
unfolding find
message-Fits = record {
  has_id = ground (arith, ==_iff world.message_id "");
  has_text = ground (arith, ==_iff world.text "");
  absent = refl;
  small = omega arith;
  enabled = omega arith;
}

observe_recalls_example :
    get "deleted_message_text"
      (get_dict (observe sizes (observe sizes full message).0 event).1 "metadata")
    ≡ text "world"
observe_recalls_example =
    observe_recalls sizes full message event metadata full-IsValid message-Fits refl refl refl refl
