-- ===== src/Remap/Tests.antt =====
-- The remapping of a chat message's author.
use chat_downloader_fork.Base.{◌≡◌, List, [], ◌∷◌, String, true, pos}
use chat_downloader_fork.Base.Json.{Fields, end, field, text, int, get, null}
use chat_downloader_fork.Base.Result.{ok}
use chat_downloader_fork.Remap.{Rule, rename, falsy, remap_dict}
use chat_downloader_fork.Remap.Renaming.{last_named, remap_dict-last_named}

abbrev rules : List (String × Rule)
rules = ("id", rename "author_id") ∷ ("channel_id", rename "author_id") ∷ ("rank", falsy) ∷ []

abbrev author : Fields
author =
    field "id" (text "old")
      (field "rank" (int (pos 3)) (field "channel_id" (text "new") (field "badge" null end)))

abbrev underscored : String → String
underscored key = key

remap_dict-last_named_example :
    (result : Fields) × (remap_dict true underscored rules author ≡ ok result)
    × ((name : String) → get name result ≡ last_named true underscored rules name null author)
remap_dict-last_named_example =
    remap_dict-last_named true underscored rules author (tt, (tt, (tt, (tt, tt))))
