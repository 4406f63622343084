-- ===== src/Kick/DeletedCache/Recall.antt =====
-- What a deletion notice is given: the text and the author of the message that it deletes.
use chat_downloader_fork.Base.{
  ℕ, zero, suc, ◌≤◌, ◌<◌, ◌≡◌, ◌≢◌, refl, ap, String, none, some, List, [], ◌∷◌, ◌++◌, ◌==◌,
  string_Eq, drop, arith, Bool-cases, inl, inr, ==_iff, ==_refl,
}
use chat_downloader_fork.Base.Json.{Fields, get, get_str, get_dict, get-put, text, obj}
use chat_downloader_fork.Kick.DeletedCache.{
  Entry, Cache, find, insert, admit, remember, entry_of, observe, annotate, annotate_event,
}
use chat_downloader_fork.Kick.DeletedCache.Bounds.{IsValid, Evicted, evict-Evicted}

find-drop_absent :
    (n : ℕ) (l : List Entry) (a : String) → find a l ≡ none → find a (drop n l) ≡ none
unfolding find
find-drop_absent zero l a h = h
find-drop_absent (suc n) [] a h = refl
find-drop_absent (suc n) (e ∷ l) a h = find-drop_absent n l a (ground arith)

find-snoc_self :
    (l : List Entry) (e : Entry)
    → find e.message_id l ≡ none
    → find e.message_id (l ++ e ∷ []) ≡ some e
unfolding find
find-snoc_self [] e h = rw (==_refl e.message_id)
find-snoc_self (x ∷ l) e h = ground (arith, find-snoc_self l e)

-- An entry that is accepted: not empty, not cached yet, and not too large.
pub record Fits (c : Cache) (e : Entry) : Type 0 where
  pub has_id : e.message_id ≢ ""
  pub has_text : e.text ≢ ""
  pub absent : find e.message_id c.messages ≡ none
  pub small : e.size ≤ c.max_bytes
  pub enabled : 0 < c.limit

admit-insert : (c : Cache) (e : Entry) → Fits c e → admit c e ≡ insert c e
unfolding admit
admit-insert c e f = ground (
  arith,
  ==_iff e.message_id "",
  ==_iff e.text "",
  f.has_id,
  f.has_text,
  f.absent,
  f.small,
  f.enabled,
)

-- From a valid cache, an accepted entry becomes the last one, after the longest part of the old
-- entries for which there is room: only the oldest go, and no more of them than needed.
pub admit-newest :
    (c : Cache) (e : Entry)
    → IsValid c
    → Fits c e
    → (r : Evicted c.limit c.max_bytes e.size c.messages c.bytes) × ((admit c e).messages
        ≡ drop r.dropped c.messages ++ e ∷ [])
unfolding insert
admit-newest c e v f =
    let r =
      evict-Evicted c.limit c.max_bytes e.size c.messages c.bytes f.enabled f.small v.counted in
    (r, rw (admit-insert c e f) (ap (λ l. l ++ e ∷ []) r.kept))

find-admit :
    (c : Cache) (e : Entry) → IsValid c → Fits c e → find e.message_id (admit c e).messages ≡ some e
find-admit c e v f =
    let (r, shape) = admit-newest c e v f in
    rw shape (
      find-snoc_self (drop r.dropped c.messages) e
        (find-drop_absent r.dropped c.messages e.message_id f.absent))

annotate-text :
    (e : Entry) (metadata : Fields)
    → get "deleted_message_text" (annotate (some e) metadata) ≡ text e.text
unfolding annotate
annotate-text e metadata = elim (Bool-cases (e.author == "")) [
  | inl anonymous ↦ rw (anonymous, annotate) (rw get-put refl)
  | inr named ↦ rw (named, annotate) (rw get-put (rw get-put refl))
]

observe-text :
    (size_of : String → ℕ) (c : Cache) (message : Fields)
    → get "message_type" message ≡ text "text_message"
    → (observe size_of c message).0 ≡ admit c (entry_of size_of message)
unfolding observe remember
observe-text size_of c message k = rw (k, observe)

observe-deletion :
    (size_of : String → ℕ) (c : Cache) (event metadata : Fields)
    → get "message_type" event ≡ text "message_deleted"
    → get "metadata" event ≡ obj metadata
    → (observe size_of c event).1 ≡ annotate_event c (obj metadata) event
unfolding observe
observe-deletion size_of c event metadata k m = rw (k, m, observe)

-- After a valid cache has observed a text message that it accepts (with an id and a text, not
-- yet cached, and within the budget), a deletion event with metadata that names its id carries
-- the message's text in its metadata.
pub observe_recalls :
    (size_of : String → ℕ) (c : Cache) (message event metadata : Fields)
    → IsValid c
    → Fits c (entry_of size_of message)
    → get "message_type" message ≡ text "text_message"
    → get "message_type" event ≡ text "message_deleted"
    → get "metadata" event ≡ obj metadata
    → get_str metadata "deleted_message_id" "" ≡ get_str message "message_id" ""
    → get "deleted_message_text"
        (get_dict (observe size_of (observe size_of c message).0 event).1 "metadata")
      ≡ text (get_str message "message" "")
observe_recalls size_of c message event metadata v f kind kind' m names =
    let e = entry_of size_of message in
    rw
      (
        observe-deletion size_of (observe size_of c message).0 event metadata kind' m,
        observe-text size_of c message kind,
        get-put,
        names,
        find-admit c e v f,
      )
      (annotate-text e metadata)
