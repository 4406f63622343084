-- ===== src/Kick/DeletedCache/Bounds.antt =====
-- The cache never holds more entries or bytes than it may, and counts its bytes exactly.
use chat_downloader_fork.Base.{
  ℕ, zero, suc, ◌+◌, ◌-◌, ◌≤◌, ◌<◌, ◌≡◌, refl, ap, sym, String, false, ◌⊎◌, List, [], ◌∷◌, ◌++◌,
  map, ltb, leb, ◌==◌, ◌||◌, string_Eq, length, drop, arith, length-append, Bool-cases, inl, inr,
  contains, Distinct, Distinct-snoc,
}
use chat_downloader_fork.Base.Json.{Fields}
use chat_downloader_fork.Kick.DeletedCache.{
  Entry, Cache, find, evict, insert, entry_of, is_cached, admit, remember, observe,
}

abbrev pub total_size : List Entry → ℕ
total_size [] = 0
total_size (e ∷ rest) = e.size + total_size rest

abbrev pub ids : List Entry → List String
ids = map (λ e. e.message_id)

pub record IsValid (c : Cache) : Type 0 where
  pub counted : c.bytes ≡ total_size c.messages
  pub few_entries : length c.messages ≤ c.limit
  pub few_bytes : c.bytes ≤ c.max_bytes
  pub distinct : Distinct (ids c.messages)

total_size-snoc : (l : List Entry) (e : Entry) → total_size (l ++ e ∷ []) ≡ total_size l + e.size
total_size-snoc [] e = omega arith
total_size-snoc (x ∷ l) e = omega (arith, total_size-snoc l e)

ids-snoc : (l : List Entry) (e : Entry) → ids (l ++ e ∷ []) ≡ ids l ++ e.message_id ∷ []
ids-snoc [] e = refl
ids-snoc (x ∷ l) e = ap (◌∷◌ x.message_id) (ids-snoc l e)

-- What the eviction loop leaves.
pub record Evicted (limit max_bytes size : ℕ) (l : List Entry) (bytes : ℕ) : Type 0 where
  pub dropped : ℕ
  pub kept : (evict limit max_bytes size l bytes).0 ≡ drop dropped l
  pub counted : (evict limit max_bytes size l bytes).1 ≡ total_size (drop dropped l)
  pub room : length (drop dropped l) < limit
  pub fits : total_size (drop dropped l) + size ≤ max_bytes
  -- one entry fewer would not have been enough
  pub least :
      (j : ℕ)
      → j < dropped
      → (limit ≤ length (drop j l)) ⊎ (max_bytes < total_size (drop j l) + size)

pub evict-Evicted :
    (limit max_bytes size : ℕ) (l : List Entry) (bytes : ℕ)
    → 0 < limit
    → size ≤ max_bytes
    → bytes ≡ total_size l
    → Evicted limit max_bytes size l bytes
unfolding evict
evict-Evicted limit max_bytes size [] bytes p s h = record {
  dropped = 0;
  kept = refl;
  counted = h;
  room = p;
  fits = omega arith;
  least = λ j lt. elim lt [ ];
}
evict-Evicted limit max_bytes size (e ∷ rest) bytes p s h =
    let again = evict-Evicted limit max_bytes size rest (bytes - e.size) p s (omega arith) in
    elim (Bool-cases (leb limit (length (e ∷ rest)) || ltb max_bytes (bytes + size))) [
      | inl over ↦ record {
        dropped = suc again.dropped;
        kept = rw (over, evict) again.kept;
        counted = rw (over, evict) again.counted;
        room = again.room;
        fits = again.fits;
        least = elim [ zero ↦ λ _. ground arith | suc j ↦ λ lt. again.least j (omega arith) ];
      }
      | inr enough ↦ record {
        dropped = 0;
        kept = rw (enough, evict);
        counted = rw (enough, evict) h;
        room = ground arith;
        fits = ground arith;
        least = λ j lt. elim lt [ ];
      }
    ]

absent-drop :
    (n : ℕ) (l : List Entry) (a : String)
    → contains a (ids l) ≡ false
    → contains a (ids (drop n l)) ≡ false
absent-drop zero l a h = h
absent-drop (suc n) [] a h = refl
absent-drop (suc n) (e ∷ l) a h = absent-drop n l a (ground arith)

Distinct-drop : (n : ℕ) (l : List Entry) → Distinct (ids l) → Distinct (ids (drop n l))
Distinct-drop zero l d = d
Distinct-drop (suc n) [] d = d
Distinct-drop (suc n) (e ∷ l) d = Distinct-drop n l d.1

absent_of_find : (a : String) (l : List Entry) → is_cached (find a l) ≡ contains a (ids l)
unfolding find
absent_of_find a [] = refl
absent_of_find a (e ∷ l) = ground (arith, absent_of_find a l)

insert-IsValid :
    (c : Cache) (e : Entry)
    → IsValid c
    → contains e.message_id (ids c.messages) ≡ false
    → 0 < c.limit
    → e.size ≤ c.max_bytes
    → IsValid (insert c e)
unfolding insert
insert-IsValid c e v new p s =
    let r = evict-Evicted c.limit c.max_bytes e.size c.messages c.bytes p s v.counted in
    let left = drop r.dropped c.messages in
    rw (r.kept, r.counted, insert)
      (record {
        counted = sym (total_size-snoc left e);
        few_entries = omega (arith, length-append left (e ∷ []), r.room);
        few_bytes = r.fits;
        distinct = rw (ids-snoc left e) (
            Distinct-snoc (ids left) e.message_id (Distinct-drop r.dropped c.messages v.distinct)
              (absent-drop r.dropped c.messages e.message_id new));
      })

-- Admitting an entry keeps the cache valid, whether or not the entry is taken.
pub admit-IsValid : (c : Cache) (e : Entry) → IsValid c → IsValid (admit c e)
unfolding admit
admit-IsValid c e v =
    elim (Bool-cases
      (e.message_id == "" || e.text == "" || is_cached (find e.message_id c.messages))) [
        | inl skip ↦ rw (skip, admit) v
        | inr take ↦ elim (Bool-cases (ltb c.max_bytes e.size || leb c.limit 0)) [
          | inl skip ↦ rw (take, skip, admit) v
          | inr room ↦
              rw (take, room, admit)
                (insert-IsValid c e v (ground (arith, absent_of_find e.message_id c.messages))
                  (ground arith) (ground arith))
        ]
      ]

-- From a valid cache of deleted messages, observing any message leaves a valid cache: at most
-- `limit` entries, at most `max_bytes` bytes, the byte counter exact, and no id twice.
pub observe-IsValid :
    (size_of : String → ℕ) (c : Cache) (message : Fields)
    → IsValid c
    → IsValid (observe size_of c message).0
unfolding observe remember
observe-IsValid size_of c message v = ground (arith, admit-IsValid c (entry_of size_of message) v)
