-- ===== src/Dedup/Window.antt =====
-- The bounded cache against an ideal one that remembers every accepted id: the cache holds the
-- last `limit` accepted ids, in order, and calls an id new exactly when it is not among those.
use mathlib.Core.Path.{subst}
use chat_downloader_fork.Base.{
  ℕ, zero, suc, ◌+◌, ◌-◌, ◌≤◌, ◌<◌, ◌≡◌, refl, ap, sym, ◌∙◌, String, true, false, not, Option, none,
  some, List, [], ◌∷◌, ◌++◌, ltb, if◌then◌else◌, string_Eq, length, contains, drop, arith,
  get_elem?, ℤ, pos, negsuc, length-append, length-drop, drop-append_le, drop-suc, Bool-cases, inl,
  inr, lt→ltb, le→ltb, ltb→lt,
}
use chat_downloader_fork.Dedup.SeenCache.{
  SeenCache, pop_oldest, Limit, no_limit, refused, infinite, number, positive_or_default,
  normalize_limit, init, init_int, register,
}
use chat_downloader_fork.Base.Result.{Result, ok, raise, overflow_error}
use chat_downloader_fork.Base.{pos, negsuc}

-- The last `n` elements.
abbrev pub last_n : ℕ → List String → List String
last_n n xs = drop (length xs - n) xs

-- The ideal cache: an id is accepted unless it is among the last `limit` accepted ones.
unfoldable pub accept : ℕ → List String → String → List String
accept limit history id = if contains id (last_n limit history) then history else history ++ id ∷ []

pub record Tracks (c : SeenCache) (history : List String) : Type 0 where
  pub positive : 0 < c.limit
  pub window : c.message_ids ≡ last_n c.limit history
  pub evicted : c.evictions ≡ length history - c.limit

length-last_n-le : (n : ℕ) (xs : List String) → length (last_n n xs) ≤ n
length-last_n-le n xs = omega (arith, length-drop (length xs - n) xs)

-- Below the limit nothing is dropped.
last_n-snoc_room :
    (n : ℕ) (xs : List String) (y : String)
    → length (last_n n xs) < n
    → (last_n n (xs ++ y ∷ []) ≡ last_n n xs ++ y ∷ []) × (length xs < n)
last_n-snoc_room n xs y h =
    let few : length xs < n = omega (arith, length-drop (length xs - n) xs) in
    let none_before : length xs - n ≡ 0 = omega arith in
    let none_after : length (xs ++ y ∷ []) - n ≡ 0 = omega (arith, length-append xs (y ∷ [])) in
    (rw (none_before, none_after) refl, few)

-- At the limit the oldest goes.
last_n-snoc_full :
    (n : ℕ) (xs : List String) (y z : String) (rest : List String)
    → 0 < n
    → n ≤ length (last_n n xs)
    → last_n n xs ++ y ∷ [] ≡ z ∷ rest
    → (last_n n (xs ++ y ∷ []) ≡ rest) × (n ≤ length xs)
last_n-snoc_full n xs y z rest p h e =
    let many : n ≤ length xs = omega (arith, length-drop (length xs - n) xs) in
    let after : length (xs ++ y ∷ []) - n ≡ suc (length xs - n) =
      omega (arith, length-append xs (y ∷ [])) in
    let whole : drop (length xs - n) (xs ++ y ∷ []) ≡ z ∷ rest =
      drop-append_le (length xs - n) xs (y ∷ []) (omega arith) ∙ e in
    (rw after (drop-suc (length xs - n) (xs ++ y ∷ []) z rest whole), many)

pub accept_new :
    (limit : ℕ) (h : List String) (id : String)
    → contains id (last_n limit h) ≡ false
    → accept limit h id ≡ h ++ id ∷ []
unfolding accept
accept_new limit h id e = rw e

pub accept_old :
    (limit : ℕ) (h : List String) (id : String)
    → contains id (last_n limit h) ≡ true
    → accept limit h id ≡ h
unfolding accept
accept_old limit h id e = rw e

module _ (c : SeenCache) (h : List String) (t : Tracks c h) (id : String) where
  register-known :
      contains id (last_n c.limit h) ≡ true
      → (register c id ≡ (c, false, none)) × Tracks c (accept c.limit h id)
  unfolding register
  register-known old =
      let seen : contains id c.message_ids ≡ true = rw t.window old in
      (rw seen refl, rw (accept_old c.limit h id old) t)

  register-room :
      contains id (last_n c.limit h) ≡ false
      → length (c.message_ids ++ id ∷ []) ≤ c.limit
      → (register c id ≡ (record c { message_ids = c.message_ids ++ id ∷ [] }, true, none))
        × Tracks (record c { message_ids = c.message_ids ++ id ∷ [] }) (accept c.limit h id)
  unfolding register
  register-room new fits =
      let unseen : contains id c.message_ids ≡ false = rw t.window new in
      let below : length (last_n c.limit h) < c.limit =
        omega (arith, length-append c.message_ids (id ∷ []), ap length t.window) in
      let (keeps, few) = last_n-snoc_room c.limit h id below in
      (
        rw (unseen, le→ltb c.limit (length (c.message_ids ++ id ∷ [])) fits) refl,
        rw (accept_new c.limit h id new) (record {
          positive = t.positive;
          window = ap (λ l. l ++ id ∷ []) t.window ∙ sym keeps;
          evicted = omega (arith, t.evicted, length-append h (id ∷ []));
        }),
      )

  -- what is left after the oldest entry goes
  abbrev evicting : List String → SeenCache
  evicting rest = record c { message_ids = rest; evictions = c.evictions + 1 }

  register-full :
      (oldest : String) (rest : List String)
      → contains id (last_n c.limit h) ≡ false
      → c.limit < length (c.message_ids ++ id ∷ [])
      → c.message_ids ++ id ∷ [] ≡ oldest ∷ rest
      → (register c id ≡ (evicting rest, true, some oldest))
        × Tracks (evicting rest) (accept c.limit h id)
  unfolding register
  register-full oldest rest new over split =
      let unseen : contains id c.message_ids ≡ false = rw t.window new in
      let full : c.limit ≤ length (last_n c.limit h) =
        omega (arith, length-append c.message_ids (id ∷ []), ap length t.window) in
      let (keeps, many) =
        last_n-snoc_full c.limit h id oldest rest t.positive full
          (ap (λ l. l ++ id ∷ []) (sym t.window) ∙ split) in
      (
        rw (unseen, lt→ltb c.limit (length (c.message_ids ++ id ∷ [])) over)
            (ap (pop_oldest c) split),
        rw (accept_new c.limit h id new) (record {
          positive = t.positive;
          window = sym keeps;
          evicted = omega (arith, t.evicted, length-append h (id ∷ []));
        }),
      )

-- The oldest id of a full window.
abbrev first_of_window : ℕ → List String → Option String
first_of_window limit history =
    if ltb (length history) limit then none else get_elem? (last_n limit history) 0

first_of_window-split :
    (w : List String) (id oldest : String) (rest : List String)
    → 0 < length w
    → w ++ id ∷ [] ≡ oldest ∷ rest
    → get_elem? w 0 ≡ some oldest
first_of_window-split [] id oldest rest h e = absurd (omega arith)
first_of_window-split (x ∷ w) id oldest rest h e = ground arith

-- What one registration promises: it answers "new" exactly when the id is not in the window, it
-- names the oldest id of a full window as evicted when it was new, and it goes on tracking.
pub record Registered (c : SeenCache) (h : List String) (id : String) : Type 0 where
  pub is_new : (register c id).1 ≡ not (contains id (last_n c.limit h))
  pub evicts :
      (register c id).2
      ≡ (if contains id (last_n c.limit h) then none else first_of_window c.limit h)
  pub tracks : Tracks (register c id).0 (accept c.limit h id)
  pub limit_kept : (register c id).0.limit ≡ c.limit

module _ (c : SeenCache) (h : List String) (t : Tracks c h) (id : String) where
  Registered-known : contains id (last_n c.limit h) ≡ true → Registered c h id
  Registered-known old =
      let (e, t') = register-known c h t id old in
      record { is_new = rw (e, old); evicts = rw (e, old); tracks = rw e t'; limit_kept = rw e }

  Registered-room :
      contains id (last_n c.limit h) ≡ false
      → length (c.message_ids ++ id ∷ []) ≤ c.limit
      → Registered c h id
  Registered-room new fits =
      let (e, t') = register-room c h t id new fits in
      let few : length h < c.limit = omega (
        arith,
        length-append c.message_ids (id ∷ []),
        length-drop (length h - c.limit) h,
        ap length t.window,
      ) in
      record {
        is_new = rw (e, new);
        evicts = rw (e, new, lt→ltb _ _ few);
        tracks = rw e t';
        limit_kept = rw e;
      }

  Registered-full :
      (oldest : String) (rest : List String)
      → contains id (last_n c.limit h) ≡ false
      → c.limit < length (c.message_ids ++ id ∷ [])
      → c.message_ids ++ id ∷ [] ≡ oldest ∷ rest
      → Registered c h id
  Registered-full oldest rest new over split =
      let (e, t') = register-full c h t id oldest rest new over split in
      let size : length (last_n c.limit h) + 1 ≡ length (c.message_ids ++ id ∷ []) =
        omega (arith, length-append c.message_ids (id ∷ []), ap length t.window) in
      let many : c.limit ≤ length h = omega (arith, length-drop (length h - c.limit) h) in
      record {
        is_new = rw (e, new);
        evicts =
            rw (e, new, le→ltb _ _ many)
              (sym (
                first_of_window-split (last_n c.limit h) id oldest rest (omega (arith, t.positive))
                  (ap (λ l. l ++ id ∷ []) (sym t.window) ∙ split)));
        tracks = rw e t';
        limit_kept = rw e;
      }

snoc-cons :
    (xs : List String) (y : String)
    → (z : String) × (rest : List String) × (xs ++ y ∷ [] ≡ z ∷ rest)
snoc-cons [] y = (y, [], refl)
snoc-cons (x ∷ xs) y = (x, xs ++ y ∷ [], refl)

-- From a cache that holds the last `limit` ids of a history, registering an id answers "new"
-- exactly when the id is not among them, reports the oldest of a full window as evicted when it
-- is new, keeps the limit, and leaves a cache that holds the last `limit` ids of the new
-- history.
pub register-Registered :
    (c : SeenCache) (h : List String) (id : String) → Tracks c h → Registered c h id
register-Registered c h id t = elim (Bool-cases (contains id (last_n c.limit h))) [
  | inl old ↦ Registered-known c h t id old
  | inr new ↦ elim (Bool-cases (ltb c.limit (length (c.message_ids ++ id ∷ [])))) [
    | inl over ↦
        let (z, rest, split) = snoc-cons c.message_ids id in
        Registered-full c h t id z rest new (ltb→lt _ _ over) split
    | inr fits ↦ Registered-room c h t id new (ground arith)
  ]
]

-- A history of registrations.
unfoldable pub register_all : SeenCache → List String → SeenCache
register_all c [] = c
register_all c (id ∷ ids) = register_all (register c id).0 ids

unfoldable pub accept_all : ℕ → List String → List String → List String
accept_all limit h [] = h
accept_all limit h (id ∷ ids) = accept_all limit (accept limit h id) ids

-- From a cache that tracks a history, whatever ids are registered, in whatever order, the cache
-- then holds the last `limit` accepted ids and has evicted exactly the accepted ids before
-- those.
pub register_all-Tracks :
    (c : SeenCache) (h ids : List String)
    → Tracks c h
    → Tracks (register_all c ids) (accept_all c.limit h ids)
unfolding register_all accept_all
register_all-Tracks c h [] t = t
register_all-Tracks c h (id ∷ ids) t =
    let r = register-Registered c h id t in
    subst
      (λ n. Tracks (register_all (register c id).0 ids) (accept_all n (accept c.limit h id) ids))
      r.limit_kept (register_all-Tracks (register c id).0 (accept c.limit h id) ids r.tracks)

drop_nil : (n : ℕ) → drop {A = String} n [] ≡ []
drop_nil zero = refl
drop_nil (suc n) = refl

positive_or_default-pos : (limit : ℤ) → 0 < positive_or_default limit
unfolding positive_or_default
positive_or_default-pos (pos zero) = omega arith
positive_or_default-pos (pos (suc n)) = omega arith
positive_or_default-pos (negsuc n) = omega arith

pub init_int-Tracks : (limit : ℤ) → Tracks (init_int limit) []
unfolding init_int
init_int-Tracks limit = record {
  positive = positive_or_default-pos limit;
  window = sym (drop_nil (0 - positive_or_default limit));
  evicted = omega arith;
}

-- A cache was made, with this limit, and tracks the empty history.
abbrev pub Made : Result SeenCache → ℕ → Type 0
Made r limit = (c : SeenCache) × (r ≡ ok c) × (c.limit ≡ limit) × Tracks c []

-- What becomes of a limit
abbrev pub Created : Limit → Result SeenCache → Type 0
Created (number (pos (suc n))) r = Made r (suc n)
Created infinite r = r ≡ raise overflow_error
Created _ r = Made r 10000

made : (limit : ℤ) (n : ℕ) → positive_or_default limit ≡ n → Made (ok (init_int limit)) n
unfolding init_int
made limit n e = (init_int limit, refl, e, init_int-Tracks limit)

-- A new cache tracks the empty history, and its limit is the given number if that is positive,
-- and 10,000 if it is zero or negative, or is no number to `int`; an infinite one raises an
-- overflow error, and no other does.
pub init-Created : (limit : Limit) → Created limit (init limit)
unfolding init normalize_limit init_int positive_or_default
init-Created no_limit = made (negsuc 0) 10000 refl
init-Created refused = made (negsuc 0) 10000 refl
init-Created infinite = refl
init-Created (number (pos zero)) = made (pos 0) 10000 refl
init-Created (number (pos (suc n))) = made (pos (suc n)) (suc n) refl
init-Created (number (negsuc n)) = made (negsuc n) 10000 refl
