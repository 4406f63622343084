-- ===== src/Dedup/Superchats.antt =====
-- What the deduplicator of formatted outputs lets through.
use chat_downloader_fork.Base.{
  ℕ, ◌+◌, ◌-◌, ◌≤◌, ◌≡◌, refl, ap, String, Bool, true, false, not, ◌&&◌, ◌==◌, Option, none, some,
  List, [], ◌∷◌, ◌++◌, if◌then◌else◌, string_Eq, length, contains, arith, length-append, Bool-cases,
  inl, inr, ◌↔◌, Distinct, Distinct-snoc, append-nil, append_assoc,
}
use chat_downloader_fork.Base.Json.{
  Json, null, bool, int, real, text, arr, obj, Fields, get, hashable,
}
use chat_downloader_fork.Base.Result.{Result, ok, raise, type_error}
use chat_downloader_fork.Dedup.SeenCache.{SeenCache, register}
use chat_downloader_fork.Dedup.Window.{
  Tracks, accept_new, accept_old, last_n, accept, register-Registered,
}
use chat_downloader_fork.Dedup.Formatted.{
  superchat_dedup_types, is_superchat, dedup_id, should_emit,
}

-- An item is kept out exactly when it has a deduplication id that is in the window.
abbrev pub fresh : ℕ → List String → Option String → Bool
fresh limit h none = true
fresh limit h (some id) = not (contains id (last_n limit h))

abbrev pub remember : ℕ → List String → Option String → List String
remember limit h none = h
remember limit h (some id) = accept limit h id

pub record Decided (c : SeenCache) (h : List String) (item : Fields) (id : Option String)
    : Type 0 where
  pub next : SeenCache
  pub emits : should_emit c item ≡ ok (next, fresh c.limit h id)
  pub tracks : Tracks next (remember c.limit h id)
  pub limit_kept : next.limit ≡ c.limit

-- The decision by the deduplication id
should_emit-by_id :
    (c : SeenCache) (h : List String) (item : Fields) (id : Option String)
    → Tracks c h
    → dedup_id item ≡ ok id
    → Decided c h item id
unfolding should_emit
should_emit-by_id c h item none t e = record {
  next = c;
  emits = rw (e, should_emit);
  tracks = t;
  limit_kept = refl;
}
should_emit-by_id c h item (some id) t e =
    let r = register-Registered c h id t in
    record {
      next = (register c id).0;
      emits = rw (e, should_emit) (ap (λ b. ok ((register c id).0, b)) r.is_new);
      tracks = r.tracks;
      limit_kept = r.limit_kept;
    }

-- The types of paid and membership items, and their tickers
abbrev pub paid_types : List String
paid_types =
    "membership_item" ∷ "paid_message" ∷ "paid_sticker" ∷ "ticker_paid_message_item"
    ∷ "ticker_paid_sticker_item" ∷ "ticker_sponsor_item" ∷ []

-- The non-empty text id of a paid or membership item
abbrev pub paid_id : Json → Json → Option String
paid_id (text kind) (text id) = if contains kind paid_types && not (id == "") then some id else none
paid_id _ _ = none

-- The order of the types does not matter.
contains-paid_types :
    (kind : String) → contains kind superchat_dedup_types ≡ contains kind paid_types
contains-paid_types kind =
    reorder ("paid_message" == kind) ("ticker_paid_message_item" == kind) ("paid_sticker" == kind)
      ("ticker_paid_sticker_item" == kind) ("membership_item" == kind)
      ("ticker_sponsor_item" == kind)
  where
    reorder :
        (a b c d e f : Bool)
        → (if a
            then true
            else if b
            then true
            else if c
            then true
            else if d
            then true
            else if e
            then true
            else if f
            then true
            else false)
          ≡ (if e
              then true
              else if a
              then true
              else if c
              then true
              else if b
              then true
              else if d
              then true
              else if f
              then true
              else false)
    reorder a b c d e f = ground arith

by_tests :
    (paid empty : Bool) (s : String)
    → (elim paid as (λ _. Result (Option String)) [
      | false ↦ ok none
      | true ↦ if empty then ok none else ok (some s)
    ])
      ≡ ok (if paid && not empty then some s else none)
by_tests false empty s = refl
by_tests true false s = refl
by_tests true true s = refl

not_text :
    (paid : Bool)
    → (elim paid as (λ _. Result (Option String)) [ false ↦ ok none | true ↦ ok none ]) ≡ ok none
not_text false = refl
not_text true = refl

-- The id of an item, by its two values
id_by :
    (kind id : Json)
    → hashable kind ≡ true
    → (elim (is_superchat kind) [
      | raise e ↦ raise e
      | ok false ↦ ok none
      | ok true ↦ elim id [ text s ↦ if s == "" then ok none else ok (some s) | _ ↦ ok none ]
    ])
      ≡ ok (paid_id kind id)
unfolding is_superchat
id_by null id h = refl
id_by (bool b) id h = refl
id_by (int n) id h = refl
id_by (real x) id h = refl
id_by (arr v) id h = absurd (ground arith)
id_by (obj v) id h = absurd (ground arith)
id_by (text kind) (text s) h =
    rw (contains-paid_types kind) (by_tests (contains kind paid_types) (s == "") s)
id_by (text kind) null h = rw (contains-paid_types kind) (not_text (contains kind paid_types))
id_by (text kind) (bool b) h = rw (contains-paid_types kind) (not_text (contains kind paid_types))
id_by (text kind) (int n) h = rw (contains-paid_types kind) (not_text (contains kind paid_types))
id_by (text kind) (real x) h = rw (contains-paid_types kind) (not_text (contains kind paid_types))
id_by (text kind) (arr v) h = rw (contains-paid_types kind) (not_text (contains kind paid_types))
id_by (text kind) (obj v) h = rw (contains-paid_types kind) (not_text (contains kind paid_types))

dedup_id-paid_id :
    (item : Fields)
    → hashable (get "message_type" item) ≡ true
    → dedup_id item ≡ ok (paid_id (get "message_type" item) (get "message_id" item))
unfolding dedup_id
dedup_id-paid_id item h = id_by (get "message_type" item) (get "message_id" item) h

-- From a cache that tracks a history, an item whose type can be hashed is decided by its id: one
-- of the paid or membership types with a non-empty text id is let through exactly when that id
-- is not among the last `limit` accepted ids, and is then accepted; any other is let through and
-- changes nothing.
pub should_emit-Decided :
    (c : SeenCache) (h : List String) (item : Fields)
    → Tracks c h
    → hashable (get "message_type" item) ≡ true
    → Decided c h item (paid_id (get "message_type" item) (get "message_id" item))
should_emit-Decided c h item t known =
    should_emit-by_id c h item (paid_id (get "message_type" item) (get "message_id" item)) t
      (dedup_id-paid_id item known)

-- The decision on an item raises a type error exactly when its message type is a list or a
-- dictionary.
pub should_emit-raises_iff :
    (c : SeenCache) (item : Fields)
    → (should_emit c item ≡ raise type_error) ↔ (hashable (get "message_type" item) ≡ false)
unfolding should_emit
should_emit-raises_iff c item = ground arith

-- The ids of the items that were let through.
unfoldable pub emitted_ids : SeenCache → List (Fields × String) → List String
emitted_ids c [] = []
emitted_ids c ((item, id) ∷ rest) = elim (should_emit c item) [
  | raise e ↦ []
  | ok (c', emit) ↦ let later = emitted_ids c' rest in if emit then id ∷ later else later
]

-- Every item has the deduplication id that is paired with it.
abbrev pub AllPaid : List (Fields × String) → Type 0
AllPaid [] = Unit
AllPaid ((item, id) ∷ rest) = (dedup_id item ≡ ok (some id)) × AllPaid rest

window_whole : (limit : ℕ) (h : List String) → length h ≤ limit → last_n limit h ≡ h
window_whole limit h le = let e : length h - limit ≡ 0 = omega arith in rw e

emitted-step :
    (c : SeenCache) (item : Fields) (id : String) (rest : List (Fields × String)) (c' : SeenCache)
    (emit : Bool)
    → should_emit c item ≡ ok (c', emit)
    → emitted_ids c ((item, id) ∷ rest)
      ≡ (if emit then id ∷ emitted_ids c' rest else emitted_ids c' rest)
unfolding emitted_ids
emitted-step c item id rest c' emit e = rw (e, emitted_ids)

-- From a cache that tracks a history of different ids, let items with deduplication ids come, no
-- more than the limit together with the history. Then the ids of the history, followed by those
-- of the items that are let through, are all different.
pub emitted_ids-Distinct :
    (c : SeenCache) (h : List String) (items : List (Fields × String))
    → Tracks c h
    → Distinct h
    → length h + length items ≤ c.limit
    → AllPaid items
    → Distinct (h ++ emitted_ids c items)
unfolding emitted_ids
emitted_ids-Distinct c h [] t d fits paid = rw append-nil d
emitted_ids-Distinct c h ((item, id) ∷ rest) t d fits (e, paid) =
    let s = should_emit-by_id c h item (some id) t e in
    elim (Bool-cases (contains id (last_n c.limit h))) [
      | inl old ↦
          rw (emitted-step c item id rest s.next _ s.emits, old)
            (emitted_ids-Distinct s.next h rest (rw (accept_old c.limit h id old) at s.tracks) d
              (omega (arith, s.limit_kept)) paid)
      | inr new ↦
          rw
            (
              emitted-step c item id rest s.next _ s.emits,
              new,
              ← (append_assoc h (id ∷ []) (emitted_ids s.next rest)),
            )
            (emitted_ids-Distinct s.next (h ++ id ∷ []) rest
              (rw (accept_new c.limit h id new) at s.tracks)
              (Distinct-snoc h id d (rw (window_whole c.limit h (omega arith)) at new))
              (omega (arith, s.limit_kept, length-append h (id ∷ []))) paid)
    ]
