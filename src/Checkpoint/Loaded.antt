-- ===== src/Checkpoint/Loaded.antt =====
-- What the guards of `_load` let through can be saved again.
use chat_downloader_fork.Base.{
  ℕ, zero, suc, ◌≤◌, ◌<◌, ◌≡◌, refl, String, Bool, true, false, not, ◌||◌, Option, none, some, List,
  [], ◌∷◌, ◌==◌, ==_iff, string_Eq, nat_Eq, int_Eq, ℤ, pos, negsuc, ltb, leb, length, arith,
  Bool-cases, Option-cases, inl, inr,
}
use mathlib.Core.Path.{subst}
use chat_downloader_fork.Base.Json.{
  Json, null, bool, int, real, text, arr, obj, Items, nil, cons, Fields, end, field, get,
}
use chat_downloader_fork.Base.Result.{Result, ok, raise, ◌>>=◌, ok_injective}
use chat_downloader_fork.Checkpoint.Events.{Events}
use chat_downloader_fork.Checkpoint.State.{Checkpoint, boundary_limit, reopen}
use chat_downloader_fork.Checkpoint.Persist.{
  new_checkpoint, read_events, add_event, read_resets, add_reset, sum_of, is_filled, is_known,
  insert_once, sorted_set, same_list, all_digests, is_boundary, boundary_of, read_boundary,
  resets_of, read_identity, get_or, or_value_error, is_version, is_request, same_signatures,
  read_offset, load, no_files, reopened, init,
}
use chat_downloader_fork.Checkpoint.RoundTrip.{AllPositive, Rising, Saveable}

abbrev Positive : Option Events → Type 0
Positive none = Unit
Positive (some e) = AllPositive e

add_event-Positive :
    (k : String) (n : ℕ) (rest : Option Events)
    → Positive rest
    → Positive (add_event k (suc n) rest)
add_event-Positive k n none h = tt
add_event-Positive k n (some rest) h = (omega arith, h)

read_events-Positive : (f : Fields) → Positive (read_events f)
unfolding read_events
read_events-Positive end = tt
read_events-Positive (field k (int (pos (suc n))) rest) =
    add_event-Positive k n (read_events rest) (read_events-Positive rest)
read_events-Positive (field k null rest) = tt
read_events-Positive (field k (bool b) rest) = tt
read_events-Positive (field k (int (pos zero)) rest) = tt
read_events-Positive (field k (int (negsuc n)) rest) = tt
read_events-Positive (field k (real x) rest) = tt
read_events-Positive (field k (text s) rest) = tt
read_events-Positive (field k (arr a) rest) = tt
read_events-Positive (field k (obj f) rest) = tt

abbrev AllIn : ℕ → List ℕ → Type 0
AllIn total [] = Unit
AllIn total (n ∷ rest) = (0 < n) × (n ≤ total) × AllIn total rest

abbrev Within : ℕ → Option (List ℕ) → Type 0
Within total none = Unit
Within total (some xs) = AllIn total xs

add_reset-Within :
    (total n : ℕ) (rest : Option (List ℕ))
    → n < total
    → Within total rest
    → Within total (add_reset (suc n) rest)
add_reset-Within total n none lt h = tt
add_reset-Within total n (some rest) lt h = (omega arith, omega arith, h)

read_resets-Within : (total : ℕ) (xs : Items) → Within total (read_resets total xs)
unfolding read_resets
read_resets-Within total nil = tt
read_resets-Within total (cons (int (pos (suc n))) rest) = elim (Bool-cases (leb (suc n) total)) [
  | inl fits ↦
      rw (fits, read_resets)
        (add_reset-Within total n (read_resets total rest) (ground arith)
          (read_resets-Within total rest))
  | inr over ↦ rw (over, read_resets) tt
]
read_resets-Within total (cons null rest) = tt
read_resets-Within total (cons (bool b) rest) = tt
read_resets-Within total (cons (int (pos zero)) rest) = tt
read_resets-Within total (cons (int (negsuc n)) rest) = tt
read_resets-Within total (cons (real x) rest) = tt
read_resets-Within total (cons (text s) rest) = tt
read_resets-Within total (cons (arr a) rest) = tt
read_resets-Within total (cons (obj f) rest) = tt

insert_once-Rising :
    (low high n : ℕ) (xs : List ℕ)
    → low < n
    → n ≤ high
    → Rising low high xs
    → Rising low high (insert_once n xs)
unfolding insert_once
insert_once-Rising low high n [] lt le h = (lt, le, tt)
insert_once-Rising low high n (m ∷ rest) lt le (a, b, k) = elim (Bool-cases (ltb n m)) [
  | inl before ↦ rw (before, insert_once) (lt, le, (ground arith, b, k))
  | inr up ↦ elim (Bool-cases (ltb m n)) [
    | inl after ↦
        rw (up, after, insert_once) (a, b, insert_once-Rising m high n rest (ground arith) le k)
    | inr same ↦ rw (up, same, insert_once) (a, b, k)
  ]
]

sorted_set-Rising : (total : ℕ) (xs : List ℕ) → AllIn total xs → Rising 0 total (sorted_set xs)
unfolding sorted_set
sorted_set-Rising total [] h = tt
sorted_set-Rising total (n ∷ rest) (a, b, k) =
    insert_once-Rising 0 total n (sorted_set rest) a b (sorted_set-Rising total rest k)

same_list-eq : (xs ys : List ℕ) → same_list xs ys ≡ true → xs ≡ ys
same_list-eq [] [] h = refl
same_list-eq [] (y ∷ ys) h = absurd (ground arith)
same_list-eq (x ∷ xs) [] h = absurd (ground arith)
same_list-eq (x ∷ xs) (y ∷ ys) h =
    let heads : (x == y) ≡ true = ground arith in
    let tails : same_list xs ys ≡ true = ground arith in
    let e : x ≡ y = ground (arith, ==_iff x y) in let f = same_list-eq xs ys tails in cc

same_list-Rising :
    (total : ℕ) (xs : List ℕ)
    → AllIn total xs
    → same_list (sorted_set xs) xs ≡ true
    → Rising 0 total xs
same_list-Rising total xs h same =
    subst (Rising 0 total) (same_list-eq (sorted_set xs) xs same) (sorted_set-Rising total xs h)

some_injective : {A : Type 0} {a b : A} → some a ≡ some b → a ≡ b
some_injective e = cc

module _ (is_digest : String → Bool) where
  -- What the guards on the boundary tell
  pub record Boundary (c : Checkpoint) : Type 0 where
    pub bounded : length c.events ≤ boundary_limit
    pub positive : AllPositive c.events
    pub digests : all_digests is_digest c.events ≡ true
    pub known : is_filled c.events ≡ is_known c.offset
    pub counted : ltb 0 c.total ≡ is_filled c.events
    pub summed : sum_of c.events ≤ c.total

  is_boundary-Boundary :
      (c : Checkpoint)
      → AllPositive c.events
      → is_boundary is_digest c.offset c.events c.total ≡ true
      → Boundary c
  unfolding is_boundary
  is_boundary-Boundary c positive h = record {
    bounded = ground arith;
    positive = positive;
    digests = ground arith;
    known = ground arith;
    counted = ground arith;
    summed = ground arith;
  }

  boundary_of-Boundary :
      (loss : Bool) (total : ℕ) (offset : Option (Option ℤ)) (events : Option Events)
      (c bounded : Checkpoint)
      → Positive events
      → boundary_of is_digest loss total offset events c ≡ some bounded
      → Boundary bounded
  boundary_of-Boundary loss total none events c bounded positive e = absurd (ground arith)
  boundary_of-Boundary loss total (some offset) none c bounded positive e = absurd (ground arith)
  boundary_of-Boundary loss total (some offset) (some events) c bounded positive e =
      elim (Bool-cases (is_boundary is_digest offset events total)) [
        | inl good ↦
            let made : Checkpoint = record c {
              record_loss = loss;
              offset = offset;
              events = events;
              total = total;
            } in
            subst Boundary (some_injective (rw good at e)) (is_boundary-Boundary made positive good)
        | inr bad ↦ absurd (ground (arith, bad))
      ]

  read_boundary-Boundary :
      (loss offset events total : Json) (c bounded : Checkpoint)
      → read_boundary is_digest loss offset events total c ≡ some bounded
      → Boundary bounded
  unfolding read_boundary
  read_boundary-Boundary (bool b) offset (obj events) (int (pos total)) c bounded e =
      boundary_of-Boundary b total (read_offset offset) (read_events events) c bounded
        (read_events-Positive events) e
  read_boundary-Boundary null offset events total c bounded e = absurd (ground arith)
  read_boundary-Boundary (int i) offset events total c bounded e = absurd (ground arith)
  read_boundary-Boundary (real x) offset events total c bounded e = absurd (ground arith)
  read_boundary-Boundary (text s) offset events total c bounded e = absurd (ground arith)
  read_boundary-Boundary (arr a) offset events total c bounded e = absurd (ground arith)
  read_boundary-Boundary (obj f) offset events total c bounded e = absurd (ground arith)
  read_boundary-Boundary (bool b) offset null total c bounded e = absurd (ground arith)
  read_boundary-Boundary (bool b) offset (bool d) total c bounded e = absurd (ground arith)
  read_boundary-Boundary (bool b) offset (int i) total c bounded e = absurd (ground arith)
  read_boundary-Boundary (bool b) offset (real x) total c bounded e = absurd (ground arith)
  read_boundary-Boundary (bool b) offset (text s) total c bounded e = absurd (ground arith)
  read_boundary-Boundary (bool b) offset (arr a) total c bounded e = absurd (ground arith)
  read_boundary-Boundary (bool b) offset (obj f) null c bounded e = absurd (ground arith)
  read_boundary-Boundary (bool b) offset (obj f) (bool d) c bounded e = absurd (ground arith)
  read_boundary-Boundary (bool b) offset (obj f) (int (negsuc n)) c bounded e =
      absurd (ground arith)
  read_boundary-Boundary (bool b) offset (obj f) (real x) c bounded e = absurd (ground arith)
  read_boundary-Boundary (bool b) offset (obj f) (text s) c bounded e = absurd (ground arith)
  read_boundary-Boundary (bool b) offset (obj f) (arr a) c bounded e = absurd (ground arith)
  read_boundary-Boundary (bool b) offset (obj f) (obj g) c bounded e = absurd (ground arith)

  resets_of-Saveable :
      (resets : Option (List ℕ)) (id : String) (c last : Checkpoint)
      → Within c.total resets
      → Boundary c
      → resets_of resets id c ≡ some last
      → Saveable is_digest last 0
  resets_of-Saveable none id c last within k e = absurd (ground arith)
  resets_of-Saveable (some resets) id c last within k e =
      elim (Bool-cases (same_list (sorted_set resets) resets)) [
        | inl same ↦
            subst (λ d. Saveable is_digest d 0) (some_injective (rw same at e))
              (record {
                bounded = k.bounded;
                positive = k.positive;
                digests = k.digests;
                known = k.known;
                counted = ground (arith, k.counted);
                summed = omega (arith, k.summed);
                rising = same_list-Rising c.total resets within same;
              })
        | inr other ↦ absurd (ground (arith, other))
      ]

  read_identity-Saveable :
      (id resets : Json) (c last : Checkpoint)
      → Boundary c
      → read_identity id resets c ≡ some last
      → Saveable is_digest last 0
  unfolding read_identity
  read_identity-Saveable (text s) (arr xs) c last k e =
      resets_of-Saveable (read_resets c.total xs) s c last (read_resets-Within c.total xs) k e
  read_identity-Saveable null resets c last k e = absurd (ground arith)
  read_identity-Saveable (bool b) resets c last k e = absurd (ground arith)
  read_identity-Saveable (int i) resets c last k e = absurd (ground arith)
  read_identity-Saveable (real x) resets c last k e = absurd (ground arith)
  read_identity-Saveable (arr a) resets c last k e = absurd (ground arith)
  read_identity-Saveable (obj f) resets c last k e = absurd (ground arith)
  read_identity-Saveable (text r) null c last k e = absurd (ground arith)
  read_identity-Saveable (text r) (bool b) c last k e = absurd (ground arith)
  read_identity-Saveable (text r) (int i) c last k e = absurd (ground arith)
  read_identity-Saveable (text r) (real x) c last k e = absurd (ground arith)
  read_identity-Saveable (text r) (text s) c last k e = absurd (ground arith)
  read_identity-Saveable (text r) (obj f) c last k e = absurd (ground arith)

  -- The two reads after the guards on the request and the files
  reads-Saveable :
      (bounded : Option Checkpoint) (id resets : Json) (last : Checkpoint)
      → ((c : Checkpoint) → bounded ≡ some c → Boundary c)
      → (or_value_error bounded >>= λ c. or_value_error (read_identity id resets c)) ≡ ok last
      → Saveable is_digest last 0
  reads-Saveable none id resets last k e = absurd (ground arith)
  reads-Saveable (some c) id resets last k e = elim (Option-cases (read_identity id resets c)) [
    | inl none_ ↦ absurd (ground (arith, none_))
    | inr (d, is) ↦
        subst (λ x. Saveable is_digest x 0) (ok_injective (rw is at e))
          (read_identity-Saveable id resets c d (k c refl) is)
  ]

  load-Saveable :
      (fingerprint : String) (signatures : List (Option String)) (state : Json)
      (c last : Checkpoint)
      → load is_digest fingerprint signatures state c ≡ ok last
      → Saveable is_digest last 0
  unfolding load
  load-Saveable fingerprint signatures (obj state) c last e =
      elim (Bool-cases (
        not (is_version (get "version" state))
        || not (is_request (get "request" state) fingerprint))) [
          | inl other ↦ absurd (ground (arith, other))
          | inr same ↦
              elim (Bool-cases (not (same_signatures (get "artifacts" state) signatures))) [
                | inl changed ↦ absurd (ground (arith, changed))
                | inr kept ↦
                    reads-Saveable _ (get "chat_id" state) (get_or "resets" (arr nil) state) last
                      (read_boundary-Boundary (get_or "record_loss" (bool false) state)
                        (get "offset" state) (get "events" state) (get "total" state) c)
                      (rw (same, kept) at e)
              ]
        ]
  load-Saveable fingerprint signatures null c last e = absurd (ground arith)
  load-Saveable fingerprint signatures (bool b) c last e = absurd (ground arith)
  load-Saveable fingerprint signatures (int n) c last e = absurd (ground arith)
  load-Saveable fingerprint signatures (real x) c last e = absurd (ground arith)
  load-Saveable fingerprint signatures (text s) c last e = absurd (ground arith)
  load-Saveable fingerprint signatures (arr xs) c last e = absurd (ground arith)

  reopen-Saveable :
      (limit : Option ℕ) (c : Checkpoint)
      → Saveable is_digest c 0
      → Saveable is_digest (reopen limit c) 0
  unfolding reopen
  reopen-Saveable limit c k = record {
    bounded = k.bounded;
    positive = k.positive;
    digests = k.digests;
    known = k.known;
    counted = k.counted;
    summed = k.summed;
    rising = k.rising;
  }

  reopened-Saveable :
      (limit : Option ℕ) (read : Result Checkpoint) (last : Checkpoint)
      → ((c : Checkpoint) → read ≡ ok c → Saveable is_digest c 0)
      → reopened limit read ≡ ok last
      → Saveable is_digest last 0
  reopened-Saveable limit (raise x) last k e = absurd (ground arith)
  reopened-Saveable limit (ok c) last k e =
      subst (λ x. Saveable is_digest x 0) (ok_injective e) (reopen-Saveable limit c (k c refl))

  new-Saveable : (limit : Option ℕ) → Saveable is_digest (new_checkpoint limit) 0
  unfolding new_checkpoint
  new-Saveable limit = record {
    bounded = omega arith;
    positive = tt;
    digests = refl;
    known = refl;
    counted = refl;
    summed = omega arith;
    rising = tt;
  }

  -- A checkpoint that is opened can be saved at once.
  pub init-Saveable :
      (limit : Option ℕ) (fingerprint : String) (signatures : List (Option String))
      (disk : Option Json) (last : Checkpoint)
      → init is_digest limit fingerprint signatures disk ≡ ok last
      → Saveable is_digest last 0
  unfolding init
  init-Saveable limit fingerprint signatures (some state) last e =
      reopened-Saveable limit (load is_digest fingerprint signatures state (new_checkpoint limit))
        last (load-Saveable fingerprint signatures state (new_checkpoint limit)) e
  init-Saveable limit fingerprint signatures none last e = elim (Bool-cases (no_files signatures)) [
    | inl clear ↦
        subst (λ x. Saveable is_digest x 0) (ok_injective (rw clear at e))
          (reopen-Saveable limit (new_checkpoint limit) (new-Saveable limit))
    | inr files ↦ absurd (ground (arith, files))
  ]
