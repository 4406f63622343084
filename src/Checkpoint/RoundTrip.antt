-- ===== src/Checkpoint/RoundTrip.antt =====
-- A checkpoint that is saved can be loaded again.
use mathlib.Core.Path.{subst}
use chat_downloader_fork.Base.{
  ℕ, zero, suc, ◌+◌, ◌≤◌, ◌<◌, ◌≡◌, refl, sym, ap, String, Bool, true, false, not, ◌&&◌, ◌||◌,
  Option, none, some, List, [], ◌∷◌, ◌++◌, if◌then◌else◌, ==_refl, string_Eq, nat_Eq, int_Eq, ℤ,
  pos, ltb, leb, length, arith,
}
use chat_downloader_fork.Base.Json.{bool, int, arr, obj, Fields}
use chat_downloader_fork.Base.Result.{Result, ok, raise, chat_error, ok_injective}
use chat_downloader_fork.Output.Dispatcher.{Dispatcher, counts_match}
use chat_downloader_fork.Run.Policy.{has_record_loss}
use chat_downloader_fork.Checkpoint.Events.{Events}
use chat_downloader_fork.Checkpoint.Stream.{offset_of}
use chat_downloader_fork.Checkpoint.State.{Checkpoint, boundary_limit, reset_positions, reopen}
use chat_downloader_fork.Checkpoint.Persist.{
  new_checkpoint, signatures_json, offset_json, events_json, resets_json, state_json, save,
  same_items, read_offset, read_events, read_resets, sum_of, is_filled, is_known, equal,
  insert_once, sorted_set, same_list, all_digests, is_boundary, read_boundary, read_identity, load,
  init, or_value_error, signature_json,
}

abbrev pub AllPositive : Events → Type 0
AllPositive [] = Unit
AllPositive ((k, n) ∷ rest) = (0 < n) × AllPositive rest

-- The positions rise from above `low` up to `high`.
abbrev pub Rising : ℕ → ℕ → List ℕ → Type 0
Rising low high [] = Unit
Rising low high (n ∷ rest) = (low < n) × (n ≤ high) × Rising n high rest

-- A checkpoint whose run has accepted `count` records so far.
pub record Saveable (is_digest : String → Bool) (c : Checkpoint) (count : ℕ) : Type 0 where
  pub bounded : length c.events ≤ boundary_limit
  pub positive : AllPositive c.events
  pub digests : all_digests is_digest c.events ≡ true
  pub known : is_filled c.events ≡ is_known c.offset
  pub counted : ltb 0 (c.total + count) ≡ is_filled c.events
  pub summed : sum_of c.events ≤ c.total + count
  pub rising : Rising 0 c.total c.resets

read_events-events_json : (e : Events) → AllPositive e → read_events (events_json e) ≡ some e
unfolding read_events events_json
read_events-events_json [] h = refl
read_events-events_json ((k, zero) ∷ rest) (h, more) = absurd (ground arith)
read_events-events_json ((k, suc n) ∷ rest) (h, more) = rw (read_events-events_json rest more) refl

read_resets-resets_json :
    (low high : ℕ) (xs : List ℕ) → Rising low high xs → read_resets high (resets_json xs) ≡ some xs
unfolding read_resets resets_json
read_resets-resets_json low high [] h = refl
read_resets-resets_json low high (zero ∷ rest) (lt, le, more) = absurd (ground arith)
read_resets-resets_json low high (suc n ∷ rest) (lt, le, more) =
    let fits : leb (suc n) high ≡ true = ground arith in
    rw (read_resets-resets_json (suc n) high rest more, fits) refl

insert_once-Rising : (n high : ℕ) (xs : List ℕ) → Rising n high xs → insert_once n xs ≡ n ∷ xs
unfolding insert_once
insert_once-Rising n high [] h = refl
insert_once-Rising n high (m ∷ rest) (lt, le, more) = ground arith

sorted_set-Rising : (low high : ℕ) (xs : List ℕ) → Rising low high xs → sorted_set xs ≡ xs
unfolding sorted_set
sorted_set-Rising low high [] h = refl
sorted_set-Rising low high (n ∷ rest) (lt, le, more) =
    rw (sorted_set-Rising n high rest more) (insert_once-Rising n high rest more)

same_list_refl : (xs : List ℕ) → same_list xs xs ≡ true
same_list_refl [] = refl
same_list_refl (x ∷ xs) = rw (==_refl x) (same_list_refl xs)

same_items-signatures_json : (s : List (Option String)) → same_items (signatures_json s) s ≡ true
unfolding same_items signatures_json
same_items-signatures_json [] = refl
same_items-signatures_json (none ∷ rest) = same_items-signatures_json rest
same_items-signatures_json (some hash ∷ rest) = rw (==_refl hash) (same_items-signatures_json rest)

read_offset-offset_json : (o : Option ℤ) → read_offset (offset_json o) ≡ some o
unfolding offset_of
read_offset-offset_json none = refl
read_offset-offset_json (some offset) = refl

Rising-weaken :
    (low high more : ℕ) (xs : List ℕ) → Rising low high xs → high ≤ more → Rising low more xs
Rising-weaken low high more [] h le = tt
Rising-weaken low high more (n ∷ rest) (a, b, k) le =
    (a, omega arith, Rising-weaken n high more rest k le)

Rising-snoc :
    (low high n : ℕ) (xs : List ℕ)
    → Rising low high xs
    → low ≤ high
    → high < n
    → Rising low n (xs ++ n ∷ [])
Rising-snoc low high n [] h le lt = (omega arith, omega arith, tt)
Rising-snoc low high n (m ∷ rest) (a, b, k) le lt =
    (a, omega arith, Rising-snoc m high n rest k b lt)

-- The reset of an appended run stands after all earlier records.
reset_positions-Rising :
    (c : Checkpoint) (count : ℕ)
    → Rising 0 c.total c.resets
    → Rising 0 (c.total + count) (reset_positions c count)
unfolding reset_positions
reset_positions-Rising c zero h = Rising-weaken 0 c.total (c.total + 0) c.resets h (omega arith)
reset_positions-Rising c (suc n) h = by_case c.total h
  where
    by_case :
        (total : ℕ)
        → Rising 0 total c.resets
        → Rising 0 (total + suc n) (reset_positions (record c { total = total }) (suc n))
    by_case zero k = Rising-weaken 0 0 (0 + suc n) c.resets k (omega arith)
    by_case (suc t) k =
        Rising-weaken 0 (suc (suc t)) (suc t + suc n) (c.resets ++ suc (suc t) ∷ [])
          (Rising-snoc 0 (suc t) (suc (suc t)) c.resets k (omega arith) (omega arith)) (omega arith)

both-true : (a b : Bool) → a ≡ true → b ≡ true → (a && b) ≡ true
both-true a b h g = ground arith

equal-true : (a b : Bool) → a ≡ b → equal a b ≡ true
equal-true a b h = ground arith

leb-true : (a b : ℕ) → a ≤ b → leb a b ≡ true
leb-true a b h = ground arith

module _ (is_digest : String → Bool) where
  is_boundary-Saveable :
      (c : Checkpoint) (count : ℕ)
      → Saveable is_digest c count
      → is_boundary is_digest c.offset c.events (c.total + count) ≡ true
  unfolding is_boundary
  is_boundary-Saveable c count k =
      both-true _ _
        (both-true _ _
          (both-true _ _
            (both-true _ _ (leb-true (length c.events) boundary_limit k.bounded)
              (equal-true (is_filled c.events) (is_known c.offset) k.known))
            (equal-true (ltb 0 (c.total + count)) (is_filled c.events) k.counted))
          (leb-true (sum_of c.events) (c.total + count) k.summed))
        k.digests

  -- What is saved of a checkpoint
  abbrev pub saved_of : Checkpoint → ℕ → Checkpoint
  saved_of c count = record c { resets = reset_positions c count; total = c.total + count }

  read_boundary-saved :
      (c fresh : Checkpoint) (count : ℕ) (loss : Bool)
      → Saveable is_digest c count
      → read_boundary is_digest
          (bool loss)
          (offset_json c.offset)
          (obj (events_json c.events))
          (int (pos (c.total + count)))
          fresh
        ≡ some (record fresh {
          record_loss = loss;
          offset = c.offset;
          events = c.events;
          total = c.total + count;
        })
  unfolding read_boundary
  read_boundary-saved c fresh count loss k =
      rw
        (
          read_offset-offset_json c.offset,
          read_events-events_json c.events k.positive,
          is_boundary-Saveable c count k,
        )
        refl

  read_identity-saved :
      (c : Checkpoint) (total : ℕ) (known : Option String) (id : String) (resets : List ℕ)
      → c.total ≡ total
      → known ≡ some id
      → Rising 0 total resets
      → read_identity (signature_json known) (arr (resets_json resets)) c
        ≡ some (record c { chat_id = some id; resets = resets })
  unfolding read_identity
  read_identity-saved c total known id resets e named k =
      rw
        (
          named,
          e,
          read_resets-resets_json 0 total resets k,
          sorted_set-Rising 0 total resets k,
          same_list_refl resets,
        )
        refl

  load-state_json :
      (fingerprint id : String) (artifacts : List (Option String)) (loss : Bool)
      (c fresh : Checkpoint) (count : ℕ)
      → Saveable is_digest c count
      → c.chat_id ≡ some id
      → load is_digest fingerprint artifacts
          (obj (state_json fingerprint artifacts loss (saved_of c count)))
          fresh
        ≡ ok (record fresh {
          record_loss = loss;
          offset = c.offset;
          events = c.events;
          total = c.total + count;
          chat_id = some id;
          resets = reset_positions c count;
        })
  unfolding load state_json
  load-state_json fingerprint id artifacts loss c fresh count k named =
      rw
        (
          ==_refl fingerprint,
          same_items-signatures_json artifacts,
          read_boundary-saved c fresh count loss k,
        )
        (ap (λ r. or_value_error r)
          (read_identity-saved
            (record fresh {
              record_loss = loss;
              offset = c.offset;
              events = c.events;
              total = c.total + count;
            })
            (c.total + count) c.chat_id id (reset_positions c count) refl named
            (reset_positions-Rising c count k.rising)))

  -- A checkpoint that can be saved is read back as it was saved.
  pub init-save :
      (fingerprint id : String) (limit : Option ℕ) (dispatcher : Option Dispatcher)
      (write_error_count : ℕ) (diagnostics : Fields) (artifacts : List (Option String))
      (c saved : Checkpoint) (count : ℕ) (state : Fields)
      → Saveable is_digest c count
      → c.chat_id ≡ some id
      → save fingerprint dispatcher write_error_count diagnostics artifacts count c
        ≡ ok (saved, state)
      → init is_digest limit fingerprint artifacts (some (obj state))
        ≡ ok (reopen limit (record saved { record_loss = has_record_loss diagnostics }))
  unfolding save init reopen new_checkpoint
  init-save fingerprint id limit none errors diagnostics artifacts c saved count state k named is =
      absurd (ground arith)
  init-save fingerprint id limit (some d) errors diagnostics artifacts c saved count state k named
        is =
      by_case (ltb 0 errors || not (counts_match count d)) is
    where
      by_case :
          (refused : Bool)
          → let answer : Result (Checkpoint × Fields) = ok (
            saved_of c count,
            state_json fingerprint artifacts (has_record_loss diagnostics) (saved_of c count),
          ) in
            (if refused then raise chat_error else answer) ≡ ok (saved, state)
            → init is_digest limit fingerprint artifacts (some (obj state))
              ≡ ok (reopen limit (record saved { record_loss = has_record_loss diagnostics }))
      by_case true e = absurd (ground arith)
      by_case false e =
          subst
            (λ p.
              init is_digest limit fingerprint artifacts (some (obj p.1))
              ≡ ok (reopen limit (record p.0 { record_loss = has_record_loss diagnostics })))
            (ok_injective e)
            (rw
              (load-state_json fingerprint id artifacts (has_record_loss diagnostics) c
                (new_checkpoint limit) count k named)
              (ap
                (λ q. ok (
                  reopen limit (record (saved_of c count) {
                    record_loss = has_record_loss diagnostics;
                    chat_id = q;
                  })))
                (sym named)))
