-- ===== src/Checkpoint/Persist.antt =====
-- The checkpoint's file: `save` and `_load` of `CaptureCheckpoint`, with the end of its `__init__`. The
-- file's JSON is taken to read back as it was written; a dictionary's order does not matter.
use chat_downloader_fork.Base.{
  ℕ, suc, ◌+◌, String, Bool, true, false, not, ◌&&◌, ◌||◌, Option, none, some, List, [], ◌∷◌,
  if◌then◌else◌, ◌==◌, string_Eq, int_Eq, nat_Eq, ℤ, pos, ltb, leb, length,
}
use chat_downloader_fork.Base.Json.{
  Json, null, bool, int, real, text, arr, obj, Items, nil, cons, Fields, end, field, get, has,
  finite,
}
use chat_downloader_fork.Base.Result.{Result, ok, raise, value_error, chat_error, ◌>>=◌}
use chat_downloader_fork.Output.Dispatcher.{Dispatcher, counts_match}
use chat_downloader_fork.Run.Policy.{has_record_loss}
use chat_downloader_fork.Checkpoint.Events.{Events}
use chat_downloader_fork.Checkpoint.Stream.{offset_of}
use chat_downloader_fork.Checkpoint.State.{Checkpoint, boundary_limit, reset_positions, reopen}

-- A checkpoint of a request that has none on disk.
unfoldable pub new_checkpoint : Option ℕ → Checkpoint
new_checkpoint limit = record {
  offset = none;
  events = [];
  total = 0;
  resets = [];
  chat_id = none;
  completed = false;
  record_loss = false;
  limit = limit;
  prior_offset = none;
  prior_events = [];
}

-- How the fields are written.
abbrev pub signature_json : Option String → Json
signature_json none = null
signature_json (some hash) = text hash

unfoldable pub signatures_json : List (Option String) → Items
signatures_json [] = nil
signatures_json (s ∷ rest) = cons (signature_json s) (signatures_json rest)

abbrev pub offset_json : Option ℤ → Json
offset_json none = null
offset_json (some offset) = real (finite offset)

unfoldable pub events_json : Events → Fields
events_json [] = end
events_json ((k, n) ∷ rest) = field k (int (pos n)) (events_json rest)

unfoldable pub resets_json : List ℕ → Items
resets_json [] = nil
resets_json (n ∷ rest) = cons (int (pos n)) (resets_json rest)

unfoldable pub state_json : String → List (Option String) → Bool → Checkpoint → Fields
unfolding signatures_json events_json resets_json
state_json fingerprint artifacts record_loss c = field "version" (int (pos 2)) (
    field "request" (text fingerprint) (
      field "chat_id" (signature_json c.chat_id) (
        field "offset" (offset_json c.offset) (
          field "events" (obj (events_json c.events)) (
            field "total" (int (pos c.total)) (
              field "resets" (arr (resets_json c.resets)) (
                field "completed" (bool (c.completed && not record_loss)) (
                  field "record_loss" (bool record_loss)
                    (field "artifacts" (arr (signatures_json artifacts)) end)))))))))

-- `save`, with the dictionary that it writes. `artifacts` are the files' signatures.
unfoldable pub save :
    String
    → Option Dispatcher
    → ℕ
    → Fields
    → List (Option String)
    → ℕ
    → Checkpoint
    → Result (Checkpoint × Fields)
unfolding counts_match reset_positions has_record_loss state_json
save fingerprint none write_error_count diagnostics artifacts count c = raise chat_error
save fingerprint (some dispatcher) write_error_count diagnostics artifacts count c =
    let saved = record c { resets = reset_positions c count; total = c.total + count } in
    if ltb 0 write_error_count || not (counts_match count dispatcher)
    then raise chat_error
    else ok (saved, state_json fingerprint artifacts (has_record_loss diagnostics) saved)

-- How the fields are read.
abbrev pub is_version : Json → Bool
is_version (int n) = n == pos 2
is_version (real (finite x)) = x == pos 2000000
is_version _ = false

abbrev pub is_request : Json → String → Bool
is_request (text s) fingerprint = s == fingerprint
is_request _ fingerprint = false

abbrev pub is_signature : Json → Option String → Bool
is_signature null none = true
is_signature (text s) (some hash) = s == hash
is_signature _ _ = false

unfoldable pub same_items : Items → List (Option String) → Bool
same_items nil [] = true
same_items (cons v rest) (s ∷ more) = is_signature v s && same_items rest more
same_items _ _ = false

abbrev pub same_signatures : Json → List (Option String) → Bool
same_signatures (arr items) signatures = same_items items signatures
same_signatures _ signatures = false

-- `none` for a value that the guards refuse
abbrev pub read_offset : Json → Option (Option ℤ)
read_offset null = some none
read_offset value = elim (offset_of value) [ none ↦ none | some offset ↦ some (some offset) ]

abbrev pub add_event : String → ℕ → Option Events → Option Events
add_event k n none = none
add_event k n (some rest) = some ((k, n) ∷ rest)

unfoldable pub read_events : Fields → Option Events
read_events end = some []
read_events (field k (int (pos (suc n))) rest) = add_event k (suc n) (read_events rest)
read_events _ = none

abbrev pub add_reset : ℕ → Option (List ℕ) → Option (List ℕ)
add_reset n none = none
add_reset n (some rest) = some (n ∷ rest)

unfoldable pub read_resets : ℕ → Items → Option (List ℕ)
read_resets total nil = some []
read_resets total (cons (int (pos (suc n))) rest) =
    let more = add_reset (suc n) (read_resets total rest) in
    if leb (suc n) total then more else none
read_resets total _ = none

abbrev pub sum_of : Events → ℕ
sum_of [] = 0
sum_of ((k, n) ∷ rest) = n + sum_of rest

abbrev pub is_filled : Events → Bool
is_filled [] = false
is_filled (e ∷ rest) = true

abbrev pub is_known : Option ℤ → Bool
is_known none = false
is_known (some offset) = true

abbrev pub equal : Bool → Bool → Bool
equal true b = b
equal false b = not b

-- `sorted(set(xs))`
unfoldable pub insert_once : ℕ → List ℕ → List ℕ
insert_once n [] = n ∷ []
insert_once n (m ∷ rest) =
    let later = m ∷ insert_once n rest in
    if ltb n m then n ∷ m ∷ rest else if ltb m n then later else m ∷ rest

unfoldable pub sorted_set : List ℕ → List ℕ
unfolding insert_once
sorted_set [] = []
sorted_set (n ∷ rest) = insert_once n (sorted_set rest)

abbrev pub same_list : List ℕ → List ℕ → Bool
same_list [] [] = true
same_list (a ∷ as_) (b ∷ bs) = (a == b) && same_list as_ bs
same_list _ _ = false

abbrev pub resets_of : Option (List ℕ) → String → Checkpoint → Option Checkpoint
resets_of none id c = none
resets_of (some resets) id c =
    if same_list (sorted_set resets) resets
    then some (record c { chat_id = some id; resets = resets })
    else none

unfoldable pub read_identity : Json → Json → Checkpoint → Option Checkpoint
unfolding read_resets sorted_set
read_identity (text id) (arr resets) c = resets_of (read_resets c.total resets) id c
read_identity _ resets c = none

abbrev pub get_or : String → Json → Fields → Json
get_or key default state = if has key state then get key state else default

abbrev pub or_value_error : Option Checkpoint → Result Checkpoint
or_value_error none = raise value_error
or_value_error (some c) = ok c

abbrev pub no_files : List (Option String) → Bool
no_files [] = true
no_files (none ∷ rest) = no_files rest
no_files (some hash ∷ rest) = false

abbrev pub reopened : Option ℕ → Result Checkpoint → Result Checkpoint
reopened limit (raise e) = raise e
reopened limit (ok c) = ok (reopen limit c)

-- `is_digest` tells that a text is 64 hexadecimal digits.
module _ (is_digest : String → Bool) where
  abbrev pub all_digests : Events → Bool
  all_digests [] = true
  all_digests ((k, n) ∷ rest) = is_digest k && all_digests rest

  -- The guards on the boundary, besides those that reading the fields takes
  unfoldable pub is_boundary : Option ℤ → Events → ℕ → Bool
  is_boundary offset events total =
      leb (length events) boundary_limit
      && equal (is_filled events) (is_known offset)
      && equal (ltb 0 total) (is_filled events)
      && leb (sum_of events) total
      && all_digests events

  -- The values that the guards let through
  abbrev pub boundary_of :
      Bool → ℕ → Option (Option ℤ) → Option Events → Checkpoint → Option Checkpoint
  boundary_of record_loss total (some offset) (some events) c =
      if is_boundary offset events total
      then some
          (record c { record_loss = record_loss; offset = offset; events = events; total = total })
      else none
  boundary_of record_loss total _ _ c = none

  unfoldable pub read_boundary : Json → Json → Json → Json → Checkpoint → Option Checkpoint
  unfolding is_boundary read_events
  read_boundary (bool record_loss) offset (obj events) (int (pos total)) c =
      boundary_of record_loss total (read_offset offset) (read_events events) c
  read_boundary _ offset events total c = none

  -- `_load`, with the request's fingerprint and the signatures of the files as they are.
  unfoldable pub load : String → List (Option String) → Json → Checkpoint → Result Checkpoint
  unfolding read_boundary read_identity same_items
  load fingerprint signatures (obj state) c =
      if not (is_version (get "version" state))
        || not (is_request (get "request" state) fingerprint)
      then raise value_error
      else if not (same_signatures (get "artifacts" state) signatures)
      then raise value_error
      else or_value_error (
          read_boundary (get_or "record_loss" (bool false) state) (get "offset" state)
            (get "events" state) (get "total" state) c)
        >>= λ bounded.
            or_value_error
              (read_identity (get "chat_id" state) (get_or "resets" (arr nil) state) bounded)
  load fingerprint signatures _ c = raise value_error

  -- The end of `__init__`, where `disk` is the checkpoint's file, if there is one.
  unfoldable pub init : Option ℕ → String → List (Option String) → Option Json → Result Checkpoint
  unfolding load reopen new_checkpoint
  init limit fingerprint signatures (some state) =
      reopened limit (load fingerprint signatures state (new_checkpoint limit))
  init limit fingerprint signatures none =
      if no_files signatures then ok (reopen limit (new_checkpoint limit)) else raise value_error
