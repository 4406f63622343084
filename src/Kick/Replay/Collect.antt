-- ===== src/Kick/Replay/Collect.antt =====
-- The loop that collects the pages of a replay, newest first.
use chat_downloader_fork.Base.{
  ℕ, zero, suc, ◌+◌, ◌-◌, String, Bool, true, false, not, ◌&&◌, ◌||◌, Option, none, some, List, [],
  ◌∷◌, ◌++◌, ℤ, negsuc, pos, ltb_ℤ, leb, if◌then◌else◌, ◌==◌, string_Eq, length, contains,
}
use chat_downloader_fork.Base.Json.{Json, obj, Fields, get, has}
use chat_downloader_fork.Base.Result.{Error, Result, ok, raise, kick_error, key_error, ◌>>=◌}
use chat_downloader_fork.Dedup.SeenCache.{SeenCache, register}
use chat_downloader_fork.Dedup.SeenCache as SeenCache
use chat_downloader_fork.Filters.Types.{should_add}
use chat_downloader_fork.Kick.Retry.{fetch_with_retry}
use chat_downloader_fork.Kick.Pages.{Page, validate_page, message_timestamp}
use chat_downloader_fork.Kick.Replay.State.{
  Counts, no_counts, Source, Window, Classified, classify_message,
}

-- The loop's variables; `pages` are the pages in the spool, in the order in which they were written.
pub record Collection : Type 0 where
  pub cursor : Option String
  pub done : Bool
  pub pages : List (List Fields)
  pub requested_cursors : List String
  pub seen_page_digests : List String
  pub seen_messages : SeenCache
  pub counts : Counts

-- The loop goes on; it is left, with the whole history collected; the generator returns or raises.
pub data Step : Type 0 where
  more complete cancelled : Collection → Step
  failed : Collection → Error → Step

-- `datetime.min`, in microseconds since 1970
abbrev pub datetime_min : ℤ
datetime_min = negsuc 62135596799999999

-- The records of a page that are dictionaries.
unfoldable pub objects : List Json → List Fields
objects [] = []
objects (obj raw ∷ rest) = raw ∷ objects rest
objects (_ ∷ rest) = objects rest

abbrev pub or_min : Option ℤ → ℤ
or_min none = datetime_min
or_min (some time) = time

-- What one page's loop has: the cache, the counters, whether a record is older than the window, and
-- the page's messages.
pub record Selecting : Type 0 where
  pub seen : SeenCache
  pub counts : Counts
  pub done : Bool
  pub messages : List Fields

abbrev pub is_filled : Option String → Bool
is_filled none = false
is_filled (some s) = not (s == "")

module _ (source : Source) (window : Window) where
  abbrev pub sort_key : Fields → ℤ
  sort_key raw = or_min (message_timestamp source.iso source.str_of raw)

  -- A stable sort, latest first.
  abbrev pub insert_latest : Fields → List Fields → List Fields
  insert_latest x [] = x ∷ []
  insert_latest x (y ∷ rest) =
      if ltb_ℤ (sort_key y) (sort_key x) then x ∷ y ∷ rest else y ∷ insert_latest x rest

  unfoldable pub sort_latest : List Fields → List Fields → List Fields
  unfolding message_timestamp
  sort_latest sorted [] = sorted
  sort_latest sorted (x ∷ rest) = sort_latest (insert_latest x sorted) rest

  -- A message that passes the filter: kept unless its id is known.
  unfoldable pub keep_new : Selecting → Fields → Selecting
  unfolding register
  keep_new s message =
      let (cache, is_new, _) = register s.seen (source.str_of (get "message_id" message)) in
      if is_new
      then record s { seen = cache; messages = s.messages ++ message ∷ [] }
      else record s {
        seen = cache;
        counts = record s.counts { duplicate_records = s.counts.duplicate_records + 1 };
      }

  -- What the loop's body leaves, and the exception that it raised, if any.
  unfoldable pub keep_message : Selecting → Fields → Selecting × Option Error
  unfolding keep_new should_add
  keep_message s message = elim (should_add window.msg_filter message) [
    | raise e ↦ (s, some e)
    | ok false ↦ (
      record s { counts = record s.counts { filtered_records = s.counts.filtered_records + 1 } },
      none,
    )
    | ok true ↦ if has "message_id" message then (keep_new s message, none) else (s, some key_error)
  ]

  unfoldable pub keep_parsed : Selecting → Option Fields → Selecting × Option Error
  unfolding keep_message
  keep_parsed s none = (
    record s { counts = record s.counts { skipped_records = s.counts.skipped_records + 1 } },
    none,
  )
  keep_parsed s (some message) = keep_message s message

  abbrev pub keep_classified : Selecting → Result Classified → Selecting × Option Error
  keep_classified s (raise e) = (s, some e)
  keep_classified s (ok c) =
      keep_parsed (record s { counts = c.counts; done = s.done || c.is_done }) c.parsed

  -- The loop over the records of a page, up to the first exception.
  unfoldable pub select_records : Selecting → List Fields → Selecting × Option Error
  unfolding keep_parsed classify_message
  select_records s [] = (s, none)
  select_records s (raw ∷ rest) =
      let (s', failure) = keep_classified s (classify_message source window raw s.counts) in
      let later = select_records s' rest in elim failure [ none ↦ later | some e ↦ (s', some e) ]

  -- A page that is written to the spool, if it has messages; then the loop's last test.
  unfoldable pub store_page : Collection → Selecting → Step
  store_page c s =
      let counts = record s.counts {
        selected_records = s.counts.selected_records + length s.messages;
      } in
      let c' = record c {
        done = s.done;
        seen_messages = s.seen;
        counts = counts;
        pages = elim s.messages [ [] ↦ c.pages | m ∷ ms ↦ c.pages ++ (m ∷ ms) ∷ [] ];
      } in
      if not (is_filled c.cursor) || s.done then complete c' else more c'

  -- The malformed records are counted, the others are ordered and selected.
  unfoldable pub read_records : Collection → List Json → Step
  unfolding sort_latest objects select_records store_page
  read_records c raw_messages =
      let ordered = sort_latest [] (objects raw_messages) in
      let malformed = length raw_messages - length ordered in
      let counts = record c.counts {
        skipped_records = c.counts.skipped_records + malformed;
        malformed_object = c.counts.malformed_object + malformed;
      } in
      let (s, failure) =
        select_records
          (record { seen = c.seen_messages; counts = counts; done = c.done; messages = [] })
          ordered in
      elim failure [
        | some e ↦ failed (record c { counts = s.counts; seen_messages = s.seen; done = s.done }) e
        | none ↦ store_page c s
      ]

  unfoldable pub read_page : Collection → List Json → Step
  unfolding read_records
  read_page c [] =
      let c' = record c { counts = record c.counts { empty_pages = c.counts.empty_pages + 1 } } in
      if is_filled c.cursor then more c' else complete c'
  read_page c (x ∷ xs) =
      let digest = source.page_digest (x ∷ xs) in
      if contains digest c.seen_page_digests
      then failed c kick_error
      else read_records (record c { seen_page_digests = digest ∷ c.seen_page_digests }) (x ∷ xs)

  -- `int(cursor) >= int(requested_cursor)`, where both are decimal
  abbrev pub compare_values : Option (Result ℕ) → Option (Result ℕ) → Result Bool
  compare_values (some next_value) (some requested_value) = do
    a ← next_value
    b ← requested_value
    ok (leb b a)
  compare_values _ _ = ok false

  unfoldable pub moves_forward : Option String → Option String → Result Bool
  moves_forward (some requested) (some next_cursor) =
      if source.ascii_digits next_cursor && not (requested == "")
      then compare_values (source.digit_value next_cursor) (source.digit_value requested)
      else ok false
  moves_forward _ _ = ok false

  unfoldable pub receive : Collection → Option String → Result Page → Step
  unfolding read_page moves_forward
  receive c requested (raise e) = failed c e
  receive c requested (ok (raw_messages, cursor)) =
      let c' = record c { cursor = cursor } in
      let counted = record c' {
        counts = record c.counts {
          pages = c.counts.pages + 1;
          raw_records = c.counts.raw_records + length raw_messages;
        };
      } in
      if source.is_cancelled c.counts.pages true
      then cancelled c'
      else elim (moves_forward requested cursor) [
        | raise e ↦ failed counted e
        | ok true ↦ failed counted kick_error
        | ok false ↦ read_page counted raw_messages
      ]

  abbrev pub fetch : ℕ → Option String → Result Page
  fetch pages cursor =
      fetch_with_retry (λ attempt. source.page pages attempt cursor >>= validate_page)
        (source.is_cancelled_retry pages) source.max_attempts

  abbrev pub was_requested : Option String → List String → Bool
  was_requested none cursors = false
  was_requested (some cursor) cursors = contains cursor cursors

  abbrev pub add_cursor : Option String → List String → List String
  add_cursor none cursors = cursors
  add_cursor (some cursor) cursors = cursor ∷ cursors

  -- The body of `while not done`.
  unfoldable pub step : Collection → Step
  unfolding receive fetch_with_retry validate_page
  step c =
      if source.is_cancelled c.counts.pages false
      then cancelled c
      else if was_requested c.cursor c.requested_cursors
      then failed c kick_error
      else let begun = record c { requested_cursors = add_cursor c.cursor c.requested_cursors } in
        receive begun c.cursor (fetch c.counts.pages c.cursor)

  -- The loop: `none` means that the fuel ran out.
  unfoldable pub collect : ℕ → Collection → Option Step
  unfolding step
  collect zero c = none
  collect (suc fuel) c = elim (step c) [
    | more c' ↦ collect fuel c'
    | complete c' ↦ some (complete c')
    | cancelled c' ↦ some (cancelled c')
    | failed c' e ↦ some (failed c' e)
  ]

  abbrev pub begin_collection : String → Collection
  begin_collection cursor = record {
    cursor = some cursor;
    done = false;
    pages = [];
    requested_cursors = [];
    seen_page_digests = [];
    seen_messages = SeenCache.init_int (pos 10000);
    counts = no_counts;
  }
