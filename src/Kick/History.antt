-- ===== src/Kick/History.antt =====
-- `iter_reverse_history` of src/chat_downloader/sites/kick/history.py: bounded pagination from the
-- newest page back to the start of a time window.
pub mod Budget
pub mod Choice
pub mod Yields
mod Tests
use chat_downloader_fork.Base.{
  ℕ, suc, zero, ◌+◌, ◌-◌, ◌≡◌, String, Bool, true, false, ◌||◌, Option, none, some, List, [], ◌∷◌,
  ◌++◌, ℤ, ltb_ℤ, ltb, leb, if◌then◌else◌, ◌==◌, string_Eq, length, take, contains, pos,
}
use chat_downloader_fork.Base.Json.{Json, Fields}
use chat_downloader_fork.Base.Result.{Error, Result, ok, raise, kick_error, ◌>>=◌}
use chat_downloader_fork.Dedup.SeenCache.{SeenCache, register}
use chat_downloader_fork.Dedup.SeenCache as SeenCache
use chat_downloader_fork.Kick.Retry.{fetch_with_retry}
use chat_downloader_fork.Kick.Cursor.{is_not_earlier}
use chat_downloader_fork.Kick.Pages.{
  Page, Stamped, validate_page, message_identity, ordered_page_messages,
}

abbrev pub history_seen_message_limit : ℕ
history_seen_message_limit = 10000

-- What the code uses of its surroundings. `page` is the answer to an attempt at a page's request, and
-- `is_cancelled` tells whether the event is set, before a page's request or after its answer. `digits`
-- are the digits of a text of ASCII digits, and `none` for any other text.
pub record Client : Type 0 where
  pub page : ℕ → ℕ → String → Result Fields
  pub is_cancelled : ℕ → Bool → Bool
  pub digits : String → Option (List ℕ)
  pub page_digest : List Json → String
  pub iso : String → Option ℤ
  pub str_of : Json → String
  pub max_attempts : ℕ

-- The request: the window's ends, in microseconds, and the two budgets.
pub record Request : Type 0 where
  pub start : ℤ
  pub stop : ℤ
  pub max_pages : ℕ
  pub max_records : ℕ

-- The generator's variables, and what it has yielded.
pub record Crawl : Type 0 where
  pub cursor : Option String
  pub requested_cursors : List String
  pub page_digests : List String
  pub seen_messages : SeenCache
  pub page_count : ℕ
  pub raw_record_count : ℕ
  pub yielded : List Fields

-- How a generator ends.
pub data Ending : Type 0 where
  returned : Ending
  failed : Error → Ending

pub data Turn : Type 0 where
  again : Crawl → Turn
  ended : Crawl → Ending → Turn

-- The records of a page that the loop over them yields.
pub record Selection : Type 0 where
  pub seen : SeenCache
  pub before_start : Bool
  pub chosen : List Fields

module _ (client : Client) (request : Request) where
  -- The cursor test, where both texts are decimal.
  abbrev pub moves_backwards : Option (List ℕ) → Option (List ℕ) → Bool
  moves_backwards (some next_cursor) (some requested) =
      if is_not_earlier next_cursor requested then false else true
  moves_backwards _ _ = true

  unfoldable pub cursor_allowed : String → Option String → Bool
  unfolding is_not_earlier
  cursor_allowed requested none = true
  cursor_allowed requested (some next_cursor) =
      moves_backwards (client.digits next_cursor) (client.digits requested)

  -- A record inside the window: yielded unless its id is known.
  abbrev pub select_new : Selection → Fields → Option String → Selection
  select_new s raw none = record s { chosen = s.chosen ++ raw ∷ [] }
  select_new s raw (some id) =
      let (cache, is_new, _) = register s.seen id in
      record s { seen = cache; chosen = if is_new then s.chosen ++ raw ∷ [] else s.chosen }

  unfoldable pub select_one : Selection → Stamped → Selection
  unfolding register message_identity
  select_one s (time, raw) =
      if ltb_ℤ time request.start
      then record s { before_start = true }
      else if ltb_ℤ request.stop time
      then s
      else select_new s raw (message_identity client.iso client.str_of raw)

  unfoldable pub select_all : Selection → List Stamped → Selection
  unfolding select_one
  select_all s [] = s
  select_all s (x ∷ rest) = select_all (select_one s x) rest

  abbrev pub begin_selection : SeenCache → Selection
  begin_selection cache = record { seen = cache; before_start = false; chosen = [] }

  -- The page's records are cut to the budget, ordered, and selected.
  unfoldable pub read_records : Crawl → List Json → Turn
  unfolding select_all ordered_page_messages
  read_records c raw_messages =
      let room = request.max_records - c.raw_record_count in
      let kept = take room raw_messages in
      let s =
        select_all (begin_selection c.seen_messages)
          (ordered_page_messages client.iso client.str_of kept) in
      let c' = record c {
        seen_messages = s.seen;
        raw_record_count = c.raw_record_count + length kept;
        yielded = c.yielded ++ s.chosen;
      } in
      if ltb room (length raw_messages)
      then ended c' (failed kick_error)
      else if s.before_start
      then ended c' returned
      else again c'

  -- A page that came before is refused; an empty one is not compared.
  unfoldable pub read_page : Crawl → List Json → Turn
  unfolding read_records
  read_page c [] = read_records c []
  read_page c (x ∷ xs) =
      let digest = client.page_digest (x ∷ xs) in
      if contains digest c.page_digests
      then ended c (failed kick_error)
      else read_records (record c { page_digests = digest ∷ c.page_digests }) (x ∷ xs)

  unfoldable pub receive : Crawl → String → Result Page → Turn
  unfolding read_page cursor_allowed
  receive c requested (raise e) = ended c (failed e)
  receive c requested (ok (raw_messages, cursor)) =
      let c' = record c { cursor = cursor } in
      if client.is_cancelled c.page_count true
      then ended c' returned
      else if cursor_allowed requested cursor
      then read_page c' raw_messages
      else ended c' (failed kick_error)

  abbrev pub fetch : ℕ → String → Result Page
  fetch page_count cursor =
      fetch_with_retry (λ attempt. client.page page_count attempt cursor >>= validate_page)
        (λ attempt after. false) client.max_attempts

  -- The loop's body, at a cursor that is not empty.
  unfoldable pub turn_at : Crawl → String → Turn
  unfolding receive fetch_with_retry validate_page
  turn_at c cursor =
      if client.is_cancelled c.page_count false
      then ended c returned
      else if leb request.max_pages c.page_count || leb request.max_records c.raw_record_count
      then ended c (failed kick_error)
      else if contains cursor c.requested_cursors
      then ended c (failed kick_error)
      else let begun = record c {
        requested_cursors = cursor ∷ c.requested_cursors;
        page_count = c.page_count + 1;
      } in
        receive begun cursor (fetch begun.page_count cursor)

  unfoldable pub turn : Crawl → Turn
  unfolding turn_at
  turn c = elim c.cursor [
    | none ↦ ended c returned
    | some cursor ↦ if cursor == "" then ended c returned else turn_at c cursor
  ]

  -- The loop: `none` means that the fuel ran out.
  unfoldable pub run : ℕ → Crawl → Option (Crawl × Ending)
  unfolding turn
  run zero c = none
  run (suc fuel) c = elim (turn c) [ again c' ↦ run fuel c' | ended c' ending ↦ some (c', ending) ]

  -- The start, at the cursor after the window.
  abbrev pub begin_crawl : String → Crawl
  begin_crawl cursor = record {
    cursor = some cursor;
    requested_cursors = [];
    page_digests = [];
    seen_messages = SeenCache.init_int (pos history_seen_message_limit);
    page_count = 0;
    raw_record_count = 0;
    yielded = [];
  }

  unfoldable pub iter_reverse_history : String → ℕ → Option (Crawl × Ending)
  unfolding run SeenCache.init_int
  iter_reverse_history cursor_after fuel =
      if ltb_ℤ request.stop request.start
      then some (begin_crawl cursor_after, returned)
      else run fuel (begin_crawl cursor_after)
