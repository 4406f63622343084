-- ===== src/Kick/Replay/State.antt =====
-- The diagnostics of a replay, and `_classify_message`.
use chat_downloader_fork.Base.{
  ℕ, ◌+◌, String, Bool, true, false, Option, none, some, List, ℤ, ltb_ℤ, if◌then◌else◌,
}
use chat_downloader_fork.Base.Json.{Json, text, Fields, get, has}
use chat_downloader_fork.Base.Result.{Result, ok, raise, parsing_error}
use chat_downloader_fork.Filters.Types.{Filter}

-- The counters of the diagnostics. A missing counter is 0.
pub record Counts : Type 0 where
  pub pages : ℕ
  pub raw_records : ℕ
  pub empty_pages : ℕ
  pub skipped_records : ℕ
  pub malformed_object : ℕ
  pub malformed_timestamp : ℕ
  pub before_start : ℕ
  pub after_end : ℕ
  pub parse_error : ℕ
  pub filtered_records : ℕ
  pub duplicate_records : ℕ
  pub selected_records : ℕ

abbrev pub no_counts : Counts
no_counts = record {
  pages = 0;
  raw_records = 0;
  empty_pages = 0;
  skipped_records = 0;
  malformed_object = 0;
  malformed_timestamp = 0;
  before_start = 0;
  after_end = 0;
  parse_error = 0;
  filtered_records = 0;
  duplicate_records = 0;
  selected_records = 0;
}

-- What the code uses of its surroundings. `page` answers an attempt at a page's request;
-- `is_cancelled` tells whether the event is set, before a page's request or after its answer, and
-- `is_cancelled_retry` before an attempt or after its failure. `ascii_digits` tells `isascii()` and
-- `isdigit()`, and `digit_value` gives what `int` gives for a text for which `isdigit()` holds.
-- `parse` is `parse_chat_message`.
pub record Source : Type 0 where
  pub page : ℕ → ℕ → Option String → Result Fields
  pub is_cancelled : ℕ → Bool → Bool
  pub is_cancelled_retry : ℕ → ℕ → Bool → Bool
  pub is_cancelled_output : ℕ → Bool
  pub ascii_digits : String → Bool
  pub digit_value : String → Option (Result ℕ)
  pub page_digest : List Json → String
  pub iso : String → Option ℤ
  pub str_of : Json → String
  pub parse : Fields → Result Fields
  pub max_attempts : ℕ

-- The window's ends, in microseconds, the request's filter and its message limit.
pub record Window : Type 0 where
  pub start : ℤ
  pub stop : ℤ
  pub msg_filter : Filter
  pub max_messages : Option ℕ

-- `raw.get("created_at", "")`
abbrev pub created_at : Fields → Json
created_at raw = if has "created_at" raw then get "created_at" raw else text ""

-- A record that gives a message, or none; the flag tells that it is older than the window.
pub record Classified : Type 0 where
  pub counts : Counts
  pub parsed : Option Fields
  pub is_done : Bool

abbrev pub drop_record : Counts → Bool → Classified
drop_record counts is_done = record { counts = counts; parsed = none; is_done = is_done }

module _ (source : Source) (window : Window) where
  abbrev pub parse_record : Fields → Counts → Result Fields → Result Classified
  parse_record raw counts (ok message) =
      ok (record { counts = counts; parsed = some message; is_done = false })
  parse_record raw counts (raise parsing_error) =
      ok (drop_record (record counts { parse_error = counts.parse_error + 1 }) false)
  parse_record raw counts (raise e) = raise e

  unfoldable pub classify_time : Fields → Counts → Option ℤ → Result Classified
  classify_time raw counts none =
      ok
        (drop_record (record counts { malformed_timestamp = counts.malformed_timestamp + 1 }) false)
  classify_time raw counts (some time) =
      if ltb_ℤ time window.start
      then ok (drop_record (record counts { before_start = counts.before_start + 1 }) true)
      else if ltb_ℤ window.stop time
      then ok (drop_record (record counts { after_end = counts.after_end + 1 }) false)
      else parse_record raw counts (source.parse raw)

  -- `_classify_message`
  unfoldable pub classify_message : Fields → Counts → Result Classified
  unfolding classify_time
  classify_message raw counts = elim (created_at raw) [
    | text created ↦ classify_time raw counts (source.iso created)
    | _ ↦ classify_time raw counts none
  ]
