-- ===== src/Filters/Tests.antt =====
-- The filters at concrete inputs.
use chat_downloader_fork.Base.{◌≡◌, refl, false, some, List, [], ◌∷◌, pos, arith, ℤ}
use chat_downloader_fork.Base.Json.{Fields, end, field, text}
use chat_downloader_fork.Base.Result.{ok}
use chat_downloader_fork.Filters.Types.{
  Groups, Filter, wanted, should_add, should_add-wanted, init, filter_groups, collect,
}
use chat_downloader_fork.Filters.Pages.{
  after_pages, may_skip, shift_by, verdict_at, check-verdict_at,
}
use chat_downloader_fork.Filters.TimeRange as TimeRange
use chat_downloader_fork.Filters.TimeRange.{
  TimeRange, skip_always, skip_first_page, check, within, read_page, inside, read_page-inside,
}

abbrev groups : Groups
groups = ("messages", "text_message" ∷ []) ∷ ("paid", "paid_message" ∷ "paid_sticker" ∷ []) ∷ []

abbrev paid_types : Filter
paid_types = some ("paid_message" ∷ "paid_sticker" ∷ [])

made : init groups ("paid" ∷ []) [] ≡ ok paid_types
unfolding init filter_groups collect
made = refl

abbrev sticker : Fields
sticker = field "message_type" (text "paid_sticker") end

should_add-wanted_example :
    should_add paid_types sticker ≡ ok (wanted groups ("paid" ∷ []) [] "paid_sticker")
should_add-wanted_example =
    should_add-wanted groups ("paid" ∷ []) [] paid_types sticker "paid_sticker" made refl

abbrev range : TimeRange
range = record {
  start_time = some (pos 10);
  end_time = some (pos 20);
  offset = pos 0;
  skip_mode = skip_always;
  is_first_page = false;
}

check-verdict_at_example :
    check
      (after_pages 1
        (TimeRange.init (some (pos 10)) (some (pos 20)) (some (pos 2)) skip_first_page))
      (pos 7)
    ≡ verdict_at
        (some (pos 10))
        (some (pos 20))
        (shift_by (some (pos 2)) (pos 7))
        (may_skip skip_first_page 1)
check-verdict_at_example =
    check-verdict_at (some (pos 10)) (some (pos 20)) (some (pos 2)) skip_first_page 1 (pos 7)

abbrev times : List ℤ
times = pos 5 ∷ pos 10 ∷ pos 20 ∷ pos 21 ∷ []

read_page-inside_example : read_page range times ≡ inside range times
read_page-inside_example =
    read_page-inside range times refl (omega arith, (omega arith, (omega arith, tt)))
