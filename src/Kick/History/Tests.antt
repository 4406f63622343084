-- ===== src/Kick/History/Tests.antt =====
-- The pagination at a concrete history of one page.
use chat_downloader_fork.Base.{◌≤◌, ◌≡◌, false, none, some, pos, arith}
use chat_downloader_fork.Base.Json.{nil, cons, Fields, end, field, text, arr, obj, null}
use chat_downloader_fork.Base.Result.{ok}
use chat_downloader_fork.Kick.History.{Client, Request, Crawl, Ending, iter_reverse_history}
use chat_downloader_fork.Kick.History.Budget.{Finished, iter_reverse_history-Finished}
use chat_downloader_fork.Kick.History.Yields.{Yielded, iter_reverse_history-Yielded}

abbrev message : Fields
message = field "id" (text "m") (field "created_at" (text "now") end)

abbrev page : Fields
page =
    field "data"
      (obj (
        field "messages" (arr (cons (obj message) (cons (obj message) nil)))
          (field "cursor" null end)))
      end

abbrev client : Client
client = record {
  page = λ n attempt cursor. ok page;
  is_cancelled = λ n after. false;
  digits = λ s. none;
  page_digest = λ records. "digest";
  iso = λ s. some (pos 15);
  str_of = λ v. "m";
  max_attempts = 2;
}

abbrev request : Request
request = record { start = pos 10; stop = pos 20; max_pages = 3; max_records = 100 }

iter_reverse_history-Finished_example : Finished client request 4 "21"
iter_reverse_history-Finished_example =
    iter_reverse_history-Finished client request "21" 4 (omega arith)

few_records : request.max_records ≤ 10000
few_records = omega arith

iter_reverse_history-Yielded_example :
    (last : Crawl) × (ending : Ending) × (iter_reverse_history client request "21" 4
      ≡ some (last, ending))
    × Yielded client request few_records last
iter_reverse_history-Yielded_example =
    iter_reverse_history-Yielded client request few_records "21" 4 (omega arith)
