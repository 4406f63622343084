-- ===== src/Kick/Replay/Tests.antt =====
-- The collection of a concrete replay of two pages, and its output.
use chat_downloader_fork.Base.{
  ℕ, zero, suc, ◌≡◌, refl, true, false, none, some, List, [], ◌∷◌, pos, arith, String,
  if◌then◌else◌, ◌==◌, string_Eq, length,
}
use chat_downloader_fork.Base.Json.{Json, nil, cons, Fields, end, field, text, arr, obj, null, int}
use chat_downloader_fork.Base.Result.{ok}
use chat_downloader_fork.Kick.Retry.{fetch_with_retry, attempts_from}
use chat_downloader_fork.Kick.Pages.{validate_page, page_cursor}
use chat_downloader_fork.Kick.Replay.State.{Source, Window}
use chat_downloader_fork.Kick.Replay.Collect.{Step, collect, begin_collection, fetch}
use chat_downloader_fork.Kick.Replay.Accounting.{BalancedStep}
use chat_downloader_fork.Kick.Replay.Ending.{Decimal, DecimalPage, collect-ends}
use chat_downloader_fork.Kick.Replay.Emit.{emit_from}
use chat_downloader_fork.Kick.Replay.Order.{
  InOrder, WithinLimit, take_limit, emit_from-InOrder, emit_from-take,
}

abbrev page_with : Json → Json → Fields
page_with messages cursor =
    field "data" (obj (field "messages" messages (field "cursor" cursor end))) end

-- The second page has one record more than the first.
abbrev pages : ℕ → Fields
pages zero = page_with (arr (cons (obj end) nil)) (text "5")
pages (suc n) = page_with (arr (cons (obj end) (cons null nil))) null

abbrev digest_of : List Json → String
digest_of (x ∷ y ∷ xs) = "long"
digest_of _ = "short"

abbrev source : Source
source = record {
  page = λ n attempt cursor. ok (pages n);
  is_cancelled = λ n after. false;
  is_cancelled_retry = λ n attempt after. false;
  is_cancelled_output = λ n. false;
  ascii_digits = λ s. true;
  digit_value = λ s. if s == "9" then some (ok 9) else some (ok 5);
  page_digest = digest_of;
  iso = λ s. none;
  str_of = λ v. "m";
  parse = λ raw. ok raw;
  max_attempts = 2;
}

abbrev window : Window
window = record { start = pos 10; stop = pos 20; msg_filter = none; max_messages = some 2 }

nine-Decimal : Decimal source window "9" 9
nine-Decimal = record { filled = refl; digits = refl; value = refl }

pages-DecimalPage :
    (n : ℕ) (cursor : String) → DecimalPage source window (fetch source window n (some cursor))
unfolding fetch_with_retry attempts_from validate_page page_cursor
pages-DecimalPage zero cursor = (5, record { filled = refl; digits = refl; value = refl })
pages-DecimalPage (suc n) cursor = tt

collect-ends_example :
    (last : Step) × (collect source window 10 (begin_collection source window "9") ≡ some last)
    × BalancedStep source window last
collect-ends_example =
    collect-ends source window pages-DecimalPage "9" 9 10 nine-Decimal (omega arith)

abbrev at_time : ℕ → Fields
at_time n = field "timestamp" (int (pos n)) end

abbrev collected : List Fields
collected = at_time 11 ∷ at_time 12 ∷ at_time 12 ∷ []

emit_from-InOrder_example :
    InOrder (emit_from source window 0 none "interrupted" collected).messages
    × WithinLimit window.max_messages 0
        (length (emit_from source window 0 none "interrupted" collected).messages)
emit_from-InOrder_example = emit_from-InOrder source window 0 none "interrupted" collected

emit_from-take_example :
    ((emit_from source window 0 none "interrupted" collected).messages
      ≡ take_limit window.max_messages 0 collected)
    × ((emit_from source window 0 none "interrupted" collected).error ≡ none)
emit_from-take_example =
    emit_from-take source window 0 none "interrupted" collected (λ n. refl)
      (refl, (refl, (refl, tt)))
