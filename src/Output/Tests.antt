-- ===== src/Output/Tests.antt =====
-- The dispatcher with one raw and one formatted writer, the second of which fails.
use chat_downloader_fork.Base.{
  contains, ℕ, ◌≡◌, refl, true, false, [], ◌∷◌, ◌==◌, nat_Eq, if◌then◌else◌, String, List, none,
}
use chat_downloader_fork.Base.Json.{Fields, end}
use chat_downloader_fork.Base.Result.{Result, ok, raise, os_error}
use chat_downloader_fork.Output.Dispatcher.{
  Writer, Dispatcher, Output, init, emit, settle, counts_match,
}
use chat_downloader_fork.Output.Attach.{attach_all, attached-Counted}
use chat_downloader_fork.Output.Counts.{ids, Counted, written, transaction-Counted}

abbrev two : Dispatcher
two = record {
  writers = record { id = 1; is_formatted = false } ∷ record { id = 2; is_formatted = true } ∷ [];
  attached = 1 ∷ 2 ∷ [];
  counts = λ k. 3;
  suppressed = 0;
  recovery_failed = false;
  deduplicator = record { limit = 5; message_ids = []; evictions = 0 };
}

two-Counted : Counted 3 two
two-Counted = record {
  correct = (refl, (refl, tt));
  distinct = (refl, (refl, tt));
  recovered = refl;
}

abbrev full_disk : ℕ → Output → Result (Unit {0})
full_disk k output = if k == 2 then raise os_error else ok tt

abbrev plain : Fields → Result String
plain item = ok "line"

transaction-Counted_example :
    Counted
      (written 3 (settle two true (emit full_disk plain end two)).1)
      (settle two true (emit full_disk plain end two)).0
    × (counts_match
          (written 3 (settle two true (emit full_disk plain end two)).1)
          (settle two true (emit full_disk plain end two)).0
        ≡ true)
transaction-Counted_example = transaction-Counted full_disk plain 3 end two two-Counted

abbrev again : List Writer
again = record { id = 1; is_formatted = true } ∷ record { id = 1; is_formatted = true } ∷ []

attached-Counted_example :
    Counted 0 (attach_all (init none) again)
    × (contains 1 (ids (attach_all (init none) again).writers) ≡ contains 1 (ids again))
attached-Counted_example = attached-Counted none again 1
