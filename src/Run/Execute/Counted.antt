-- ===== src/Run/Execute/Counted.antt =====
-- The counts of the message types add up to the count of messages.
use chat_downloader_fork.Base.{arith, ℕ, ◌+◌, true, false, Option, List, [], ◌∷◌, String, ◌≡◌, refl}
use chat_downloader_fork.Checkpoint.Events.{Events, increment}
use chat_downloader_fork.Run.Types.{RunResult, Stage, fine, raised, interrupt}
use chat_downloader_fork.Run.Policy.{observe_provider}
use chat_downloader_fork.Run.Shutdown.{summary, unavailable, observe_shutdown}
use chat_downloader_fork.Run.Setup.{Config, Progress, going, cut, failed}
use chat_downloader_fork.Run.Capture.{
  Next, item, source_failed, source_cut, counter_key, count_message, capture_loop, end_capture,
}
use chat_downloader_fork.Run.Reports.{review, reject_capture, reject_manifest, require_replay}
use chat_downloader_fork.Run.Execute.Kept.{Kept, execute_run-kept}
use chat_downloader_fork.Run.Execute.{World, returned, start_result, capture_from, execute_run}
use chat_downloader_fork.Base.Json.{get, Fields}

abbrev pub total : Events → ℕ
total [] = 0
total ((k, n) ∷ rest) = n + total rest

total-increment : (k : String) (e : Events) → total (increment k e) ≡ total e + 1
unfolding increment
total-increment k [] = refl
total-increment k ((j, n) ∷ rest) = ground (arith, total-increment k rest)

abbrev Counted : RunResult → Type 0
Counted r = total r.message_type_counts ≡ r.message_count

count_message-Counted :
    (message : Fields) (r : RunResult) → Counted r → Counted (count_message message r)
unfolding count_message
count_message-Counted message r h =
    ground (arith, total-increment (counter_key (get "message_type" message)) r.message_type_counts)

capture_loop-Counted :
    (source : List Next) (r : RunResult) → Counted r → Counted (capture_loop source r).0
unfolding capture_loop
capture_loop-Counted [] r h = h
capture_loop-Counted (source_failed e ∷ rest) r h = h
capture_loop-Counted (source_cut ∷ rest) r h = h
capture_loop-Counted (item message true callback ∷ rest) r h = count_message-Counted message r h
capture_loop-Counted (item message false fine ∷ rest) r h =
    capture_loop-Counted rest (count_message message r) (count_message-Counted message r h)
capture_loop-Counted (item message false (raised e) ∷ rest) r h = count_message-Counted message r h
capture_loop-Counted (item message false interrupt ∷ rest) r h = count_message-Counted message r h

capture_from-Counted :
    (w : World) (p : Progress) (r : RunResult) → Counted r → Counted (capture_from w p r).0
capture_from-Counted w going r h = capture_loop-Counted w.source r h
capture_from-Counted w (failed e) r h = h
capture_from-Counted w cut r h = h

end_capture-Counted :
    (reason : Option String) (phase : Stage) (r : RunResult) (p : Progress)
    → Counted r
    → Counted (end_capture reason phase (r, p))
unfolding end_capture
end_capture-Counted reason phase r going h = h
end_capture-Counted reason phase r (failed e) h = h
end_capture-Counted reason phase r cut h = h

Counted-Kept : Kept Counted
unfolding observe_provider observe_shutdown review reject_capture require_replay reject_manifest
Counted-Kept = record {
  on_shutdown = λ e r h. h;
  on_provider = λ r chat s h. h;
  on_deadline = λ r d h. elim d as (λ x. Counted (observe_shutdown r x)) [
    | summary count complete ↦ h
    | unavailable e ↦ h
  ];
  on_inspection = λ r s h. h;
  on_parity = λ r p h. h;
  on_review = λ r h. ground arith;
  on_reject = λ e r h. h;
  on_replay = λ required chat r h. ground arith;
  on_manifest = λ e r h. h;
}

-- The counts of the message types of a result that a run returns add up to its message count,
-- whether the capture ended, failed or was interrupted.
pub execute_run-counted :
    (config : Config) (w : World) (r : RunResult)
    → (execute_run config w).ending ≡ returned r
    → total r.message_type_counts ≡ r.message_count
execute_run-counted config w r is =
    execute_run-kept Counted Counted-Kept config w r
      (λ phase p.
        end_capture-Counted w.reason phase _ (capture_from w p (start_result config)).1
          (capture_from-Counted w p (start_result config) refl))
      is
