-- ===== src/Run/Execute/Explained.antt =====
-- A result always tells why the run failed.
use chat_downloader_fork.Base.{
  arith, Bool, true, false, not, ◌&&◌, Option, none, some, List, [], ◌∷◌, String, ◌≡◌, refl,
  if◌then◌else◌,
}
use chat_downloader_fork.Run.Types.{RunResult, Stage, fine, raised, interrupt}
use chat_downloader_fork.Run.Policy.{observe_provider}
use chat_downloader_fork.Run.Shutdown.{summary, unavailable, observe_shutdown}
use chat_downloader_fork.Run.Setup.{Config, Progress, going, cut, failed}
use chat_downloader_fork.Run.Capture.{
  Next, item, source_failed, source_cut, count_message, capture_loop, end_capture,
}
use chat_downloader_fork.Run.Reports.{review, reject_capture, reject_manifest, require_replay}
use chat_downloader_fork.Run.Execute.Kept.{Kept, execute_run-kept}
use chat_downloader_fork.Run.Execute.{World, returned, start_result, capture_from, execute_run}

abbrev is_some : {A : Type 0} → Option A → Bool
is_some none = false
is_some (some _) = true

-- A result without a failure has no message and no stage; a failed one has both.
abbrev pub explained : RunResult → Bool
explained r =
    if r.success
    then not (is_some r.error_message) && not (is_some r.failure_stage) && not r.interrupted
    else is_some r.error_message && is_some r.failure_stage

-- A result to which the loop can still come
abbrev pub silent : RunResult → Bool
silent r =
    not r.success
    && not (is_some r.error_message)
    && not (is_some r.failure_stage)
    && not r.interrupted

capture_loop-silent :
    (source : List Next) (r : RunResult)
    → silent r ≡ true
    → silent ((capture_loop source r).0) ≡ true
unfolding capture_loop count_message
capture_loop-silent [] r h = h
capture_loop-silent (source_failed e ∷ rest) r h = h
capture_loop-silent (source_cut ∷ rest) r h = h
capture_loop-silent (item message true callback ∷ rest) r h = h
capture_loop-silent (item message false fine ∷ rest) r h =
    capture_loop-silent rest (count_message message r) h
capture_loop-silent (item message false (raised e) ∷ rest) r h = h
capture_loop-silent (item message false interrupt ∷ rest) r h = h

end_capture-explained :
    (reason : Option String) (phase : Stage) (r : RunResult) (p : Progress)
    → silent r ≡ true
    → explained (end_capture reason phase (r, p)) ≡ true
unfolding end_capture
end_capture-explained reason phase r going h = ground arith
end_capture-explained reason phase r (failed e) h = ground arith
end_capture-explained reason phase r cut h = ground arith

explained-Kept : Kept (λ r. explained r ≡ true)
unfolding observe_provider observe_shutdown review reject_capture require_replay reject_manifest
explained-Kept = record {
  on_shutdown = λ e r h. refl;
  on_provider = λ r chat s h. h;
  on_deadline = λ r d h. elim d as (λ x. explained (observe_shutdown r x) ≡ true) [
    | summary count complete ↦ h
    | unavailable e ↦ refl
  ];
  on_inspection = λ r s h. h;
  on_parity = λ r p h. h;
  on_review = λ r h. ground arith;
  on_reject = λ e r h. refl;
  on_replay = λ required chat r h. ground arith;
  on_manifest = λ e r h. refl;
}

pub capture_from-silent :
    (w : World) (p : Progress) (r : RunResult)
    → silent r ≡ true
    → silent (capture_from w p r).0 ≡ true
capture_from-silent w going r h = capture_loop-silent w.source r h
capture_from-silent w (failed e) r h = h
capture_from-silent w cut r h = h

-- The result that a run returns is either a success without an error message, a failure stage or
-- an interrupt, or a failure with both a message and a stage.
pub execute_run-explained :
    (config : Config) (w : World) (r : RunResult)
    → (execute_run config w).ending ≡ returned r
    → explained r ≡ true
execute_run-explained config w r is =
    execute_run-kept (λ s. explained s ≡ true) explained-Kept config w r
      (λ phase p.
        end_capture-explained w.reason phase _ (capture_from w p (start_result config)).1
          (capture_from-silent w p (start_result config) refl))
      is
