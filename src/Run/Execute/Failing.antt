-- ===== src/Run/Execute/Failing.antt =====
-- A failure before the reports is never turned into a success.
use chat_downloader_fork.Base.{arith, false, ◌≡◌, refl}
use chat_downloader_fork.Run.Types.{RunResult}
use chat_downloader_fork.Run.Policy.{observe_provider}
use chat_downloader_fork.Run.Shutdown.{summary, unavailable, observe_shutdown}
use chat_downloader_fork.Run.Reports.{review, reject_capture, reject_manifest, require_replay}
use chat_downloader_fork.Run.Execute.Kept.{Kept}

abbrev pub Failing : RunResult → Type 0
Failing r = r.success ≡ false

pub Failing-Kept : Kept Failing
unfolding observe_provider observe_shutdown review reject_capture require_replay reject_manifest
Failing-Kept = record {
  on_shutdown = λ e r h. refl;
  on_provider = λ r chat s h. h;
  on_deadline = λ r d h. elim d as (λ x. Failing (observe_shutdown r x)) [
    | summary count complete ↦ h
    | unavailable e ↦ refl
  ];
  on_inspection = λ r s h. h;
  on_parity = λ r p h. h;
  on_review = λ r h. ground arith;
  on_reject = λ e r h. refl;
  on_replay = λ required chat r h. ground arith;
  on_manifest = λ e r h. refl;
}
