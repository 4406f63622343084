-- ===== src/Run/Execute/Success.antt =====
-- What a run that returns a success has done.
use mathlib.Core.Path.{subst}
use chat_downloader_fork.Base.{
  arith, Bool, true, false, ◌&&◌, Option, none, some, ◌≡◌, refl, sym, ap, ◌∙◌, if◌then◌else◌,
}
use chat_downloader_fork.Run.Types.{Exc, RunResult, passed, capture}
use chat_downloader_fork.Run.Policy.{replay_complete, observe_provider}
use chat_downloader_fork.Run.Policy.Complete.{Complete, replay_complete-Complete}
use chat_downloader_fork.Run.Shutdown.{
  Deadline, summary, unavailable, observe_shutdown, finalize_run,
}
use chat_downloader_fork.Run.Setup.{Config, Locals, Progress, going, cut, failed, setup}
use chat_downloader_fork.Run.Setup.Ready.{ready, setup-ready}
use chat_downloader_fork.Run.Capture.{capture_loop, end_capture}
use chat_downloader_fork.Run.Reports.{Report, verify_capture_outputs, complete_run_record, is_valid}
use chat_downloader_fork.Run.Reports.Success.{
  verify_capture_outputs-success, complete_run_record-success,
}
use chat_downloader_fork.Run.Execute.Explained.{silent, capture_from-silent}
use chat_downloader_fork.Run.Execute.Failing.{Failing, Failing-Kept}
use chat_downloader_fork.Run.Execute.Kept.{finalize-kept}
use chat_downloader_fork.Run.Execute.{
  World, Ran, returned, start_result, capture_from, closing_of, replace_error, after_close,
  is_clean, observed_by, observe, end_of, finish_report, finish, finalize, run_from, execute_run,
}

-- A run that returns has released the lock, and no exception left the reports.
finish-fine :
    (cut_short : Bool) (unlock error : Option Exc) (saved : Bool) (done : Report) (r : RunResult)
    → let ran = finish_report cut_short unlock error saved done in
      ran.ending ≡ returned r
      → (error ≡ none)
        × (done.error ≡ none)
        × (done.result ≡ r)
        × (ran.saved ≡ saved)
        × (ran.wrote_manifest ≡ done.wrote)
finish-fine cut_short (some e) error saved done r is = absurd (ground arith)
finish-fine cut_short none (some e) saved done r is = absurd (ground arith)
finish-fine cut_short none none saved done r is =
    let both = ends cut_short done.error done.result r is in (refl, both.0, both.1, refl, refl)
  where
    ends :
        (cut_short : Bool) (error : Option Exc) (last r : RunResult)
        → end_of cut_short error last ≡ returned r
        → (error ≡ none) × (last ≡ r)
    ends cut_short (some e) last r is = absurd (ground arith)
    ends true none last r is = absurd (ground arith)
    ends false none last r is = (refl, cc)

-- What a successful run has done, with the result that it returns
abbrev pub Fulfilled : Config → World → Ran → RunResult → Type 0
Fulfilled config w ran r =
    (ran.saved ≡ config.resume)
    × (ran.wrote_manifest ≡ config.run_manifest)
    × (config.verify_output ≡ true → r.parity_status ≡ passed)
    × (config.require_complete ≡ true
        → (replay_complete (some w.ended) r ≡ true) × Complete w.ended r)

observed-success :
    (has_chat : Bool) (d : Deadline) (r : RunResult)
    → (observed_by has_chat d r).success ≡ true
    → r.success ≡ true
unfolding observe_shutdown
observed-success true (summary n b) r good = good
observed-success true (unavailable e) r good = absurd (ground arith)
observed-success false d r good = good

replace-clean :
    (raised suppressed : Option Exc) (r : RunResult)
    → (replace_error false raised suppressed r).success ≡ true
    → is_clean (record { close_error = raised; suppressed = suppressed }) ≡ true
replace-clean (some e) suppressed r good = absurd (ground arith)
replace-clean none (some e) r good = absurd (ground arith)
replace-clean none none r good = refl

valid-manifest : (b : Bool) → is_valid (if b then some true else none) ≡ b
valid-manifest true = refl
valid-manifest false = refl

saves-resume : (clean resume : Bool) → clean ≡ true → (clean && resume && resume && true) ≡ resume
saves-resume clean resume h = ground arith

inspects-verified :
    (clean verify : Bool)
    → clean ≡ true
    → verify ≡ true
    → (verify && (clean && verify && true)) ≡ true
inspects-verified clean verify h g = ground arith

finalize-Fulfilled :
    (config : Config) (w : World) (r0 r : RunResult)
    → (finalize config w (ready config) (r0, going)).ending ≡ returned r
    → r.success ≡ true
    → Fulfilled config w (finalize config w (ready config) (r0, going)) r
unfolding finalize finish observe after_close finalize_run observe_provider
finalize-Fulfilled config w r0 r is good =
    let l = ready config in
    let closed = finalize_run (closing_of l w.closing) false in
    let clean = is_clean closed in
    let ended = after_close false closed (end_capture w.reason capture (r0, going)) in
    let seen = observe w l ended in
    let report =
      verify_capture_outputs config.verify_output (clean && config.verify_output && true)
        (clean && config.resume && config.resume && true) false w.answers seen in
    let done =
      complete_run_record config.require_complete l.manifest (some w.ended) w.answers
        report.result in
    let unlock : Option Exc = if config.resume then w.unlock else none in
    let ends = finish-fine false unlock report.error report.wrote done r is in
    let completes =
      complete_run_record-success config.require_complete l.manifest (some w.ended) w.answers
        report.result ends.1 (ap (λ s. s.success) ends.2 ∙ good) in
    let verifies =
      verify_capture_outputs-success config.verify_output (clean && config.verify_output && true)
        (clean && config.resume && config.resume && true) false w.answers seen ends.0
        completes.1.0 in
    let cleans : clean ≡ true =
      replace-clean closed.close_error closed.suppressed _
        (observed-success true w.deadline _ verifies.0) in
    (
      ends.3 ∙ verifies.1 ∙ saves-resume clean config.resume cleans,
      ends.4 ∙ completes.0 ∙ valid-manifest config.run_manifest,
      (λ h.
          sym (ap (λ s. s.parity_status) ends.2)
          ∙ completes.1.1
          ∙ verifies.2 (inspects-verified clean config.verify_output cleans h)),
      λ h.
          let whole : replay_complete (some w.ended) r ≡ true =
            sym (ap (λ s. replay_complete (some w.ended) s) ends.2) ∙ completes.1.2 h in
          (whole, replay_complete-Complete w.ended r whole),
    )

-- A run whose setup or capture does not get to its end returns no success.
run_from-going :
    (config : Config) (w : World) (l : Locals) (r0 r : RunResult) (p : Progress)
    → (finalize config w l (r0, p)).ending ≡ returned r
    → r.success ≡ true
    → r0.success ≡ false
    → p ≡ going
unfolding end_capture
run_from-going config w l r0 r going is good h = refl
run_from-going config w l r0 r (failed e) is good h =
    absurd (ground (arith, finalize-kept Failing Failing-Kept config w l r0 r (failed e) h is))
run_from-going config w l r0 r cut is good h =
    absurd (ground (arith, finalize-kept Failing Failing-Kept config w l r0 r cut h is))

silent-failing : (r : RunResult) → silent r ≡ true → r.success ≡ false
silent-failing r h = ground arith

capture-failing :
    (config : Config) (w : World) (p : Progress)
    → (capture_from w p (start_result config)).0.success ≡ false
capture-failing config w p =
    silent-failing (capture_from w p (start_result config)).0
      (capture_from-silent w p (start_result config) refl)

ready-Fulfilled :
    (config : Config) (w : World) (r0 r : RunResult) (p : Progress)
    → (finalize config w (ready config) (r0, p)).ending ≡ returned r
    → r.success ≡ true
    → p ≡ going
    → Fulfilled config w (finalize config w (ready config) (r0, p)) r
ready-Fulfilled config w r0 r p is good same =
    subst
      (λ q.
        (finalize config w (ready config) (r0, q)).ending ≡ returned r
        → Fulfilled config w (finalize config w (ready config) (r0, q)) r)
      (sym same) (λ e. finalize-Fulfilled config w r0 r e good) is

run_from-Fulfilled :
    (config : Config) (w : World) (r : RunResult) (l : Locals) (p : Progress)
    → (p ≡ going → l ≡ ready config)
    → (run_from config w (l, p)).ending ≡ returned r
    → r.success ≡ true
    → Fulfilled config w (run_from config w (l, p)) r
unfolding run_from
run_from-Fulfilled config w r l going last is good =
    let ends = capture_loop w.source (start_result config) in
    subst
      (λ k.
        (finalize config w k ends).ending ≡ returned r
        → Fulfilled config w (finalize config w k ends) r)
      (sym (last refl))
      (λ e. ready-Fulfilled config w ends.0 r ends.1 e good (
        run_from-going config w (ready config) ends.0 r ends.1 e good
          (capture-failing config w going)))
      is
run_from-Fulfilled config w r l (failed e) last is good =
    absurd
      (ground (arith, run_from-going config w l (start_result config) r (failed e) is good refl))
run_from-Fulfilled config w r l cut last is good =
    absurd (ground (arith, run_from-going config w l (start_result config) r cut is good refl))

-- If a run returns a success, then it has saved the checkpoint exactly if it was asked to
-- resume, has written the manifest exactly if it was asked for one, has verified its outputs if
-- asked to, and, if asked to, has got a complete replay: one that its provider calls completed,
-- and that ended as completed or with an empty window, with its whole history and without a
-- reported loss of records.
pub execute_run-success :
    (config : Config) (w : World) (r : RunResult)
    → (execute_run config w).ending ≡ returned r
    → r.success ≡ true
    → Fulfilled config w (execute_run config w) r
unfolding execute_run
execute_run-success config w r is good =
    let done = setup config w.calls w.begun in
    run_from-Fulfilled config w r done.0 done.1
      (λ e. setup-ready config w.calls w.begun done.0 (ap (λ q. (done.0, q)) e)) is good
