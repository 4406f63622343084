-- ===== src/Run/Execute/Kept.antt =====
-- A property of results that each step of the finalization keeps holds of the returned result.
use chat_downloader_fork.Base.{
  arith, Bool, true, false, ◌&&◌, ◌||◌, Option, none, some, String, ◌≡◌, if◌then◌else◌,
}
use mathlib.Core.Path.{subst}
use chat_downloader_fork.Base.Json.{Fields}
use chat_downloader_fork.Run.Types.{is_os_or_value, Kind, Exc, RunResult, Parity, Stage}
use chat_downloader_fork.Run.Policy.{ChatView, observe_provider}
use chat_downloader_fork.Run.Shutdown.{Deadline, observe_shutdown}
use chat_downloader_fork.Run.Setup.{Config, Locals, Progress, setup}
use chat_downloader_fork.Run.Capture.{end_capture}
use chat_downloader_fork.Run.Reports.{
  fine_report, Answers, Report, Inspection, reported, inspection_failed, inspected, verified,
  review, written, verify_outputs, inspect_outputs, save_outputs, and_then, unless, handled,
  reject_capture, reject_manifest, require_replay, verify_capture_outputs, complete_run_record,
  is_reported, is_valid,
}
use chat_downloader_fork.Run.Execute.{
  World, returned, shutdown_error, start_result, capture_from, replace_error, after_close, observe,
  observed_by, end_of, finish_report, finish, finalize, run_from, execute_run,
}

-- The steps that change the result after the capture
pub record Kept (P : RunResult → Type 0) : Type 0 where
  pub on_shutdown : (e : Exc) (r : RunResult) → P r → P (shutdown_error e r)
  pub on_provider :
      (r : RunResult) (chat : Option ChatView) (s : Fields) → P r → P (observe_provider r chat s)
  pub on_deadline : (r : RunResult) (d : Deadline) → P r → P (observe_shutdown r d)
  pub on_inspection :
      (r : RunResult) (s : Option String) → P r → P (record r { provider_inspection = s })
  pub on_parity : (r : RunResult) (p : Parity) → P r → P (record r { parity_status = p })
  pub on_review : (r : RunResult) → P r → P (review r)
  pub on_reject : (e : Exc) (r : RunResult) → P r → P (reject_capture e r)
  pub on_replay :
      (required : Bool) (chat : Option ChatView) (r : RunResult)
      → P r
      → P (require_replay required chat r)
  pub on_manifest : (e : Exc) (r : RunResult) → P r → P (reject_manifest e r)

same : {r last : RunResult} → returned r ≡ returned last → r ≡ last
same e = cc

module _ (P : RunResult → Type 0) (kept : Kept P) where
  replace_error-kept :
      (primary : Bool) (raised suppressed : Option Exc) (r : RunResult)
      → P r
      → P (replace_error primary raised suppressed r)
  replace_error-kept primary (some e) suppressed r h = kept.on_shutdown e r h
  replace_error-kept primary none none r h = h
  replace_error-kept true none (some e) r h = h
  replace_error-kept false none (some e) r h = kept.on_shutdown e r h

  observed_by-kept :
      (has_chat : Bool) (d : Deadline) (r : RunResult) → P r → P (observed_by has_chat d r)
  observed_by-kept true d r h = kept.on_deadline r d h
  observed_by-kept false d r h = h

  unless-kept :
      (error : Option Exc) (report : Report) (next : RunResult → Report)
      → P report.result
      → ((r : RunResult) → P r → P (next r).result)
      → P (unless error report next).result
  unless-kept none report next h step = step report.result h
  unless-kept (some e) report next h step = h

  handled-kept :
      (error : Option Exc) (catches : Kind → Bool) (handle : Exc → RunResult → RunResult)
      (report : Report)
      → P report.result
      → ((e : Exc) (r : RunResult) → P r → P (handle e r))
      → P (handled error catches handle report).result
  handled-kept none catches handle report h step = h
  handled-kept (some e) catches handle report h step =
      elim (catches e.kind)
        as (λ b.
          P
            (if b
              then record { result = handle e report.result; wrote = false; error = none }
              else report).result) [ true ↦ step e report.result h | false ↦ h ]

  written-kept : (r : RunResult) (answer : Option Exc) → P r → P (written r answer).result
  written-kept r none h = h
  written-kept r (some e) h = h

  inspected-kept : (r : RunResult) (i : Inspection) → P r → P (inspected r i).result
  inspected-kept r (reported s) h = kept.on_inspection r s h
  inspected-kept r (inspection_failed e) h = h

  verified-kept : (r : RunResult) (answer : Option Exc) → P r → P (verified r answer).result
  verified-kept r none h = kept.on_review _ (kept.on_parity r _ h)
  verified-kept r (some e) h = kept.on_parity r _ h

  if-kept :
      (b : Bool) (report other : Report)
      → P report.result
      → P other.result
      → P (if b then report else other).result
  if-kept true report other h g = h
  if-kept false report other h g = g

  outputs-kept :
      (verify_output inspects saves after_error : Bool) (answers : Answers) (r : RunResult)
      → P r
      → P (verify_capture_outputs verify_output inspects saves after_error answers r).result
  unfolding verify_capture_outputs
  outputs-kept verify_output inspects saves after_error answers r h =
      let verify = verify_outputs (verify_output && inspects) after_error answers in
      let first = inspect_outputs inspects answers r in
      let second = and_then first verify in
      let inspected_p : P first.result =
        if-kept inspects _ _ (inspected-kept r answers.inspect_provider_capture h) h in
      let verified_p : P second.result = unless-kept first.error first verify inspected_p (λ s g.
        if-kept (verify_output && inspects && (s.success || s.interrupted || after_error))
          (verified s answers.verify_capture) (fine_report s)
          (verified-kept s answers.verify_capture g) g) in
      let third = and_then second (save_outputs saves answers) in
      let saved_p : P third.result =
        unless-kept second.error second (save_outputs saves answers) verified_p (λ s g.
          if-kept saves (written s answers.checkpoint_save) (fine_report s)
            (written-kept s answers.checkpoint_save g) g) in
      handled-kept third.error is_reported reject_capture third saved_p kept.on_reject

  record-kept :
      (required : Bool) (valid : Option Bool) (chat : Option ChatView) (answers : Answers)
      (r : RunResult)
      → P r
      → P (complete_run_record required valid chat answers r).result
  unfolding complete_run_record
  record-kept required valid chat answers r h =
      let completed = require_replay required chat r in
      let completed_p = kept.on_replay required chat r h in
      let report =
        if is_valid valid
        then written completed answers.manifest_write
        else fine_report completed in
      handled-kept report.error is_os_or_value reject_manifest report
        (if-kept (is_valid valid) (written completed answers.manifest_write) (fine_report completed)
          (written-kept completed answers.manifest_write completed_p) completed_p)
        kept.on_manifest

  end_of-kept :
      (cut_short : Bool) (error : Option Exc) (r last : RunResult)
      → P r
      → end_of cut_short error r ≡ returned last
      → P last
  end_of-kept cut_short (some e) r last h is = absurd (ground arith)
  end_of-kept true none r last h is = absurd (ground arith)
  end_of-kept false none r last h is = subst P (same is) h

  finish_report-kept :
      (cut_short : Bool) (unlock error : Option Exc) (saved : Bool) (done : Report)
      (last : RunResult)
      → P done.result
      → (finish_report cut_short unlock error saved done).ending ≡ returned last
      → P last
  finish_report-kept cut_short (some e) error saved done last h is = absurd (ground arith)
  finish_report-kept cut_short none (some e) saved done last h is = absurd (ground arith)
  finish_report-kept cut_short none none saved done last h is =
      end_of-kept cut_short done.error done.result last h is

  pub finalize-kept :
      (config : Config) (w : World) (l : Locals) (r last : RunResult) (p : Progress)
      → P (end_capture w.reason l.phase (r, p))
      → (finalize config w l (r, p)).ending ≡ returned last
      → P last
  unfolding finalize finish observe after_close
  finalize-kept config w l r last p h is =
      finish_report-kept _ _ _ _ _ last
        (record-kept _ _ _ _ _ (
          outputs-kept _ _ _ _ _ _
            (observed_by-kept _ _ _ (kept.on_provider _ _ _ (replace_error-kept _ _ _ _ h)))))
        is

  pub execute_run-kept :
      (config : Config) (w : World) (last : RunResult)
      → ((phase : Stage) (p : Progress)
          → P (end_capture w.reason phase (capture_from w p (start_result config))))
      → (execute_run config w).ending ≡ returned last
      → P last
  unfolding execute_run run_from
  execute_run-kept config w last body is =
      let done = setup config w.calls w.begun in
      let ends = capture_from w done.1 (start_result config) in
      finalize-kept config w done.0 ends.0 last ends.1 (body done.0.phase done.1) is
