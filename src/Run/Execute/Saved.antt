-- ===== src/Run/Execute/Saved.antt =====
-- A checkpoint is saved only after everything was closed without an error.
use chat_downloader_fork.Base.{
  ◌⊎◌, inl, inr, arith, ℕ, zero, suc, Bool, true, false, not, ◌&&◌, ◌||◌, Option, none, some, ◌≡◌,
  refl, sym, ◌∙◌, if◌then◌else◌,
}
use chat_downloader_fork.Run.Types.{Kind, Exc, RunResult}
use chat_downloader_fork.Run.Shutdown.{
  Closing, close_chat, check_writers, close_downloader, finalize_run,
}
use chat_downloader_fork.Run.Setup.{Config, Locals, Progress, setup}
use chat_downloader_fork.Run.Setup.Order.{setup-Ordered}
use chat_downloader_fork.Run.Capture.{is_going}
use chat_downloader_fork.Run.Reports.{
  Answers, Report, reported, inspection_failed, inspected, fine_report, unless, and_then, verified,
  handled, inspect_outputs, verify_outputs, save_outputs, is_reported, reject_capture,
  verify_capture_outputs,
}
use chat_downloader_fork.Run.Execute.{
  World, start_result, capture_from, closing_of, is_clean, finish_report, finish, finalize,
  run_from, execute_run,
}

abbrev pub Faultless : Closing → Type 0
Faultless c = (c.chat_close ≡ none) × (c.write_error_count ≡ 0) × (c.downloader_close ≡ none)

-- If nothing is raised or returned, then nothing failed, whatever came before.
pub finalize_run-Faultless :
    (closing : Closing) (primary_error : Bool)
    → is_clean (finalize_run closing primary_error) ≡ true
    → Faultless closing
unfolding finalize_run close_chat check_writers close_downloader
finalize_run-Faultless closing primary_error h =
    by_case closing.chat_close closing.write_error_count closing.downloader_close primary_error h
  where
    by_case :
        (chat : Option Exc) (count : ℕ) (downloader : Option Exc) (primary : Bool)
        → is_clean (
            finalize_run
              (record closing {
                chat_close = chat;
                write_error_count = count;
                downloader_close = downloader;
              })
              primary)
          ≡ true
        → (chat ≡ none) × (count ≡ 0) × (downloader ≡ none)
    by_case none zero none p h = (refl, refl, refl)
    by_case none zero (some e) true h = absurd (ground arith)
    by_case none zero (some e) false h = absurd (ground arith)
    by_case none (suc n) none true h = absurd (ground arith)
    by_case none (suc n) none false h = absurd (ground arith)
    by_case none (suc n) (some e) true h = absurd (ground arith)
    by_case none (suc n) (some e) false h = absurd (ground arith)
    by_case (some x) zero none true h = absurd (ground arith)
    by_case (some x) zero none false h = absurd (ground arith)
    by_case (some x) zero (some e) true h = absurd (ground arith)
    by_case (some x) zero (some e) false h = absurd (ground arith)
    by_case (some x) (suc n) none true h = absurd (ground arith)
    by_case (some x) (suc n) none false h = absurd (ground arith)
    by_case (some x) (suc n) (some e) true h = absurd (ground arith)
    by_case (some x) (suc n) (some e) false h = absurd (ground arith)

handled-wrote :
    (error : Option Exc) (catches : Kind → Bool) (handle : Exc → RunResult → RunResult)
    (report : Report)
    → (handled error catches handle report).wrote ≡ true
    → report.wrote ≡ true
handled-wrote none catches handle report h = h
handled-wrote (some e) catches handle report h = ground arith

unless-wrote :
    (error : Option Exc) (report : Report) (next : RunResult → Report)
    → (unless error report next).wrote ≡ true
    → (report.wrote ≡ true) ⊎ ((next report.result).wrote ≡ true)
unless-wrote none report next h = inr h
unless-wrote (some e) report next h = inl h

inspected-wrote :
    (inspects : Bool) (answers : Answers) (r : RunResult)
    → (inspect_outputs inspects answers r).wrote ≡ false
inspected-wrote false answers r = refl
inspected-wrote true answers r =
    elim answers.inspect_provider_capture as (λ i. (inspected r i).wrote ≡ false) [
      | reported s ↦ refl
      | inspection_failed e ↦ refl
    ]

verified-wrote :
    (requested after_error : Bool) (answers : Answers) (r : RunResult)
    → (verify_outputs requested after_error answers r).wrote ≡ false
verified-wrote requested after_error answers r =
    by_case (requested && (r.success || r.interrupted || after_error)) answers.verify_capture
  where
    by_case :
        (guard : Bool) (answer : Option Exc)
        → (if guard then verified r answer else fine_report r).wrote ≡ false
    by_case false answer = refl
    by_case true none = refl
    by_case true (some e) = refl

verify_capture_outputs-wrote :
    (verify_output inspects saves after_error : Bool) (answers : Answers) (r : RunResult)
    → (verify_capture_outputs verify_output inspects saves after_error answers r).wrote ≡ true
    → saves ≡ true
unfolding verify_capture_outputs
verify_capture_outputs-wrote verify_output inspects saves after_error answers r h =
    let verify = verify_outputs (verify_output && inspects) after_error answers in
    let save = save_outputs saves answers in
    let first = inspect_outputs inspects answers r in
    let second = and_then first verify in
    let third = and_then second save in
    let wrote = handled-wrote third.error is_reported reject_capture third h in
    elim (unless-wrote second.error second save wrote) [
      | inl early ↦ elim (unless-wrote first.error first verify early) [
        | inl w ↦ absurd (ground (arith, inspected-wrote inspects answers r))
        | inr w ↦ absurd (
            ground
              (arith, verified-wrote (verify_output && inspects) after_error answers first.result))
      ]
      | inr w ↦ ground arith
    ]

finish_report-saved :
    (cut_short : Bool) (unlock error : Option Exc) (saved : Bool) (done : Report)
    → (finish_report cut_short unlock error saved done).saved ≡ saved
finish_report-saved cut_short (some e) error saved done = refl
finish_report-saved cut_short none (some e) saved done = refl
finish_report-saved cut_short none none saved done = refl

bound-clean :
    (clean checkpoint bound chat : Bool)
    → (clean && checkpoint && bound && chat) ≡ true
    → (clean ≡ true) × (chat ≡ true)
bound-clean clean checkpoint bound chat h = (ground arith, ground arith)

Faultless-closing :
    (l : Locals) (c : Closing)
    → l.has_chat ≡ true
    → l.has_downloader ≡ true
    → Faultless (closing_of l c)
    → Faultless c
Faultless-closing l c chat downloader (a, b, d) = (rw chat at a, rw chat at b, rw downloader at d)

finalize-Faultless :
    (config : Config) (w : World) (l : Locals) (r : RunResult) (p : Progress)
    → (l.has_chat ≡ true → l.has_downloader ≡ true)
    → (finalize config w l (r, p)).saved ≡ true
    → Faultless w.closing
unfolding finalize finish
finalize-Faultless config w l r p ordered h =
    let closed = finalize_run (closing_of l w.closing) (not (is_going p)) in
    let saves =
      verify_capture_outputs-wrote _ _
        (is_clean closed && l.checkpoint && l.checkpoint_bound && l.has_chat) _ _ _
        (sym (finish_report-saved _ _ _ _ _) ∙ h) in
    let both = bound-clean (is_clean closed) l.checkpoint l.checkpoint_bound l.has_chat saves in
    let clean = finalize_run-Faultless (closing_of l w.closing) (not (is_going p)) both.0 in
    Faultless-closing l w.closing both.1 (ordered both.1) clean

-- However a run ends, if it has saved its checkpoint then the chat and the downloader were
-- closed without an exception and no output writer reported an error.
pub execute_run-saved :
    (config : Config) (w : World) → (execute_run config w).saved ≡ true → Faultless w.closing
unfolding execute_run run_from
execute_run-saved config w h =
    let done = setup config w.calls w.begun in
    let ends = capture_from w done.1 (start_result config) in
    finalize-Faultless config w done.0 ends.0 ends.1 (setup-Ordered config w.calls w.begun) h
