-- ===== src/Run/Reports/Success.antt =====
-- What the reports have done when a run is still successful after them.
use mathlib.Core.Path.{subst}
use chat_downloader_fork.Base.{
  arith, Bool, true, false, ◌&&◌, ◌||◌, Option, none, some, ◌≡◌, refl, sym, ap, ◌∙◌, if◌then◌else◌,
}
use chat_downloader_fork.Run.Types.{Kind, Exc, RunResult, passed, is_os_or_value}
use chat_downloader_fork.Run.Policy.{ChatView, replay_complete}
use chat_downloader_fork.Run.Reports.{
  Answers, Report, fine_report, written, reported, inspection_failed, inspected, unless, and_then,
  review, verified, inspect_outputs, verify_outputs, save_outputs, reject_capture, handled,
  is_reported, verify_capture_outputs, require_replay, reject_manifest, is_valid,
  complete_run_record,
}

-- A handler that ran left a failure.
handled-fine :
    (error : Option Exc) (catches : Kind → Bool) (handle : Exc → RunResult → RunResult)
    (report : Report)
    → report.error ≡ error
    → ((e : Exc) (r : RunResult) → (handle e r).success ≡ false)
    → (handled error catches handle report).result.success ≡ true
    → (handled error catches handle report).error ≡ none
    → (error ≡ none) × (handled error catches handle report ≡ report)
handled-fine none catches handle report same fails good e = (refl, refl)
handled-fine (some x) catches handle report same fails good e =
    elim (catches x.kind)
        as (λ b.
          (if b then fine_report (handle x report.result) else report).result.success ≡ true
          → (if b then fine_report (handle x report.result) else report).error ≡ none
          → (some x ≡ none)
            × ((if b then fine_report (handle x report.result) else report) ≡ report)) [
              | true ↦ λ g n. absurd (ground (arith, fails x report.result))
              | false ↦ λ g n. absurd (ground arith)
            ]
      good e

unless-fine :
    (error : Option Exc) (report : Report) (next : RunResult → Report)
    → report.error ≡ error
    → (unless error report next).error ≡ none
    → (error ≡ none) × (unless error report next ≡ next report.result)
unless-fine none report next same e = (refl, refl)
unless-fine (some x) report next same e = absurd (ground arith)

inspected-success :
    (inspects : Bool) (answers : Answers) (r : RunResult)
    → (inspect_outputs inspects answers r).result.success ≡ r.success
inspected-success false answers r = refl
inspected-success true answers r =
    elim answers.inspect_provider_capture as (λ i. (inspected r i).result.success ≡ r.success) [
      | reported s ↦ refl
      | inspection_failed e ↦ refl
    ]

review-success : (r : RunResult) → (review r).success ≡ true → review r ≡ r
unfolding review
review-success r good = ground arith

abbrev Passed : RunResult → Report → Type 0
Passed r report = (r.success ≡ true) × (report.result.parity_status ≡ passed)

answer-Passed :
    (r : RunResult) (answer : Option Exc)
    → (verified r answer).error ≡ none
    → (verified r answer).result.success ≡ true
    → Passed r (verified r answer)
answer-Passed r none e good =
    let same = review-success (record r { parity_status = passed }) good in
    (sym (ap (λ s. s.success) same) ∙ good, ap (λ s. s.parity_status) same)
answer-Passed r (some x) e good = absurd (ground arith)

guarded-Passed :
    (guard : Bool) (r : RunResult) (answer : Option Exc)
    → (r.success ≡ true → guard ≡ true)
    → (if guard then verified r answer else fine_report r).error ≡ none
    → (if guard then verified r answer else fine_report r).result.success ≡ true
    → Passed r (if guard then verified r answer else fine_report r)
guarded-Passed true r answer h e good = answer-Passed r answer e good
guarded-Passed false r answer h e good = absurd (ground (arith, h))

verified-success :
    (requested after_error : Bool) (answers : Answers) (r : RunResult)
    → (verify_outputs requested after_error answers r).error ≡ none
    → (verify_outputs requested after_error answers r).result.success ≡ true
    → (r.success ≡ true)
      × (requested ≡ true
          → (verify_outputs requested after_error answers r).result.parity_status ≡ passed)
verified-success false after_error answers r e good = (good, λ no. absurd (ground arith))
verified-success true after_error answers r e good =
    let both =
      guarded-Passed (r.success || r.interrupted || after_error) r answers.verify_capture
        (λ h. ground arith) e good in
    (both.0, λ _. both.1)

saved-fine :
    (saves : Bool) (answers : Answers) (r : RunResult)
    → (save_outputs saves answers r).error ≡ none
    → ((save_outputs saves answers r).wrote ≡ saves) × ((save_outputs saves answers r).result ≡ r)
saved-fine false answers r e = (refl, refl)
saved-fine true answers r e =
    elim answers.checkpoint_save
        as (λ a.
          (written r a).error ≡ none → ((written r a).wrote ≡ true) × ((written r a).result ≡ r)) [
            | none ↦ λ e. (refl, refl)
            | some x ↦ λ e. absurd (ground arith)
          ]
      e

-- Reports that end in a success found one.
pub verify_capture_outputs-success :
    (verify_output inspects saves after_error : Bool) (answers : Answers) (r : RunResult)
    → let report = verify_capture_outputs verify_output inspects saves after_error answers r in
      report.error ≡ none
      → report.result.success ≡ true
      → (r.success ≡ true)
        × (report.wrote ≡ saves)
        × (verify_output && inspects ≡ true → report.result.parity_status ≡ passed)
unfolding verify_capture_outputs reject_capture
verify_capture_outputs-success verify_output inspects saves after_error answers r e good =
    let verify = verify_outputs (verify_output && inspects) after_error answers in
    let save = save_outputs saves answers in
    let first = inspect_outputs inspects answers r in
    let second = and_then first verify in
    let third = and_then second save in
    let caught =
      handled-fine third.error is_reported reject_capture third refl (λ e r. refl) good e in
    let saved = unless-fine second.error second save refl caught.0 in
    let checked = unless-fine first.error first verify refl saved.0 in
    let ends = caught.1 ∙ saved.1 in
    let kept =
      saved-fine saves answers second.result (ap (λ p. p.error) (sym saved.1) ∙ caught.0) in
    let same = ap (λ p. p.result) ends ∙ kept.1 in
    let passes =
      verified-success (verify_output && inspects) after_error answers first.result
        (ap (λ p. p.error) (sym checked.1) ∙ saved.0)
        (ap (λ p. p.result.success) (sym checked.1) ∙ sym (ap (λ s. s.success) same) ∙ good) in
    (
      sym (inspected-success inspects answers r) ∙ passes.0,
      ap (λ p. p.wrote) ends ∙ kept.0,
      λ h. ap (λ s. s.parity_status) same ∙ ap (λ p. p.result.parity_status) checked.1 ∙ passes.1 h,
    )

abbrev pub Completed : Bool → Option ChatView → RunResult → RunResult → Type 0
Completed required chat r last =
    (r.success ≡ true)
    × (last.parity_status ≡ r.parity_status)
    × (required ≡ true → replay_complete chat last ≡ true)

replay-Completed :
    (required : Bool) (chat : Option ChatView) (r : RunResult)
    → (require_replay required chat r).success ≡ true
    → Completed required chat r (require_replay required chat r)
unfolding require_replay
replay-Completed false chat r good = (good, refl, λ no. absurd (ground arith))
replay-Completed true chat r good =
    let succeeds : r.success ≡ true = ground arith in
    let complete : replay_complete chat r ≡ true = ground arith in
    let same : require_replay true chat r ≡ r = rw complete (rw succeeds refl) in
    (
      succeeds,
      ap (λ s. s.parity_status) same,
      λ _. ap (λ s. replay_complete chat s) same ∙ complete,
    )

manifest-fine :
    (valid : Bool) (r : RunResult) (answer : Option Exc)
    → (if valid then written r answer else fine_report r).error ≡ none
    → ((if valid then written r answer else fine_report r).wrote ≡ valid)
      × ((if valid then written r answer else fine_report r).result ≡ r)
manifest-fine false r answer e = (refl, refl)
manifest-fine true r none e = (refl, refl)
manifest-fine true r (some x) e = absurd (ground arith)

-- A completed record that is a success was one, is complete if required, and is written if valid.
pub complete_run_record-success :
    (required : Bool) (valid : Option Bool) (chat : Option ChatView) (answers : Answers)
    (r : RunResult)
    → let report = complete_run_record required valid chat answers r in
      report.error ≡ none
      → report.result.success ≡ true
      → (report.wrote ≡ is_valid valid) × Completed required chat r report.result
unfolding complete_run_record reject_manifest
complete_run_record-success required valid chat answers r e good =
    let completed = require_replay required chat r in
    let report =
      if is_valid valid then written completed answers.manifest_write else fine_report completed in
    let caught =
      handled-fine report.error is_os_or_value reject_manifest report refl (λ e r. refl) good e in
    let kept = manifest-fine (is_valid valid) completed answers.manifest_write caught.0 in
    let same = ap (λ p. p.result) caught.1 ∙ kept.1 in
    (
      ap (λ p. p.wrote) caught.1 ∙ kept.0,
      subst (Completed required chat r) (sym same)
          (replay-Completed required chat r (sym (ap (λ s. s.success) same) ∙ good)),
    )
