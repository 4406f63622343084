-- ===== src/Checkpoint/Reload.antt =====
-- A capture's checkpoint from its opening to its file and back.
use mathlib.Core.Path.{subst}
use chat_downloader_fork.Base.{
  if◌then◌else◌, ℕ, ◌≡◌, refl, String, Bool, true, not, ◌||◌, Option, none, some, List, arith,
  Bool-cases, inl, inr, ◌==◌, string_Eq,
}
use chat_downloader_fork.Base.Json.{Json, obj, Fields}
use chat_downloader_fork.Base.Result.{Result, ok, raise, value_error, ok_injective}
use chat_downloader_fork.Output.Dispatcher.{Dispatcher}
use chat_downloader_fork.Run.Policy.{has_record_loss}
use chat_downloader_fork.Checkpoint.Stream.{Stream}
use chat_downloader_fork.Checkpoint.State.{Checkpoint, Replay, Run, is_other, start, bind, reopen}
use chat_downloader_fork.Checkpoint.Remaining.{Next, capture}
use chat_downloader_fork.Checkpoint.Persist.{save, init}
use chat_downloader_fork.Checkpoint.RoundTrip.{Saveable, init-save}
use chat_downloader_fork.Checkpoint.Saveable.{Ready, capture-Ends}
use chat_downloader_fork.Checkpoint.Loaded.{init-Saveable}

module _ (is_digest : String → Bool) (digest : Json → Json → Json → String)
    (hex : (a b c : Json) → is_digest (digest a b c) ≡ true) where
  -- A run that is bound to a chat knows its id.
  bound-Ready :
      (c : Checkpoint) (chat : Replay) (r : Run)
      → Saveable is_digest c 0
      → bind c chat ≡ ok r
      → (id : String) × Ready is_digest digest hex id r.checkpoint 0
  unfolding bind
  bound-Ready c chat r k e = by_id chat.id e
    where
      by_source :
          (id : String) (source : Option Stream)
          → (elim source [
            | none ↦ raise value_error
            | some s ↦
                if is_other c.chat_id id
                then raise value_error
                else ok (start (record c { chat_id = some id }) s chat.termination_reason)
          ])
            ≡ ok r
          → (id : String) × Ready is_digest digest hex id r.checkpoint 0
      by_source id none e = absurd (ground arith)
      by_source id (some s) e = elim (Bool-cases (is_other c.chat_id id)) [
        | inl other ↦ absurd (ground (arith, other))
        | inr same ↦ (
          id,
          subst (λ x. Ready is_digest digest hex id x.checkpoint 0) (ok_injective (rw same at e))
              (
                record {
                  bounded = k.bounded;
                  positive = k.positive;
                  digests = k.digests;
                  known = k.known;
                  counted = k.counted;
                  summed = k.summed;
                  rising = k.rising;
                },
                refl,
              ),
        )
      ]

      by_id :
          (known : Option String)
          → (elim known [
            | none ↦ raise value_error
            | some id ↦
                if not chat.is_completed || id == "" then raise value_error else elim chat.source [
                  | none ↦ raise value_error
                  | some s ↦
                      if is_other c.chat_id id
                      then raise value_error
                      else ok (start (record c { chat_id = some id }) s chat.termination_reason)
                ]
          ])
            ≡ ok r
          → (id : String) × Ready is_digest digest hex id r.checkpoint 0
      by_id none e = absurd (ground arith)
      by_id (some id) e = elim (Bool-cases (not chat.is_completed || id == "")) [
        | inl bad ↦ absurd (ground (arith, bad))
        | inr good ↦ by_source id chat.source (rw good at e)
      ]

  -- If event digests are always well formed, and a checkpoint is opened (with or without a
  -- file), bound to a chat, and run by a capture to whatever end, also a failed one, and is then
  -- saved, then opening the file that was written, for the same request and unchanged files,
  -- gives back what was saved, with the record loss that the run had observed.
  pub captured_reloads :
      (limit : Option ℕ) (fingerprint : String) (before after : List (Option String))
      (disk : Option Json) (c : Checkpoint) (chat : Replay) (r : Run)
      (emit : Fields → Result (Unit {0})) (fuel count : ℕ) (xs : List Fields) (last : Run)
      (ended : Next) (dispatcher : Option Dispatcher) (write_error_count : ℕ) (diagnostics : Fields)
      (saved : Checkpoint) (state : Fields)
      → init is_digest limit fingerprint before disk ≡ ok c
      → bind c chat ≡ ok r
      → capture digest emit fuel (r, 0) ≡ some (xs, (last, count), ended)
      → save fingerprint dispatcher write_error_count diagnostics after count last.checkpoint
        ≡ ok (saved, state)
      → init is_digest limit fingerprint after (some (obj state))
        ≡ ok (reopen limit (record saved { record_loss = has_record_loss diagnostics }))
  captured_reloads limit fingerprint before after disk c chat r emit fuel count xs last ended
        dispatcher errors diagnostics saved state opened bound captured wrote =
      let (id, ready) =
        bound-Ready c chat r (init-Saveable is_digest limit fingerprint before disk c opened)
          bound in
      let ends : Ready is_digest digest hex id last.checkpoint count =
        rw captured at (capture-Ends is_digest digest hex emit id fuel r 0 ready) in
      init-save is_digest fingerprint id limit dispatcher errors diagnostics after last.checkpoint
        saved count state ends.0 ends.1 wrote
