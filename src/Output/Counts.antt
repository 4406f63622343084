-- ===== src/Output/Counts.antt =====
-- Every writer's count agrees with the number of items that were emitted.
use mathlib.Core.Path.{subst}
use chat_downloader_fork.Base.{
  ℕ, suc, ◌+◌, ◌≡◌, refl, ap, sym, ◌∙◌, Bool, true, false, not, Option, none, some, List, [], ◌∷◌,
  if◌then◌else◌, ◌==◌, nat_Eq, ◌||◌, String, contains, Distinct, Option-cases, inl, inr, arith,
  ==_iff, ==_refl, map,
}
use chat_downloader_fork.Base.Json.{Fields}
use chat_downloader_fork.Base.Result.{Error, Result}
use chat_downloader_fork.Output.Dispatcher.{
  Writer, Dispatcher, Output, count_record, write_one, decide, Remembered, emit_formatted, emit_one,
  emit_all, emit, settle, all_match, counts_match,
}

-- What the verdict of an item adds to the number of suppressed items.
abbrev extra : Option Bool → ℕ
extra none = 0
extra (some true) = 0
extra (some false) = 1

abbrev is_made : Option Bool → Bool
is_made none = false
is_made (some _) = true

-- A writer that the loop has not come to, and one that it has passed.
abbrev Pending : ℕ → Option Bool → Dispatcher → Writer → Type 0
Pending n verdict d w =
    d.counts w.id + (if w.is_formatted then d.suppressed else 0)
    ≡ n + (if w.is_formatted then extra verdict else 0)

abbrev Settled : ℕ → Option Bool → Dispatcher → Writer → Type 0
Settled n verdict d w =
    (d.counts w.id + (if w.is_formatted then d.suppressed else 0) ≡ suc n)
    × ((not w.is_formatted || is_made verdict) ≡ true)

abbrev pub ids : List Writer → List ℕ
ids = map (λ w. w.id)

-- The writer has written `n` items, less those that are suppressed for formatted writers.
abbrev pub Correct : ℕ → Dispatcher → Writer → Type 0
Correct n d w = d.counts w.id + (if w.is_formatted then d.suppressed else 0) ≡ n

abbrev pub AllCorrect : ℕ → Dispatcher → List Writer → Type 0
AllCorrect n d [] = Unit
AllCorrect n d (w ∷ ws) = Correct n d w × AllCorrect n d ws

abbrev AllPending : ℕ → Option Bool → Dispatcher → List Writer → Type 0
AllPending n verdict d [] = Unit
AllPending n verdict d (w ∷ ws) = Pending n verdict d w × AllPending n verdict d ws

module _ (write : ℕ → Output → Result (Unit {0})) (format : Fields → Result String) where
  abbrev stepped : Fields → Remembered write format → Writer → Dispatcher → Dispatcher
  stepped item memory w d = (emit_one write format item memory w d).0

  abbrev remembered :
      Fields → Remembered write format → Writer → Dispatcher → Remembered write format
  remembered item memory w d = (emit_one write format item memory w d).2

  abbrev WentWell : Fields → Remembered write format → Writer → Dispatcher → Type 0
  WentWell item memory w d = (emit_one write format item memory w d).1 ≡ none

  step-Settled :
      (n : ℕ) (item : Fields) (memory : Remembered write format) (w : Writer) (d : Dispatcher)
      → WentWell item memory w d
      → Pending n memory.0 d w
      → Settled n (remembered item memory w d).0 (stepped item memory w d) w
  unfolding emit_one write_one decide emit_formatted count_record
  step-Settled n item (none, line) w d e p = ground (arith, ==_refl w.id)
  step-Settled n item (some true, line) w d e p = ground (arith, ==_refl w.id)
  step-Settled n item (some false, line) w d e p = ground (arith, ==_refl w.id)

  step-Settled_other :
      (n : ℕ) (item : Fields) (memory : Remembered write format) (w u : Writer) (d : Dispatcher)
      → WentWell item memory w d
      → (w.id == u.id) ≡ false
      → Settled n memory.0 d u
      → Settled n (remembered item memory w d).0 (stepped item memory w d) u
  unfolding emit_one write_one decide emit_formatted count_record
  step-Settled_other n item (none, line) w u d e differ p = ground arith
  step-Settled_other n item (some v, line) w u d e differ p = ground arith

  step-Pending :
      (n : ℕ) (item : Fields) (memory : Remembered write format) (w u : Writer) (d : Dispatcher)
      → WentWell item memory w d
      → (w.id == u.id) ≡ false
      → Pending n memory.0 d u
      → Pending n (remembered item memory w d).0 (stepped item memory w d) u
  unfolding emit_one write_one decide emit_formatted count_record
  step-Pending n item (none, line) w u d e differ p = ground arith
  step-Pending n item (some v, line) w u d e differ p = ground arith

  emit_one-writers :
      (item : Fields) (memory : Remembered write format) (w : Writer) (d : Dispatcher)
      → ((stepped item memory w d).writers ≡ d.writers)
        × ((stepped item memory w d).recovery_failed ≡ d.recovery_failed)
  unfolding emit_one write_one decide emit_formatted count_record
  emit_one-writers item (none, line) w d = ground arith
  emit_one-writers item (some v, line) w d = ground arith

  -- A loop that goes well has gone well at its first writer.
  emit_all-step :
      (item : Fields) (memory : Remembered write format) (w : Writer) (ws : List Writer)
      (d : Dispatcher)
      → (emit_all write format item memory (w ∷ ws) d).1 ≡ none
      → WentWell item memory w d
        × (emit_all write format item memory (w ∷ ws) d
            ≡ emit_all write format item (remembered item memory w d) ws (stepped item memory w d))
  unfolding emit_all
  emit_all-step item memory w ws d h =
      elim (Option-cases (emit_one write format item memory w d).1) [
        | inl good ↦ (good, rw (good, emit_all) refl)
        | inr (e, bad) ↦ absurd (ground (arith, bad))
      ]

  emit_all-writers :
      (item : Fields) (memory : Remembered write format) (ws : List Writer) (d : Dispatcher)
      → ((emit_all write format item memory ws d).0.writers ≡ d.writers)
        × ((emit_all write format item memory ws d).0.recovery_failed ≡ d.recovery_failed)
  unfolding emit_all
  emit_all-writers item memory [] d = (refl, refl)
  emit_all-writers item memory (w ∷ ws) d =
      let (kept, kept') = emit_one-writers item memory w d in
      let (later, later') =
        emit_all-writers item (remembered item memory w d) ws (stepped item memory w d) in
      elim (Option-cases (emit_one write format item memory w d).1) [
        | inl good ↦ rw (good, emit_all) (later ∙ kept, later' ∙ kept')
        | inr (e, bad) ↦ rw (bad, emit_all) (kept, kept')
      ]

  -- A passed writer keeps its count.
  emit_all-Settled :
      (n : ℕ) (item : Fields) (memory : Remembered write format) (ws : List Writer) (u : Writer)
      (d : Dispatcher)
      → (emit_all write format item memory ws d).1 ≡ none
      → contains u.id (ids ws) ≡ false
      → Settled n memory.0 d u
      → Correct (suc n) (emit_all write format item memory ws d).0 u
  unfolding emit_all
  emit_all-Settled n item memory [] u d h gone s = s.0
  emit_all-Settled n item memory (w ∷ ws) u d h gone s =
      let (good, same) = emit_all-step item memory w ws d h in
      let s' = step-Settled_other n item memory w u d good (ground arith) s in
      rw same (
        emit_all-Settled n item (remembered item memory w d) ws u (stepped item memory w d)
          (ap (λ p. p.1) (sym same) ∙ h) (ground arith) s')

  step-AllPending :
      (n : ℕ) (item : Fields) (memory : Remembered write format) (w : Writer) (ws : List Writer)
      (d : Dispatcher)
      → WentWell item memory w d
      → contains w.id (ids ws) ≡ false
      → AllPending n memory.0 d ws
      → AllPending n (remembered item memory w d).0 (stepped item memory w d) ws
  step-AllPending n item memory w [] d good gone p = tt
  step-AllPending n item memory w (u ∷ ws) d good gone (p, ps) = (
    step-Pending n item memory w u d good (ground (arith, ==_iff w.id u.id, ==_iff u.id w.id)) p,
    step-AllPending n item memory w ws d good (ground arith) ps,
  )

  emit_all-Correct :
      (n : ℕ) (item : Fields) (memory : Remembered write format) (ws : List Writer) (d : Dispatcher)
      → (emit_all write format item memory ws d).1 ≡ none
      → Distinct (ids ws)
      → AllPending n memory.0 d ws
      → AllCorrect (suc n) (emit_all write format item memory ws d).0 ws
  emit_all-Correct n item memory [] d h distinct p = tt
  emit_all-Correct n item memory (w ∷ ws) d h (gone, distinct) (p, ps) =
      let (good, same) = emit_all-step item memory w ws d h in
      let h' = ap (λ q. q.1) (sym same) ∙ h in
      let m = remembered item memory w d in
      let d' = stepped item memory w d in
      subst (λ q. AllCorrect (suc n) q.0 (w ∷ ws)) (sym same)
        (
          emit_all-Settled n item m ws w d' h' gone (step-Settled n item memory w d good p),
          emit_all-Correct n item m ws d' h' distinct
              (step-AllPending n item memory w ws d good gone ps),
        )

-- All writers have written `n` items, less those suppressed for formatted ones; they are different
-- writers, and no recovery has failed.
pub record Counted (n : ℕ) (d : Dispatcher) : Type 0 where
  pub correct : AllCorrect n d d.writers
  pub distinct : Distinct (ids d.writers)
  pub recovered : d.recovery_failed ≡ false

all_match-Correct :
    (n : ℕ) (d : Dispatcher) (ws : List Writer) → AllCorrect n d ws → all_match n d ws ≡ true
all_match-Correct n d [] p = refl
all_match-Correct n d (w ∷ ws) (p, ps) = ground (
  arith,
  all_match-Correct n d ws ps,
  ==_iff (d.counts w.id) n,
  ==_iff (d.counts w.id + d.suppressed) n,
)

counts_match-Counted : (n : ℕ) (d : Dispatcher) → Counted n d → counts_match n d ≡ true
unfolding counts_match
counts_match-Counted n d k = ground (arith, k.recovered, all_match-Correct n d d.writers k.correct)

AllPending-Correct :
    (n : ℕ) (d : Dispatcher) (ws : List Writer) → AllCorrect n d ws → AllPending n none d ws
AllPending-Correct n d [] p = tt
AllPending-Correct n d (w ∷ ws) (p, ps) = (ground arith, AllPending-Correct n d ws ps)

AllCorrect-cong :
    (n : ℕ) (c d : Dispatcher) (ws : List Writer)
    → c.counts ≡ d.counts
    → c.suppressed ≡ d.suppressed
    → AllCorrect n c ws
    → AllCorrect n d ws
AllCorrect-cong n c d [] e f p = tt
AllCorrect-cong n c d (w ∷ ws) e f (p, ps) = (rw (← e, ← f) p, AllCorrect-cong n c d ws e f ps)

-- How many items have been written after one more, with or without an error.
abbrev pub written : ℕ → Option Error → ℕ
written n none = suc n
written n (some e) = n

settle-Counted :
    (n : ℕ) (d : Dispatcher) (q : Dispatcher × Option Error)
    → Counted n d
    → q.0.writers ≡ d.writers
    → q.0.recovery_failed ≡ d.recovery_failed
    → (q.1 ≡ none → Counted (suc n) q.0)
    → Counted (written n (settle d true q).1) (settle d true q).0
unfolding settle
settle-Counted n d (after, none) k kept kept' good = good refl
settle-Counted n d (after, some e) k kept kept' good = record {
  correct = rw kept (
      AllCorrect-cong n d (record after { counts = d.counts; suppressed = d.suppressed }) d.writers
        refl refl k.correct);
  distinct = rw kept k.distinct;
  recovered = kept' ∙ k.recovered;
}

module _ (write : ℕ → Output → Result (Unit {0})) (format : Fields → Result String) where
  emit-Counted :
      (n : ℕ) (item : Fields) (d : Dispatcher)
      → Counted n d
      → (emit write format item d).1 ≡ none
      → Counted (suc n) (emit write format item d).0
  unfolding emit
  emit-Counted n item d k h =
      let (kept, kept') = emit_all-writers write format item (none, none) d.writers d in
      let all =
        emit_all-Correct write format n item (none, none) d.writers d h k.distinct
          (AllPending-Correct n d d.writers k.correct) in
      record {
        correct = rw kept all;
        distinct = rw kept k.distinct;
        recovered = kept' ∙ k.recovered;
      }

  -- Let every writer have counted n items, less those suppressed for formatted writers. An item
  -- that is then emitted inside a transaction, by writers and a formatter that may fail at any
  -- point, adds one to this number if it succeeds, and leaves it if it fails and the files can
  -- be cut; either way the counts match the number.
  pub transaction-Counted :
      (n : ℕ) (item : Fields) (d : Dispatcher)
      → Counted n d
      → Counted
          (written n (settle d true (emit write format item d)).1)
          (settle d true (emit write format item d)).0
        × (counts_match
              (written n (settle d true (emit write format item d)).1)
              (settle d true (emit write format item d)).0
            ≡ true)
  unfolding emit
  transaction-Counted n item d k =
      let (kept, kept') = emit_all-writers write format item (none, none) d.writers d in
      let after =
        settle-Counted n d (emit write format item d) k kept kept' (emit-Counted n item d k) in
      (after, counts_match-Counted _ _ after)
