-- ===== src/Dedup/Console.antt =====
-- The console states: how many are remembered, and which repetitions are kept quiet.
use chat_downloader_fork.Base.{
  ℕ, suc, ◌≤◌, ◌≡◌, refl, ap, String, true, false, Option, none, some, List, [], ◌∷◌, ◌++◌, map,
  ◌==◌, ◌||◌, string_Eq, length, arith, length-append, Bool-cases, ◌⊎◌, inl, inr, ==_iff, ==_refl,
  contains, Distinct, Distinct-snoc, ℤ, pos,
}
use chat_downloader_fork.Dedup.Formatted.{
  ConsoleState, ConsoleDedup, pop_state, trim_states, changed, console_should_emit,
}

abbrev pub keys : List (String × String) → List String
keys = map (λ e. e.0)

-- At most `max_states` states are remembered, each once.
pub record IsValid (limit : ℕ) (d : ConsoleDedup) : Type 0 where
  pub limit_is : d.max_states ≡ pos (suc limit)
  pub few : length d.states ≤ suc limit
  pub distinct : Distinct (keys d.states)

absent-pop :
    (k a : String) (l : List (String × String))
    → contains a (keys l) ≡ false
    → contains a (keys (pop_state k l).1) ≡ false
unfolding pop_state
absent-pop k a [] h = refl
absent-pop k a ((j, v) ∷ l) h = ground (arith, absent-pop k a l)

Distinct-pop :
    (k : String) (l : List (String × String))
    → Distinct (keys l)
    → Distinct (keys (pop_state k l).1) × (contains k (keys (pop_state k l).1) ≡ false)
unfolding pop_state
Distinct-pop k [] d = (tt, refl)
Distinct-pop k ((j, v) ∷ l) d = elim (Bool-cases (j == k)) [
  | inl here ↦ rw (here, pop_state) (d.1, ground (arith, ==_iff j k))
  | inr there ↦
      let (d', gone) = Distinct-pop k l d.1 in
      rw (there, pop_state) ((absent-pop k j l d.0, d'), ground arith)
]

length-pop-le : (k : String) (l : List (String × String)) → length (pop_state k l).1 ≤ length l
unfolding pop_state
length-pop-le k [] = omega arith
length-pop-le k ((j, v) ∷ l) = ground (arith, length-pop-le k l)

-- A found key leaves one state fewer.
pop_missing :
    (k : String) (l : List (String × String))
    → contains k (keys l) ≡ false
    → pop_state k l ≡ (none, l)
unfolding pop_state
pop_missing k [] h = refl
pop_missing k ((j, v) ∷ l) h = ground (arith, pop_missing k l)

pop-snoc :
    (k f : String) (l : List (String × String))
    → contains k (keys l) ≡ false
    → (pop_state k (l ++ (k, f) ∷ [])).0 ≡ some f
unfolding pop_state
pop-snoc k f [] h = rw (==_refl k)
pop-snoc k f ((j, v) ∷ l) h = ground (arith, pop-snoc k f l)

keys-snoc : (l : List (String × String)) (k f : String) → keys (l ++ (k, f) ∷ []) ≡ keys l ++ k ∷ []
keys-snoc [] k f = refl
keys-snoc (x ∷ l) k f = ap (◌∷◌ x.0) (keys-snoc l k f)

-- The new list of states, before and after the oldest is dropped.
abbrev replaced : ConsoleDedup → String → String → List (String × String)
replaced d k f = (pop_state k d.states).1 ++ (k, f) ∷ []

trim-Distinct :
    (limit : ℤ) (l : List (String × String))
    → Distinct (keys l)
    → Distinct (keys (trim_states limit l))
unfolding trim_states
trim-Distinct limit [] d = ground arith
trim-Distinct limit (x ∷ l) d = ground arith

length-trim-le :
    (limit : ℕ) (l : List (String × String))
    → length l ≤ suc (suc limit)
    → length (trim_states (pos (suc limit)) l) ≤ suc limit
unfolding trim_states
length-trim-le limit [] h = ground arith
length-trim-le limit (x ∷ l) h = ground arith

pop-trim :
    (limit : ℕ) (k f : String) (l : List (String × String))
    → contains k (keys l) ≡ false
    → (pop_state k (trim_states (pos (suc limit)) (l ++ (k, f) ∷ []))).0 ≡ some f
unfolding trim_states
pop-trim limit k f [] h = unfold pop_state in ground (arith, ==_refl k)
pop-trim limit k f ((j, v) ∷ l) h = ground (arith, pop-snoc k f l, pop-snoc k f ((j, v) ∷ l))

digest_cases :
    (o : Option (String × String)) → (o ≡ none) ⊎ ((k : String) × (f : String) × (o ≡ some (k, f)))
digest_cases none = inl refl
digest_cases (some (k, f)) = inr (k, f, refl)

-- What a serialisable state leaves.
abbrev with_states : ℤ → List (String × String) → ConsoleDedup
with_states m l = record { max_states = m; states = l }

console_step :
    (limit : ℕ) (d : ConsoleDedup) (state : ConsoleState) (k f : String)
    → d.max_states ≡ pos (suc limit)
    → state.digests ≡ some (k, f)
    → console_should_emit d (some state) ≡ (
      with_states (pos (suc limit)) (trim_states (pos (suc limit)) (replaced d k f)),
      state.always_display || changed (pop_state k d.states).0 f,
    )
unfolding console_should_emit
console_step limit d state k f e e' =
    rw (e, e', console_should_emit)
      (ap
        (λ m. (
          with_states m (trim_states m (replaced d k f)),
          state.always_display || changed (pop_state k d.states).0 f,
        ))
        e)

console_clear :
    (limit : ℕ) (d : ConsoleDedup) (state : ConsoleState)
    → d.max_states ≡ pos (suc limit)
    → state.digests ≡ none
    → console_should_emit d (some state) ≡ (with_states (pos (suc limit)) [], true)
unfolding console_should_emit
console_clear limit d state e e' =
    rw (e, e', console_should_emit) (ap (λ m. (with_states m [], true)) e)

module _ (limit : ℕ) (d : ConsoleDedup) (v : IsValid limit d) where
  trimmed-IsValid :
      (k f : String)
      → IsValid limit
          (with_states (pos (suc limit)) (trim_states (pos (suc limit)) (replaced d k f)))
  trimmed-IsValid k f =
      let (dist, gone) = Distinct-pop k d.states v.distinct in
      let size = length-append (pop_state k d.states).1 ((k, f) ∷ []) in
      record {
        limit_is = refl;
        few =
            length-trim-le limit (replaced d k f)
              (omega (arith, size, length-pop-le k d.states, v.few));
        distinct = trim-Distinct (pos (suc limit)) (replaced d k f) (
            rw (keys-snoc (pop_state k d.states).1 k f)
              (Distinct-snoc (keys (pop_state k d.states).1) k dist gone));
      }

  -- From a valid console deduplicator with a positive bound, any state, serialisable or not,
  -- leaves a valid one: at most `max_states` states are remembered, and each identity once.
  pub console-IsValid :
      (state : Option ConsoleState) → IsValid limit (console_should_emit d state).0
  unfolding console_should_emit
  console-IsValid none = v
  console-IsValid (some state) = elim (digest_cases state.digests) [
    | inl e ↦
        rw (console_clear limit d state v.limit_is e)
          (record { limit_is = refl; few = omega arith; distinct = tt })
    | inr (k, f, e) ↦ rw (console_step limit d state k f v.limit_is e) (trimmed-IsValid k f)
  ]

  -- A serialisable console state that is offered twice in a row to a valid deduplicator is shown
  -- the second time exactly if it must always be shown.
  pub console_repeated :
      (state : ConsoleState) (k f : String)
      → state.digests ≡ some (k, f)
      → (console_should_emit (console_should_emit d (some state)).0 (some state)).1
        ≡ state.always_display
  console_repeated state k f e =
      let again =
        pop-trim limit k f (pop_state k d.states).1 (Distinct-pop k d.states v.distinct).1 in
      rw (console_step limit d state k f v.limit_is e) (
        rw
          (console_step limit
            (with_states (pos (suc limit)) (trim_states (pos (suc limit)) (replaced d k f))) state k
            f refl e)
          (ground (arith, again, ==_refl f)))
