-- ===== src/Output/Attach.antt =====
-- Attaching writers to a new dispatcher.
use chat_downloader_fork.Base.{
  ℕ, Bool, true, ◌||◌, ◌==◌, if◌then◌else◌, ◌≡◌, refl, ap, sym, ◌∙◌, false, List, [], ◌∷◌, ◌++◌, ℤ,
  Option, nat_Eq, contains, Distinct-snoc, Bool-cases, inl, inr, arith, ==_iff, ==_refl,
}
use chat_downloader_fork.Output.Dispatcher.{Writer, Dispatcher, init, attach_writer}
use chat_downloader_fork.Output.Counts.{Counted, AllCorrect, ids}

-- A dispatcher that has written nothing.
pub record New (d : Dispatcher) : Type 0 where
  pub counted : Counted 0 d
  pub attached : d.attached ≡ ids d.writers
  pub suppressed : d.suppressed ≡ 0

ids-snoc : (ws : List Writer) (w : Writer) → ids (ws ++ w ∷ []) ≡ ids ws ++ w.id ∷ []
ids-snoc [] w = refl
ids-snoc (u ∷ ws) w = ap (◌∷◌ u.id) (ids-snoc ws w)

AllCorrect-attach :
    (d : Dispatcher) (w : Writer) (ws : List Writer)
    → d.suppressed ≡ 0
    → contains w.id (ids ws) ≡ false
    → AllCorrect 0 d ws
    → AllCorrect 0 (attach_writer (record d { attached = [] }) w) (ws ++ w ∷ [])
unfolding attach_writer
AllCorrect-attach d w [] s gone p = (ground (arith, ==_refl w.id), tt)
AllCorrect-attach d w (u ∷ ws) s gone (p, ps) = (
  ground (arith, ==_iff w.id u.id, ==_iff u.id w.id),
  AllCorrect-attach d w ws s (ground arith) ps,
)

-- Attaching a writer, or one that is attached already, to a dispatcher that has written nothing.
attach-New : (d : Dispatcher) (w : Writer) → New d → New (attach_writer d w)
unfolding attach_writer
attach-New d w k = elim (Bool-cases (contains w.id d.attached)) [
  | inl there ↦ rw (there, attach_writer) k
  | inr gone ↦
      let apart : contains w.id (ids d.writers) ≡ false = rw (← k.attached) gone in
      rw (gone, attach_writer)
        (record {
          counted = record {
            correct = AllCorrect-attach d w d.writers k.suppressed apart k.counted.correct;
            distinct =
                rw (ids-snoc d.writers w)
                  (Distinct-snoc (ids d.writers) w.id k.counted.distinct apart);
            recovered = k.counted.recovered;
          };
          attached = ap (λ l. l ++ w.id ∷ []) k.attached ∙ sym (ids-snoc d.writers w);
          suppressed = k.suppressed;
        })
]

unfoldable pub attach_all : Dispatcher → List Writer → Dispatcher
attach_all d [] = d
attach_all d (w ∷ ws) = attach_all (attach_writer d w) ws

attach_all-New : (ws : List Writer) (d : Dispatcher) → New d → New (attach_all d ws)
unfolding attach_all
attach_all-New [] d k = k
attach_all-New (w ∷ ws) d k = attach_all-New ws (attach_writer d w) (attach-New d w k)

or-false : (b : Bool) → b ≡ (b || false)
or-false b = ground arith

contains-known :
    (id known : ℕ) (l : List ℕ)
    → contains known l ≡ true
    → contains id l ≡ (contains id l || id == known)
contains-known id known l h = elim (Bool-cases (id == known)) [
  | inl same ↦ let e : id ≡ known = (==_iff id known).0 same in rw e (ground (arith, h))
  | inr other ↦ rw other (or-false (contains id l))
]

contains-snoc :
    (id last : ℕ) (l : List ℕ) → contains id (l ++ last ∷ []) ≡ (contains id l || id == last)
contains-snoc id last [] = ground (arith, ==_iff id last, ==_iff last id)
contains-snoc id last (x ∷ l) = ground (arith, contains-snoc id last l)

-- The ids after one more writer
contains-attach :
    (d : Dispatcher) (w : Writer) (id : ℕ)
    → New d
    → contains id (ids (attach_writer d w).writers) ≡ (contains id (ids d.writers) || id == w.id)
unfolding attach_writer
contains-attach d w id k = elim (Bool-cases (contains w.id d.attached)) [
  | inl there ↦
      let known : contains w.id (ids d.writers) ≡ true = rw (← k.attached) there in
      rw (there, attach_writer) (contains-known id w.id (ids d.writers) known)
  | inr gone ↦
      rw (gone, attach_writer) (rw (ids-snoc d.writers w) (contains-snoc id w.id (ids d.writers)))
]

regroup :
    (a c : Bool) (id known : ℕ) → (a || id == known || c) ≡ (a || (if known == id then true else c))
regroup a c id known = ground (arith, ==_iff id known, ==_iff known id)

contains-attach_all :
    (ws : List Writer) (d : Dispatcher) (id : ℕ)
    → New d
    → contains id (ids (attach_all d ws).writers)
      ≡ (contains id (ids d.writers) || contains id (ids ws))
unfolding attach_all
contains-attach_all [] d id k = or-false (contains id (ids d.writers))
contains-attach_all (w ∷ ws) d id k =
    contains-attach_all ws (attach_writer d w) id (attach-New d w k)
    ∙ ap (λ b. b || contains id (ids ws)) (contains-attach d w id k)
    ∙ regroup (contains id (ids d.writers)) (contains id (ids ws)) id w.id

-- Whatever writers are attached to a new dispatcher, also one writer several times, exactly the
-- given writers are then attached, each once, each has counted no item, and no recovery has
-- failed.
pub attached-Counted :
    (max_seen : Option ℤ) (ws : List Writer) (id : ℕ)
    → Counted 0 (attach_all (init max_seen) ws)
      × (contains id (ids (attach_all (init max_seen) ws).writers) ≡ contains id (ids ws))
unfolding init
attached-Counted max_seen ws id =
    let fresh : New (init max_seen) = record {
      counted = record { correct = tt; distinct = tt; recovered = refl };
      attached = refl;
      suppressed = refl;
    } in
    (
      (attach_all-New ws (init max_seen) fresh).counted,
      contains-attach_all ws (init max_seen) id fresh,
    )
