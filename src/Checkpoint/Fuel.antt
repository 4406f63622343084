-- ===== src/Checkpoint/Fuel.antt =====
-- A capture loop ends: each message takes a record from the source.
use chat_downloader_fork.Base.{
  ℕ, zero, suc, ◌+◌, ◌<◌, ◌≡◌, refl, ℤ, String, true, false, Option, none, some, List, ◌∷◌, arith,
  Bool-cases, inl, inr,
}
use chat_downloader_fork.Base.Json.{Json, Fields}
use chat_downloader_fork.Base.Result.{Result, Result-cases}
use chat_downloader_fork.Checkpoint.Events.{Events, decrement}
use chat_downloader_fork.Checkpoint.Stream.{Stream, done, fail, item}
use chat_downloader_fork.Checkpoint.State.{Checkpoint, Run, event_identity}
use chat_downloader_fork.Checkpoint.Remaining.{
  Judgement, skip_marker, malformed, backwards, crowded, fresh, overlapping, judge, Found,
  exhausted, raised, yielded, scan, Next, stop, error, message, found_run, reached, search, resume,
  next, advance, capture,
}

-- The records that a stream still has
abbrev size : Stream → ℕ
size done = 0
size (fail e) = 0
size (item x rest) = 1 + size rest

module _ (digest : Json → Json → Json → String) where
  abbrev Shrinks : ℕ → Found → Type 0
  Shrinks n (yielded x overlap s rest) = size rest < n
  Shrinks n (exhausted overlap s) = Unit
  Shrinks n (raised e overlap s) = Unit

  Shrinks-suc : (n : ℕ) (f : Found) → Shrinks n f → Shrinks (1 + n) f
  Shrinks-suc n (yielded x overlap s rest) h = omega arith
  Shrinks-suc n (exhausted overlap s) h = tt
  Shrinks-suc n (raised e overlap s) h = tt

  scan-Shrinks :
      (c : Checkpoint) (last : Option ℤ) (overlap : Events) (s : ℕ) (source : Stream)
      → Shrinks (size source) (scan digest c last overlap s source)
  unfolding scan
  scan-Shrinks c last overlap s done = tt
  scan-Shrinks c last overlap s (fail e) = tt
  scan-Shrinks c last overlap s (item x rest) =
      go (judge digest c last overlap x) refl
        (λ seen k. Shrinks-suc (size rest) _ (scan-Shrinks c last seen k rest))
    where
      go :
          (j : Judgement)
          → judge digest c last overlap x ≡ j
          → ((seen : Events) (k : ℕ) → Shrinks (1 + size rest) (scan digest c last seen k rest))
          → Shrinks (1 + size rest) (scan digest c last overlap s (item x rest))
      go skip_marker e more = rw (e, scan) (more overlap s)
      go malformed e more = rw (e, scan) tt
      go backwards e more = rw (e, scan) tt
      go crowded e more = rw (e, scan) tt
      go (overlapping false) e more = rw (e, scan) (more overlap (s + 1))
      go (overlapping true) e more =
          rw (e, scan) (more (decrement (event_identity digest x) overlap) (s + 1))
      go fresh e more = rw (e, scan) (omega arith)

  -- After a message, fewer records are left.
  abbrev Smaller : ℕ → Run × Next → Type 0
  Smaller n (r, message x) = size r.source < n
  Smaller n (r, stop) = Unit
  Smaller n (r, error e) = Unit

  found_run-Smaller : (r : Run) (n : ℕ) (f : Found) → Shrinks n f → Smaller n (found_run r f)
  found_run-Smaller r n (exhausted overlap s) h = tt
  found_run-Smaller r n (raised e overlap s) h = tt
  found_run-Smaller r n (yielded x overlap s rest) h = h

  search-Smaller : (r : Run) → Smaller (size r.source) (search digest r)
  unfolding search
  search-Smaller r =
      found_run-Smaller r (size r.source) _
        (scan-Shrinks r.checkpoint r.last_offset r.overlap r.suppressed r.source)

  next-Smaller : (r : Run) → Smaller (size r.source) (next digest r)
  unfolding next resume
  next-Smaller r = elim (Bool-cases r.pending) [
    | inr idle ↦ rw (idle, next) (search-Smaller r)
    | inl pending ↦ elim (Bool-cases (reached r.checkpoint.limit (r.emitted + 1))) [
      | inl full ↦ rw (pending, full, next, resume) tt
      | inr more ↦
          rw (pending, more, next, resume) (search-Smaller (record r { emitted = r.emitted + 1 }))
    ]
  ]

  abbrev Halts : Option (List Fields × (Run × ℕ) × Next) → Type 0
  Halts o = (end : List Fields × (Run × ℕ) × Next) × (o ≡ some end)

  later-Halts :
      (x : Fields) (rest : Option (List Fields × (Run × ℕ) × Next))
      → Halts rest
      → Halts (elim rest [ none ↦ none | some (xs, last, ended) ↦ some (x ∷ xs, last, ended) ])
  later-Halts x none (end, e) = absurd (ground arith)
  later-Halts x (some (xs, last, ended)) h = ((x ∷ xs, last, ended), refl)

  advance-smaller :
      (emit : Fields → Result (Unit {0})) (r : Run) (n : ℕ) (x : Fields)
      → (advance digest emit (r, n)).1 ≡ message x
      → size (advance digest emit (r, n)).0.0.source < size r.source
  unfolding advance
  advance-smaller emit r n x is = go (next digest r).1 refl (next-Smaller r) is
    where
      go :
          (given : Next)
          → (next digest r).1 ≡ given
          → Smaller (size r.source) ((next digest r).0, given)
          → (advance digest emit (r, n)).1 ≡ message x
          → size (advance digest emit (r, n)).0.0.source < size r.source
      go stop e less is = absurd (ground (arith, rw (e, advance) at is))
      go (error y) e less is = absurd (ground (arith, rw (e, advance) at is))
      go (message y) e less is = elim (Result-cases (emit y)) [
        | inl (why, refused) ↦ absurd (ground (arith, rw (e, refused, advance) at is))
        | inr (u, accepted) ↦ rw (e, accepted, advance) less
      ]

  -- The fuel of a capture loop is enough when it exceeds the number of records in the source.
  capture-Halts :
      (emit : Fields → Result (Unit {0})) (fuel : ℕ) (r : Run) (n : ℕ)
      → size r.source < fuel
      → Halts (capture digest emit fuel (r, n))
  unfolding capture
  capture-Halts emit zero r n room = elim room [ ]
  capture-Halts emit (suc fuel) r n room =
      go (advance digest emit (r, n)).1 refl (λ s m. capture-Halts emit fuel s m)
    where
      go :
          (given : Next)
          → (advance digest emit (r, n)).1 ≡ given
          → ((s : Run) (m : ℕ) → size s.source < fuel → Halts (capture digest emit fuel (s, m)))
          → Halts (capture digest emit (suc fuel) (r, n))
      go stop e more = rw (e, capture) (_, refl)
      go (error x) e more = rw (e, capture) (_, refl)
      go (message x) e more =
          let state = (advance digest emit (r, n)).0 in
          rw (e, capture)
            (later-Halts x (capture digest emit fuel state)
              (more state.0 state.1 (omega (arith, advance-smaller emit r n x e, room))))
