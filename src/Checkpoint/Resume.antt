-- ===== src/Checkpoint/Resume.antt =====
-- A resumed capture goes on exactly where the checkpoint was written.
use native.Mathlib.Nat.{add-zero}
use chat_downloader_fork.Base.{
  ℕ, suc, zero, ◌+◌, ◌≤◌, ◌<◌, ◌≡◌, refl, ap, sym, ◌∙◌, String, Bool, true, false, not, ◌&&◌,
  Option, none, some, List, [], ◌∷◌, ◌++◌, if◌then◌else◌, ◌==◌, string_Eq, int_Eq, ℤ, ltb, leb,
  length, ◌≤ℤ◌, ◌<ℤ◌, int_eq_iff, ==_iff, ==_refl, arith, Bool-cases, inl, inr, ◌⊎◌,
}
use chat_downloader_fork.Base.Json.{Json, Fields}
use chat_downloader_fork.Checkpoint.Events.{Events, count, is_in, decrement, count-decrement}
use chat_downloader_fork.Checkpoint.Stream.{Stream, done, item, yield_all}
use chat_downloader_fork.Checkpoint.State.{
  Checkpoint, same_offset, boundary_limit, event_identity, observe_event,
}
use chat_downloader_fork.Checkpoint.Remaining.{
  below, judge, judge_event, resumable_offset, scan, observe, overlapping, fresh,
}
use chat_downloader_fork.Base.Result.{Result, ok}
use chat_downloader_fork.Checkpoint.Boundary.{
  Sorted, Upto, resumable-ne-marker, identity, tally, observe_all,
}
use chat_downloader_fork.Checkpoint.Events.{length-increment}
use chat_downloader_fork.Checkpoint.State.{Run}
use chat_downloader_fork.Checkpoint.Remaining.{
  yielded, Next, stop, error, message, found_run, search, resume, reached, next, ran_out, advance,
  capture,
}

module _ (digest : Json → Json → Json → String) where
  judge-valid :
      (c : Checkpoint) (last : Option ℤ) (overlap : Events) (x : Fields) (q : ℤ)
      → resumable_offset x ≡ some q
      → judge digest c last overlap x ≡ judge_event c last overlap q (event_identity digest x)
  unfolding judge
  judge-valid c last overlap x q is = rw (resumable-ne-marker x q is, is) refl

  judge-old :
      (c : Checkpoint) (last : Option ℤ) (overlap : Events) (q o : ℤ) (k : String)
      → c.prior_offset ≡ some o
      → q <ℤ o
      → judge_event c last overlap q k ≡ overlapping false
  unfolding judge_event
  judge-old c last overlap q o k e lt =
      let old : below q c.prior_offset ≡ true = rw e (ground arith) in rw old refl

  judge-boundary :
      (c : Checkpoint) (last : Option ℤ) (overlap : Events) (o : ℤ) (k : String)
      → c.prior_offset ≡ some o
      → 0 < count k overlap
      → judge_event c last overlap o k ≡ overlapping true
  unfolding judge_event
  judge-boundary c last overlap o k e pos =
      let at : below o c.prior_offset ≡ false = rw e (ground arith) in
      let same : same_offset (some o) c.prior_offset ≡ true = rw e (==_refl o) in
      let seen : ltb 0 (count k overlap) ≡ true = ground arith in rw (at, same, seen) refl

  -- The rest of the overlap counts nothing.
  abbrev pub Spent : Events → Type 0
  Spent overlap = (k : String) → count k overlap ≡ 0

  scan-old :
      (c : Checkpoint) (last : Option ℤ) (overlap : Events) (n : ℕ) (x : Fields) (q o : ℤ)
      (s : Stream)
      → resumable_offset x ≡ some q
      → c.prior_offset ≡ some o
      → q <ℤ o
      → scan digest c last overlap n (item x s) ≡ scan digest c last overlap (n + 1) s
  unfolding scan
  scan-old c last overlap n x q o s is e lt =
      rw
        (
          judge-valid c last overlap x q is
              ∙ judge-old c last overlap q o (event_identity digest x) e lt,
          scan,
        )
        refl

  scan-boundary :
      (c : Checkpoint) (last : Option ℤ) (overlap : Events) (n : ℕ) (x : Fields) (o : ℤ)
      (s : Stream)
      → resumable_offset x ≡ some o
      → c.prior_offset ≡ some o
      → 0 < count (identity digest x) overlap
      → scan digest c last overlap n (item x s)
        ≡ scan digest c last (decrement (identity digest x) overlap) (n + 1) s
  unfolding scan
  scan-boundary c last overlap n x o s is e pos =
      rw
        (
          judge-valid c last overlap x o is
              ∙ judge-boundary c last overlap o (event_identity digest x) e pos,
          scan,
        )
        refl

  -- All records up to the committed offset are suppressed, and their overlap is used up.
  pub suppress :
      (c : Checkpoint) (o : ℤ) (last : Option ℤ)
      → c.prior_offset ≡ some o
      → (pre : List Fields) (overlap : Events) (n : ℕ) (s : Stream) → Upto o pre
      → ((k : String) → count k overlap ≡ tally digest k o pre)
      → (left : Events) × (scan digest c last overlap n (yield_all pre s)
          ≡ scan digest c last left (n + length pre) s)
        × Spent left
  unfolding tally
  suppress c o last e [] overlap n s up counts =
      (overlap, ap (λ m. scan digest c last overlap m s) (sym (add-zero n)), counts)
  suppress c o last e (x ∷ pre) overlap n s ((q, is, le), up) counts = elim (Bool-cases (q == o)) [
    | inl same ↦
        let at : q ≡ o = (==_iff q o).0 same in
        let own : count (identity digest x) overlap ≡ suc (tally digest (identity digest x) o pre) =
          counts (identity digest x) ∙ rw (is, same, ==_refl (identity digest x)) (omega arith) in
        let (left, shape, spent) =
          suppress c o last e pre (decrement (identity digest x) overlap) (n + 1) s up
            (λ k. one_less k at (counts k)) in
        (
          left,
          scan-boundary c last overlap n x o (yield_all pre s) (is ∙ ap some at) e
                (omega (arith, own))
              ∙ shape
              ∙ ap (λ m. scan digest c last left m s) (omega arith),
          spent,
        )
    | inr differ ↦
        let (left, shape, spent) =
          suppress c o last e pre overlap (n + 1) s up
            (λ k. counts k ∙ rw (is, differ) (omega arith)) in
        (
          left,
          scan-old c last overlap n x q o (yield_all pre s) is e (ground (arith, differ))
              ∙ shape
              ∙ ap (λ m. scan digest c last left m s) (omega arith),
          spent,
        )
  ]
    where
      one_less :
          (k : String)
          → q ≡ o
          → count k overlap
            ≡ (if same_offset (resumable_offset x) (some o) && (identity digest x == k)
                then 1
                else 0)
              + tally digest k o pre
          → count k (decrement (identity digest x) overlap) ≡ tally digest k o pre
      one_less k at h =
          ground (arith, count-decrement (identity digest x) k overlap, ==_refl o, int_eq_iff q o)

  -- Where the committed offset stands to the last one.
  abbrev pub PriorLe : Option ℤ → Option ℤ → Type 0
  PriorLe none low = Unit
  PriorLe (some p) none = ⊥
  PriorLe (some p) (some l) = p ≤ℤ l

  not_before_prior :
      (prior low : Option ℤ) (q : ℤ)
      → PriorLe prior low
      → below q low ≡ false
      → (below q prior ≡ false) × PriorLe prior (some q)
  not_before_prior none low q p h = (refl, tt)
  not_before_prior (some p) none q no_low h = absurd no_low
  not_before_prior (some p) (some l) q le h = (ground arith, ground arith)

  -- Observing the records never gives more than `boundary_limit` events at one offset.
  abbrev pub Roomy : Checkpoint → List Fields → Type 0
  Roomy c [] = Unit
  Roomy c (x ∷ xs) =
      (length (observe digest x c).events ≤ boundary_limit) × Roomy (observe digest x c) xs

  not_crowded :
      (c : Checkpoint) (x : Fields) (q : ℤ)
      → resumable_offset x ≡ some q
      → length (observe digest x c).events ≤ boundary_limit
      → (same_offset (some q) c.offset
          && not (is_in (identity digest x) c.events)
          && leb boundary_limit (length c.events))
        ≡ false
  unfolding observe observe_event
  not_crowded c x q is room = ground (arith, length-increment (identity digest x) c.events)

  judge-fresh :
      (c : Checkpoint) (low : Option ℤ) (overlap : Events) (x : Fields) (q : ℤ)
      → resumable_offset x ≡ some q
      → below q c.prior_offset ≡ false
      → count (identity digest x) overlap ≡ 0
      → below q low ≡ false
      → length (observe digest x c).events ≤ boundary_limit
      → judge digest c low overlap x ≡ fresh
  unfolding judge_event
  judge-fresh c low overlap x q is prior spent later room =
      rw (judge-valid c low overlap x q is, prior, spent, later, not_crowded c x q is room)
        (ground arith)

  -- A run that is ready to yield all of the records.
  pub record Ready (r : Run) (low : Option ℤ) (xs : List Fields) : Type 0 where
    pub source : r.source ≡ yield_all xs done
    pub spent : Spent r.overlap
    pub last : r.last_offset ≡ low
    pub prior : PriorLe r.checkpoint.prior_offset low
    pub sorted : Sorted low xs
    pub roomy : Roomy r.checkpoint xs

  abbrev yielding : Run → Fields → Stream → Run
  yielding r x rest = record r { pending = true; last_offset = resumable_offset x; source = rest }

  scan-fresh :
      (c : Checkpoint) (low : Option ℤ) (overlap : Events) (n : ℕ) (x : Fields) (rest : Stream)
      → judge digest c low overlap x ≡ fresh
      → scan digest c low overlap n (item x rest) ≡ yielded x overlap n rest
  unfolding scan
  scan-fresh c low overlap n x rest h = rw (h, scan) refl

  abbrev pub scanned : Run → Stream → Run × Next
  scanned r s = found_run r (scan digest r.checkpoint r.last_offset r.overlap r.suppressed s)

  pub search-source : (r : Run) (s : Stream) → r.source ≡ s → search digest r ≡ scanned r s
  unfolding search
  search-source r s e = ap (scanned r) e

  search-fresh :
      (r : Run) (low : Option ℤ) (x : Fields) (xs : List Fields)
      → Ready r low (x ∷ xs)
      → search digest r ≡ (yielding r x (yield_all xs done), message x)
  search-fresh r low x xs k =
      let (q, is, later, more) = k.sorted in
      let (prior, _) = not_before_prior r.checkpoint.prior_offset low q k.prior later in
      let verdict =
        judge-fresh r.checkpoint r.last_offset r.overlap x q is prior (k.spent (identity digest x))
          (ap (below q) k.last ∙ later) k.roomy.0 in
      search-source r (yield_all (x ∷ xs) done) k.source
      ∙ ap (found_run r) (
          scan-fresh r.checkpoint r.last_offset r.overlap r.suppressed x (yield_all xs done)
            verdict)

  -- Where a run has come to the end of its source.
  abbrev ended : Run → Run
  ended r = record r {
    checkpoint = record r.checkpoint { completed = ran_out r.termination_reason };
    pending = false;
    source = done;
  }

  search-done : (r : Run) → r.source ≡ done → search digest r ≡ (ended r, stop)
  search-done r e = search-source r done e ∙ unfold scan in refl

  -- The state after an accepted item, and the state in which the next search starts.
  abbrev counted : Run → Run
  counted r = record r { emitted = if r.pending then r.emitted + 1 else r.emitted }

  abbrev full : Run → Bool
  full r = r.pending && reached r.checkpoint.limit (r.emitted + 1)

  next-open : (r : Run) → full r ≡ false → next digest r ≡ search digest (counted r)
  unfolding next resume
  next-open r h = ground arith

  next-full :
      (r : Run)
      → full r ≡ true
      → next digest r ≡ (
        record r {
          pending = false;
          emitted = r.emitted + 1;
          source = done;
          termination_reason = some "message_limit";
        },
        stop,
      )
  unfolding next resume
  next-full r h = ground arith

  Ready-counted :
      {r : Run} {low : Option ℤ} {xs : List Fields} → Ready r low xs → Ready (counted r) low xs
  Ready-counted k = record {
    source = k.source;
    spent = k.spent;
    last = k.last;
    prior = k.prior;
    sorted = k.sorted;
    roomy = k.roomy;
  }

  -- The records of `front` are yielded within the limit, and then the limit is reached, or nothing
  -- is left.
  abbrev pub Plays : Option ℕ → Bool → ℕ → List Fields → List Fields → Type 0
  Plays limit pending emitted [] back =
      ((pending && reached limit (emitted + 1)) ≡ true)
      ⊎ (((pending && reached limit (emitted + 1)) ≡ false) × (back ≡ []))
  Plays limit pending emitted (x ∷ front) back =
      ((pending && reached limit (emitted + 1)) ≡ false)
      × Plays limit true (if pending then emitted + 1 else emitted) front back

  -- What a capture gives: the records, a count that grew by them, and a checkpoint at their boundary.
  pub record Captured (emit : Fields → Result (Unit {0})) (fuel : ℕ) (r : Run) (m : ℕ)
      (front : List Fields) : Type 0 where
    pub last : Run
    pub runs : capture digest emit fuel (r, m) ≡ some (front, (last, m + length front), stop)
    pub offset : last.checkpoint.offset ≡ (observe_all digest front r.checkpoint).offset
    pub events : last.checkpoint.events ≡ (observe_all digest front r.checkpoint).events

  observe-keeps :
      (x : Fields) (c : Checkpoint)
      → ((observe digest x c).prior_offset ≡ c.prior_offset)
        × ((observe digest x c).limit ≡ c.limit)
  unfolding observe observe_event
  observe-keeps x c = ground arith

  module _ (emit : Fields → Result (Unit {0})) (accepts : (x : Fields) → emit x ≡ ok tt) where
    -- The two loops' bodies, over what the call before gave.
    abbrev pub accepted : ℕ → Run × Next → (Run × ℕ) × Next
    accepted m (r', stop) = ((r', m), stop)
    accepted m (r', error e) = ((r', m), error e)
    accepted m (r', message x) =
        ((record r' { checkpoint = observe digest x r'.checkpoint }, m + 1), message x)

    advance-accepted : (r : Run) (m : ℕ) → advance digest emit (r, m) ≡ accepted m (next digest r)
    unfolding advance
    advance-accepted r m = go (next digest r) refl
      where
        go :
            (p : Run × Next)
            → next digest r ≡ p
            → advance digest emit (r, m) ≡ accepted m (next digest r)
        go (r', stop) e = ground arith
        go (r', error x) e = ground arith
        go (r', message x) e = ground (arith, accepts x)

    abbrev pub extend :
        Fields → Option (List Fields × (Run × ℕ) × Next) → Option (List Fields × (Run × ℕ) × Next)
    extend x none = none
    extend x (some (xs, last, ended)) = some (x ∷ xs, last, ended)

    abbrev pub continued : ℕ → (Run × ℕ) × Next → Option (List Fields × (Run × ℕ) × Next)
    continued fuel (state, stop) = some ([], state, stop)
    continued fuel (state, error e) = some ([], state, error e)
    continued fuel (state, message x) = extend x (capture digest emit fuel state)

    pub capture-continued :
        (fuel : ℕ) (r : Run) (m : ℕ)
        → capture digest emit (suc fuel) (r, m) ≡ continued fuel (accepted m (next digest r))
    unfolding capture
    capture-continued fuel r m =
        go (advance digest emit (r, m)) refl ∙ ap (continued fuel) (advance-accepted r m)
      where
        go :
            (p : (Run × ℕ) × Next)
            → advance digest emit (r, m) ≡ p
            → capture digest emit (suc fuel) (r, m) ≡ continued fuel (advance digest emit (r, m))
        go (state, stop) e = ground arith
        go (state, error x) e = ground arith
        go (state, message x) e = ground arith

    capture-stop :
        (fuel : ℕ) (r s : Run) (m : ℕ)
        → next digest r ≡ (s, stop)
        → capture digest emit (suc fuel) (r, m) ≡ some ([], (s, m), stop)
    capture-stop fuel r s m e =
        capture-continued fuel r m ∙ ap (λ p. continued fuel (accepted m p)) e

    capture-message :
        (fuel : ℕ) (r s : Run) (m : ℕ) (x : Fields) (xs : List Fields) (t : Run × ℕ) (z : Next)
        → next digest r ≡ (s, message x)
        → capture digest emit fuel (record s { checkpoint = observe digest x s.checkpoint }, m + 1)
          ≡ some (xs, t, z)
        → capture digest emit (suc fuel) (r, m) ≡ some (x ∷ xs, t, z)
    capture-message fuel r s m x xs t z e later =
        capture-continued fuel r m ∙ ap (λ p. continued fuel (accepted m p)) e ∙ ap (extend x) later

    abbrev onward : Run → Fields → Stream → Run
    onward r x rest =
        let s = yielding (counted r) x rest in
        record s { checkpoint = observe digest x s.checkpoint }

    Ready-onward :
        (r : Run) (low : Option ℤ) (x : Fields) (xs : List Fields) (k : Ready r low (x ∷ xs))
        → Ready (onward r x (yield_all xs done)) (some k.sorted.0) xs
    Ready-onward r low x xs k =
        let (q, is, later, more) = k.sorted in
        let (_, prior) = not_before_prior r.checkpoint.prior_offset low q k.prior later in
        record {
          source = refl;
          spent = k.spent;
          last = is;
          prior = rw (observe-keeps x r.checkpoint).0 prior;
          sorted = more;
          roomy = k.roomy.1;
        }

    pub capture-front :
        (front back : List Fields) (fuel : ℕ) (r : Run) (low : Option ℤ) (m : ℕ)
        → length front < fuel
        → Ready r low (front ++ back)
        → Plays r.checkpoint.limit r.pending r.emitted front back
        → Captured emit fuel r m front
    unfolding observe_all
    capture-front front back zero r low m h k p = elim h [ ]
    capture-front [] back (suc fuel) r low m h k (inl limit) = record {
      last = _;
      runs =
          capture-stop fuel r _ m (next-full r limit)
          ∙ ap (λ n. some ([], (_, n), stop)) (sym (add-zero m));
      offset = refl;
      events = refl;
    }
    capture-front [] back (suc fuel) r low m h k (inr (open_, empty)) = record {
      last = ended (counted r);
      runs =
          capture-stop fuel r (ended (counted r)) m (
            next-open r open_
            ∙ search-done (counted r) (k.source ∙ ap (λ l. yield_all l done) empty))
          ∙ ap (λ n. some ([], (ended (counted r), n), stop)) (sym (add-zero m));
      offset = refl;
      events = refl;
    }
    capture-front (x ∷ front) back (suc fuel) r low m h k (open_, p) =
        let rest = yield_all (front ++ back) done in
        let s = onward r x rest in
        let c =
          capture-front front back fuel s (some k.sorted.0) (m + 1) (omega arith)
            (Ready-onward r low x (front ++ back) k) (rw (observe-keeps x r.checkpoint).1 p) in
        record {
          last = c.last;
          runs =
              capture-message fuel r (yielding (counted r) x rest) m x front _ stop
                (next-open r open_
                  ∙ search-fresh (counted r) low x (front ++ back) (Ready-counted k))
                c.runs
              ∙ ap (λ n. some (x ∷ front, (c.last, n), stop)) (omega arith);
          offset = c.offset;
          events = c.events;
        }
