-- ===== src/Checkpoint/Lossless.antt =====
-- A capture that is resumed from its checkpoint loses no record and repeats none.
use mathlib.Core.Path.{subst}
use chat_downloader_fork.Base.{
  ℕ, suc, zero, ◌+◌, ◌≤◌, ◌<◌, ◌≡◌, refl, ap, sym, ◌∙◌, String, Bool, true, false, ◌&&◌, Option,
  none, some, List, [], ◌∷◌, ◌++◌, if◌then◌else◌, ◌==◌, string_Eq, int_Eq, ℤ, length, arith, inl,
  inr,
}
use chat_downloader_fork.Base.Json.{Json, Fields}
use chat_downloader_fork.Checkpoint.Events.{Events, count, increment, count-increment}
use chat_downloader_fork.Checkpoint.Stream.{Stream, done, item, yield_all}
use chat_downloader_fork.Checkpoint.State.{Checkpoint, same_offset, boundary_limit, observe_event}
use chat_downloader_fork.Checkpoint.Remaining.{resumable_offset, scan, observe}
use chat_downloader_fork.Base.Result.{Result, ok}
use chat_downloader_fork.Checkpoint.Boundary.{
  Sorted, Upto, identity, tally, observe_all, Boundary-all, observe-offset, observe-new,
}
use chat_downloader_fork.Checkpoint.State.{Run, start, reopen}
use chat_downloader_fork.Checkpoint.Stream.{ordered_initial_preroll}
use chat_downloader_fork.Checkpoint.Remaining.{
  Found, exhausted, raised, yielded, stop, found_run, search, next, capture,
}
use chat_downloader_fork.Checkpoint.Resume.{
  PriorLe, Roomy, Ready, Plays, Captured, suppress, search-source, accepted, continued,
  capture-continued, capture-front,
}
use chat_downloader_fork.Base.{append-nil, take, drop, take-append-drop, length-append}

yield_all-append :
    (xs ys : List Fields) (s : Stream) → yield_all (xs ++ ys) s ≡ yield_all xs (yield_all ys s)
yield_all-append [] ys s = refl
yield_all-append (x ∷ xs) ys s = ap (item x) (yield_all-append xs ys s)

-- A checkpoint that was read back: its offset, and as many of each event, are those that were
-- written, and both are the committed overlap of the run.
pub record Reopens (saved c : Checkpoint) : Type 0 where
  pub offset : c.offset ≡ saved.offset
  pub prior_offset : c.prior_offset ≡ saved.offset
  pub counts : (k : String) → count k c.prior_events ≡ count k saved.events

-- A checkpoint that has observed nothing.
pub record IsFresh (c : Checkpoint) : Type 0 where
  pub offset : c.offset ≡ none
  pub events : c.events ≡ []
  pub prior_offset : c.prior_offset ≡ none
  pub prior_events : c.prior_events ≡ []

module _ (digest : Json → Json → Json → String) where
  -- The boundary after a first record and others.
  pub Boundary-fresh :
      (x : Fields) (pre post : List Fields) (c : Checkpoint)
      → IsFresh c
      → Sorted none (x ∷ pre ++ post)
      → (o : ℤ) × ((observe_all digest (x ∷ pre) c).offset ≡ some o)
        × Upto o (x ∷ pre)
        × Sorted (some o) post
        × ((k : String)
            → count k (observe_all digest (x ∷ pre) c).events ≡ tally digest k o (x ∷ pre))
  unfolding observe_all tally
  Boundary-fresh x pre post c f (q, is, _, s) =
      let c' = observe digest x c in
      let (o, b) = Boundary-all digest pre post c' q (observe-offset digest x c q is) s in
      let new : same_offset (some q) c.offset ≡ false = rw f.offset refl in
      let events : c'.events ≡ increment (identity digest x) [] =
        ap (λ (d : Checkpoint). d.events) (observe-new digest x c q is new) in
      (
        o,
        b.at,
        ((q, is, b.risen), b.upto),
        b.later,
        λ k. b.counts k ∙ ap (λ n. n + tally digest k o pre) (own k o events),
      )
    where
      own :
          (k : String) (o : ℤ)
          → (observe digest x c).events ≡ increment (identity digest x) []
          → (if q == o then count k (observe digest x c).events else 0) ≡ (
              if same_offset (resumable_offset x) (some o) && (identity digest x == k)
              then 1
              else 0)
      own k o e =
          rw (e, is) (unfold count in ground (arith, count-increment (identity digest x) k []))

  module _ (emit : Fields → Result (Unit {0})) (accepts : (x : Fields) → emit x ≡ ok tt) where
    -- Runs whose next search finds the same go on in the same way.
    same-capture :
        (fuel : ℕ) (r s : Run) (m : ℕ)
        → next digest r ≡ next digest s
        → capture digest emit (suc fuel) (r, m) ≡ capture digest emit (suc fuel) (s, m)
    same-capture fuel r s m e =
        capture-continued digest emit accepts fuel r m
        ∙ ap (λ p. continued digest emit accepts fuel (accepted digest emit accepts m p)) e
        ∙ sym (capture-continued digest emit accepts fuel s m)

    -- The run with the committed part of its source already passed over.
    abbrev past : Run → Events → ℕ → List Fields → Run
    past r left n post = record r { overlap = left; suppressed = n; source = yield_all post done }

    found-past :
        (r : Run) (left : Events) (n : ℕ) (post : List Fields) (f : Found)
        → found_run r f ≡ found_run (past r left n post) f
    found-past r left n post (exhausted o k) = refl
    found-past r left n post (raised e o k) = refl
    found-past r left n post (yielded x o k s) = refl

    search-past :
        (r : Run) (left : Events) (n : ℕ) (pre post : List Fields)
        → r.source ≡ yield_all pre (yield_all post done)
        → scan digest r.checkpoint r.last_offset r.overlap r.suppressed
            (yield_all pre (yield_all post done))
          ≡ scan digest r.checkpoint r.last_offset left n (yield_all post done)
        → search digest r ≡ search digest (past r left n post)
    search-past r left n pre post e shape =
        search-source digest r (yield_all pre (yield_all post done)) e
        ∙ ap (found_run r) shape
        ∙ found-past r left n post
            (scan digest r.checkpoint r.last_offset left n (yield_all post done))
        ∙ sym (search-source digest (past r left n post) (yield_all post done) refl)

    next-start : (r : Run) → r.pending ≡ false → next digest r ≡ search digest r
    unfolding next
    next-start r e = rw e refl

    PriorLe-self : (p : Option ℤ) (o : ℤ) → p ≡ some o → PriorLe digest p p
    PriorLe-self none o e = tt
    PriorLe-self (some q) o e = omega arith

    -- A capture that reads back the checkpoint which was written after some records, and whose
    -- source gives those records again, followed by others in the order of their offsets, writes
    -- exactly those of the others that its own message limit admits, when the writers accept
    -- every record, there are at most 10000 events at an offset, and the fuel exceeds the number
    -- of written records.
    pub resume-Captured :
        (x : Fields) (pre front back : List Fields) (fresh_one c : Checkpoint) (source : Stream)
        (reason : Option String) (m fuel : ℕ)
        → IsFresh fresh_one
        → Reopens (observe_all digest (x ∷ pre) fresh_one) c
        → ordered_initial_preroll boundary_limit source
          ≡ yield_all ((x ∷ pre) ++ (front ++ back)) done
        → Sorted none ((x ∷ pre) ++ (front ++ back))
        → Roomy digest c (front ++ back)
        → Plays digest c.limit false 0 front back
        → length front ≤ fuel
        → Captured digest emit (suc fuel) (start c source reason) m front
    resume-Captured x pre front back fresh_one c source reason m fuel f re ordered sorted roomy p
          room =
        let post = front ++ back in
        let (o, at, upto, later, counts) = Boundary-fresh x pre post fresh_one f sorted in
        let r = start c source reason in
        let prior : c.prior_offset ≡ some o = re.prior_offset ∙ at in
        let (left, shape, spent) =
          suppress digest c o c.prior_offset prior (x ∷ pre) c.prior_events 0 (yield_all post done)
            upto (λ k. re.counts k ∙ counts k) in
        let split = ordered ∙ yield_all-append (x ∷ pre) post done in
        let s = past r left (0 + length (x ∷ pre)) post in
        let same : next digest r ≡ next digest s =
          next-start r refl
          ∙ search-past r left (0 + length (x ∷ pre)) (x ∷ pre) post split shape
          ∙ sym (next-start s refl) in
        let ready : Ready digest s (some o) post = record {
          source = refl;
          spent = spent;
          last = prior;
          prior = rw prior (omega arith);
          sorted = later;
          roomy = roomy;
        } in
        let k =
          capture-front digest emit accepts front back (suc fuel) s (some o) m (omega arith) ready
            p in
        record {
          last = k.last;
          runs = same-capture fuel r s m same ∙ k.runs;
          offset = k.offset;
          events = k.events;
        }

    -- A capture from a new checkpoint writes the records that its limit admits.
    pub first-Captured :
        (front back : List Fields) (c : Checkpoint) (source : Stream) (reason : Option String)
        (m fuel : ℕ)
        → IsFresh c
        → ordered_initial_preroll boundary_limit source ≡ yield_all (front ++ back) done
        → Sorted none (front ++ back)
        → Roomy digest c (front ++ back)
        → Plays digest c.limit false 0 front back
        → length front < fuel
        → Captured digest emit fuel (start c source reason) m front
    first-Captured front back c source reason m fuel f ordered sorted roomy p room =
        capture-front digest emit accepts front back fuel (start c source reason) none m room
          (record {
            source = ordered;
            spent = λ k. rw f.prior_events (unfold count in refl);
            last = f.prior_offset;
            prior = rw f.prior_offset tt;
            sorted = sorted;
            roomy = roomy;
          })
          p

-- What a limit admits after `done_before` messages, the last of them not yet counted off.
Plays-rest :
    (digest : Json → Json → Json → String) (l e : ℕ) (xs : List Fields)
    → Plays digest (some (suc (e + l))) true e (take l xs) (drop l xs)
Plays-rest digest zero e xs = inl (ground arith)
Plays-rest digest (suc l) e [] = inr (ground arith, refl)
Plays-rest digest (suc l) e (x ∷ xs) = (
  ground arith,
  subst (λ n. Plays digest (some (suc n)) true (e + 1) (take l xs) (drop l xs)) (omega arith)
      (Plays-rest digest l (e + 1) xs),
)

-- A limit of `l + 1` admits the first `l + 1` records; no limit admits all.
pub Plays-take :
    (digest : Json → Json → Json → String) (l : ℕ) (xs : List Fields)
    → Plays digest (some (suc l)) false 0 (take (suc l) xs) (drop (suc l) xs)
Plays-take digest l [] = inr (refl, refl)
Plays-take digest l (x ∷ xs) = (
  refl,
  subst (λ n. Plays digest (some (suc n)) true 0 (take l xs) (drop l xs)) (omega arith)
      (Plays-rest digest l 0 xs),
)

pub Plays-all :
    (digest : Json → Json → Json → String) (pending : Bool) (e : ℕ) (xs : List Fields)
    → Plays digest none pending e xs []
Plays-all digest true e [] = inr (refl, refl)
Plays-all digest false e [] = inr (refl, refl)
Plays-all digest true e (x ∷ xs) = (refl, Plays-all digest true (e + 1) xs)
Plays-all digest false e (x ∷ xs) = (refl, Plays-all digest true e xs)

module _ (digest : Json → Json → Json → String) where
  observe-cong :
      (x : Fields) (c d : Checkpoint)
      → c.offset ≡ d.offset
      → c.events ≡ d.events
      → ((observe digest x c).offset ≡ (observe digest x d).offset)
        × ((observe digest x c).events ≡ (observe digest x d).events)
  unfolding observe observe_event
  observe-cong x c d e f = ground (arith, e, f)

  Roomy-cong :
      (xs : List Fields) (c d : Checkpoint)
      → c.offset ≡ d.offset
      → c.events ≡ d.events
      → Roomy digest c xs
      → Roomy digest d xs
  Roomy-cong [] c d e f r = tt
  Roomy-cong (x ∷ xs) c d e f (room, r) =
      let (e', f') = observe-cong x c d e f in
      (rw f' at room, Roomy-cong xs (observe digest x c) (observe digest x d) e' f' r)

  Roomy-after :
      (pre post : List Fields) (c : Checkpoint)
      → Roomy digest c (pre ++ post)
      → Roomy digest (observe_all digest pre c) post
  unfolding observe_all
  Roomy-after [] post c r = r
  Roomy-after (x ∷ pre) post c (room, r) = Roomy-after pre post (observe digest x c) r

  -- What two captures write, one after the other, the second resumed from the first one's checkpoint.
  pub record TwoRuns (emit : Fields → Result (Unit {0})) (c : Checkpoint) (source : Stream)
      (fuel : ℕ) (xs : List Fields) : Type 0 where
    pub first : List Fields
    pub second : List Fields
    pub paused : Run
    pub ended : Run
    pub first_runs :
        capture digest emit fuel (start c source none, 0)
        ≡ some (first, (paused, length first), stop)
    pub second_runs :
        capture digest emit fuel (start (reopen none paused.checkpoint) source none, 0)
        ≡ some (second, (ended, length second), stop)
    pub whole : first ++ second ≡ xs

  -- A capture from a new checkpoint with a positive message limit, followed by a capture without
  -- a limit that is resumed from the first one's checkpoint on the same source, writes all
  -- records of a replay once and in order, and both captures end, when the writers accept every
  -- record, the source gives the records resumable and sorted by offset with at most 10000
  -- events at an offset, and the fuel exceeds the number of records.
  pub limited_then_resumed :
      (emit : Fields → Result (Unit {0})) (c : Checkpoint) (source : Stream) (l fuel : ℕ)
      (x : Fields) (xs : List Fields)
      → ((y : Fields) → emit y ≡ ok tt)
      → IsFresh c
      → c.limit ≡ some (suc l)
      → ordered_initial_preroll boundary_limit source ≡ yield_all (x ∷ xs) done
      → Sorted none (x ∷ xs)
      → Roomy digest c (x ∷ xs)
      → suc (length xs) < fuel
      → TwoRuns emit c source fuel (x ∷ xs)
  unfolding reopen
  limited_then_resumed emit c source l zero x xs accepts f lim ordered sorted roomy room =
      elim room [ ]
  limited_then_resumed emit c source l (suc fuel) x xs accepts f lim ordered sorted roomy room =
      let front = take l xs in
      let back = drop l xs in
      let cut : front ++ back ≡ xs = take-append-drop l xs in
      let shorter : length front + length back ≡ length xs =
        sym (length-append front back) ∙ ap length cut in
      let k =
        first-Captured digest emit accepts (x ∷ front) back c source none 0 (suc fuel) f
          (ordered ∙ ap (λ l. yield_all (x ∷ l) done) (sym cut)) (rw (← cut) at sorted)
          (rw (← cut) at roomy)
          (subst (λ m. Plays digest m false 0 (x ∷ front) back) (sym lim)
            (Plays-take digest l (x ∷ xs)))
          (omega (arith, shorter)) in
      let again : Checkpoint = reopen none k.last.checkpoint in
      let re : Reopens (observe_all digest (x ∷ front) c) again = record {
        offset = k.offset;
        prior_offset = k.offset;
        counts = λ j. ap (count j) k.events;
      } in
      let z : 0 + length (x ∷ front) ≡ length (x ∷ front) = omega arith in
      let z' : 0 + length back ≡ length back = omega arith in
      let later =
        Roomy-cong back (observe_all digest (x ∷ front) c) again (sym k.offset) (sym k.events)
          (Roomy-after (x ∷ front) back c (rw (← cut) at roomy)) in
      let k' =
        resume-Captured digest emit accepts x front back [] c again source none 0 fuel f re
          (ordered
            ∙ ap (λ l. yield_all (x ∷ l) done)
                (sym cut ∙ ap (λ l. front ++ l) (sym (append-nil back))))
          (rw (append-nil back) (rw (← cut) at sorted)) (rw (append-nil back) later)
          (Plays-all digest false 0 back) (omega (arith, shorter)) in
      record {
        first = x ∷ front;
        second = back;
        paused = k.last;
        ended = k'.last;
        first_runs = k.runs ∙ ap (λ n. some (x ∷ front, (k.last, n), stop)) z;
        second_runs = k'.runs ∙ ap (λ n. some (back, (k'.last, n), stop)) z';
        whole = ap (◌∷◌ x) cut;
      }
