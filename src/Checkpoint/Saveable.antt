-- ===== src/Checkpoint/Saveable.antt =====
-- Every checkpoint that a capture leaves can be saved and loaded.
use chat_downloader_fork.Base.{
  ℕ, zero, suc, ◌+◌, ◌<◌, ◌≡◌, refl, sym, ◌∙◌, String, Bool, true, false, not, ◌&&◌, Option, none,
  some, List, [], ◌∷◌, if◌then◌else◌, ◌==◌, string_Eq, nat_Eq, int_Eq, ℤ, ltb, leb, length, arith,
  Bool-cases, Option-cases, inl, inr,
}
use chat_downloader_fork.Base.Json.{Json, Fields}
use chat_downloader_fork.Base.Result.{Result, Result-cases}
use chat_downloader_fork.Checkpoint.Events.{
  Events, count, increment, is_in, decrement, length-increment,
}
use chat_downloader_fork.Checkpoint.Stream.{Stream, done, fail, item}
use chat_downloader_fork.Checkpoint.State.{
  Checkpoint, Run, boundary_limit, same_offset, event_identity, observe_event,
}
use chat_downloader_fork.Checkpoint.Remaining.{
  below, resumable_offset, is_end_marker, Judgement, skip_marker, malformed, backwards, crowded,
  fresh, overlapping, judge_event, judge, Found, exhausted, raised, yielded, scan, Next, stop,
  error, message, found_run, reached, search, resume, next, observe, advance, capture,
}
use chat_downloader_fork.Checkpoint.Persist.{sum_of, is_filled, is_known, all_digests}
use chat_downloader_fork.Checkpoint.RoundTrip.{AllPositive, Saveable}

AllPositive-increment : (k : String) (e : Events) → AllPositive e → AllPositive (increment k e)
unfolding increment
AllPositive-increment k [] h = (omega arith, tt)
AllPositive-increment k ((j, n) ∷ rest) (h, more) = elim (Bool-cases (j == k)) [
  | inl same ↦ rw (same, increment) (omega arith, more)
  | inr other ↦ rw (other, increment) (h, AllPositive-increment k rest more)
]

sum_of-increment : (k : String) (e : Events) → sum_of (increment k e) ≡ sum_of e + 1
unfolding increment
sum_of-increment k [] = refl
sum_of-increment k ((j, n) ∷ rest) = ground (arith, sum_of-increment k rest)

is_filled-increment : (k : String) (e : Events) → is_filled (increment k e) ≡ true
unfolding increment
is_filled-increment k [] = refl
is_filled-increment k ((j, n) ∷ rest) = ground arith

module _ (is_digest : String → Bool) where
  all_digests-increment :
      (k : String) (e : Events)
      → is_digest k ≡ true
      → all_digests is_digest e ≡ true
      → all_digests is_digest (increment k e) ≡ true
  unfolding increment
  all_digests-increment k [] h g = ground arith
  all_digests-increment k ((j, n) ∷ rest) h g = ground (arith, all_digests-increment k rest h)

  same-Saveable :
      (c : Checkpoint) (n : ℕ) (id : String)
      → is_digest id ≡ true
      → is_known c.offset ≡ true
      → (is_in id c.events ≡ false → length c.events < boundary_limit)
      → Saveable is_digest c n
      → Saveable is_digest (record c { events = increment id c.events }) (n + 1)
  same-Saveable c n id good known room k = record {
    bounded = ground (arith, length-increment id c.events, room, k.bounded);
    positive = AllPositive-increment id c.events k.positive;
    digests = all_digests-increment id c.events good k.digests;
    known = is_filled-increment id c.events ∙ sym known;
    counted = ground (arith, is_filled-increment id c.events);
    summed = omega (arith, sum_of-increment id c.events, k.summed);
    rising = k.rising;
  }

  new-Saveable :
      (c : Checkpoint) (n : ℕ) (offset : ℤ) (id : String)
      → is_digest id ≡ true
      → Saveable is_digest c n
      → Saveable is_digest (record c { offset = some offset; events = increment id [] }) (n + 1)
  unfolding increment
  new-Saveable c n offset id good k = record {
    bounded = omega arith;
    positive = (omega arith, tt);
    digests = ground arith;
    known = refl;
    counted = ground arith;
    summed = omega arith;
    rising = k.rising;
  }

  same_offset-known :
      (offset : ℤ) (o : Option ℤ) → same_offset (some offset) o ≡ true → is_known o ≡ true
  same_offset-known offset none h = absurd (ground arith)
  same_offset-known offset (some p) h = refl

  fresh-room :
      (a b c d : Bool)
      → (if a
          then overlapping false
          else if b
          then overlapping true
          else if c
          then backwards
          else if d
          then crowded
          else fresh)
        ≡ fresh
      → d ≡ false
  fresh-room a b c d h = ground arith

  room_left :
      (same inside full : Bool)
      → (same && not inside && full) ≡ false
      → same ≡ true
      → inside ≡ false
      → full ≡ false
  room_left same inside full h g e = ground arith

  event-Saveable :
      (c : Checkpoint) (last : Option ℤ) (overlap : Events) (offset : ℤ) (id : String) (n : ℕ)
      → judge_event c last overlap offset id ≡ fresh
      → is_digest id ≡ true
      → Saveable is_digest c n
      → Saveable is_digest (observe_event offset id c) (n + 1)
  unfolding judge_event observe_event
  event-Saveable c last overlap offset id n is good k =
      elim (Bool-cases (same_offset (some offset) c.offset)) [
        | inl same ↦
            rw (same, observe_event)
              (same-Saveable c n id good (same_offset-known offset c.offset same)
                (λ h.
                  let left =
                    fresh-room (below offset c.prior_offset)
                      (same_offset (some offset) c.prior_offset && ltb 0 (count id overlap))
                      (below offset last)
                      (same_offset (some offset) c.offset
                        && not (is_in id c.events)
                        && leb boundary_limit (length c.events))
                      is in
                  let small =
                    room_left (same_offset (some offset) c.offset) (is_in id c.events)
                      (leb boundary_limit (length c.events)) left same h in
                  ground (arith, small))
                k)
        | inr other ↦ rw (other, observe_event) (new-Saveable c n offset id good k)
      ]

  module _ (digest : Json → Json → Json → String)
      (hex : (a b c : Json) → is_digest (digest a b c) ≡ true) where
    observe-Saveable :
        (c : Checkpoint) (last : Option ℤ) (overlap : Events) (x : Fields) (n : ℕ)
        → judge digest c last overlap x ≡ fresh
        → Saveable is_digest c n
        → Saveable is_digest (observe digest x c) (n + 1)
    unfolding judge observe
    observe-Saveable c last overlap x n is k = go (is_end_marker x) (resumable_offset x) is
      where
        go :
            (marker : Bool) (offset : Option ℤ)
            → (if marker then skip_marker else elim offset [
              | none ↦ malformed
              | some o ↦ judge_event c last overlap o (event_identity digest x)
            ])
              ≡ fresh
            → Saveable is_digest
                (elim offset [ none ↦ c | some o ↦ observe_event o (event_identity digest x) c ])
                (n + 1)
        go true offset e = absurd (ground arith)
        go false none e = absurd (ground arith)
        go false (some o) e =
            event-Saveable c last overlap o (event_identity digest x) n e (hex _ _ _) k

    -- What is found or given is a new record for the checkpoint.
    abbrev IsNew : Checkpoint → Fields → Type 0
    IsNew c x = (last : Option ℤ) × (overlap : Events) × (judge digest c last overlap x ≡ fresh)

    abbrev FindsNew : Checkpoint → Found → Type 0
    FindsNew c (yielded x overlap suppressed rest) = IsNew c x
    FindsNew c (exhausted overlap suppressed) = Unit
    FindsNew c (raised e overlap suppressed) = Unit

    scan-FindsNew :
        (c : Checkpoint) (last : Option ℤ) (overlap : Events) (s : ℕ) (source : Stream)
        → FindsNew c (scan digest c last overlap s source)
    unfolding scan
    scan-FindsNew c last overlap s done = tt
    scan-FindsNew c last overlap s (fail e) = tt
    scan-FindsNew c last overlap s (item x rest) =
        go (judge digest c last overlap x) refl (scan-FindsNew c last overlap s rest)
          (scan-FindsNew c last overlap (s + 1) rest)
          (scan-FindsNew c last (decrement (event_identity digest x) overlap) (s + 1) rest)
      where
        go :
            (j : Judgement)
            → judge digest c last overlap x ≡ j
            → FindsNew c (scan digest c last overlap s rest)
            → FindsNew c (scan digest c last overlap (s + 1) rest)
            → FindsNew c
                (scan digest c last (decrement (event_identity digest x) overlap) (s + 1) rest)
            → FindsNew c (scan digest c last overlap s (item x rest))
        go skip_marker e a b d = rw (e, scan) a
        go malformed e a b d = rw (e, scan) tt
        go backwards e a b d = rw (e, scan) tt
        go crowded e a b d = rw (e, scan) tt
        go (overlapping false) e a b d = rw (e, scan) b
        go (overlapping true) e a b d = rw (e, scan) d
        go fresh e a b d = rw (e, scan) (last, overlap, e)

    -- A checkpoint of the chat `id` that can be saved with `n` new records
    abbrev pub Ready : String → Checkpoint → ℕ → Type 0
    Ready id c n = Saveable is_digest c n × (c.chat_id ≡ some id)

    abbrev Gives : Checkpoint → Next → Type 0
    Gives c (message x) = IsNew c x
    Gives c stop = Unit
    Gives c (error e) = Unit

    abbrev After : String → ℕ → Run × Next → Type 0
    After id n (r, o) = Ready id r.checkpoint n × Gives r.checkpoint o

    completed-Ready :
        (id : String) (c : Checkpoint) (n : ℕ) (b : Bool)
        → Ready id c n
        → Ready id (record c { completed = b }) n
    completed-Ready id c n b (k, named) = (
      record {
        bounded = k.bounded;
        positive = k.positive;
        digests = k.digests;
        known = k.known;
        counted = k.counted;
        summed = k.summed;
        rising = k.rising;
      },
      named,
    )

    found_run-After :
        (id : String) (r : Run) (n : ℕ) (f : Found)
        → Ready id r.checkpoint n
        → FindsNew r.checkpoint f
        → After id n (found_run r f)
    found_run-After id r n (exhausted overlap s) k new = (completed-Ready id r.checkpoint n _ k, tt)
    found_run-After id r n (raised e overlap s) k new = (k, tt)
    found_run-After id r n (yielded x overlap s rest) k new = (k, new)

    search-After :
        (id : String) (r : Run) (n : ℕ) → Ready id r.checkpoint n → After id n (search digest r)
    unfolding search
    search-After id r n k =
        found_run-After id r n _ k
          (scan-FindsNew r.checkpoint r.last_offset r.overlap r.suppressed r.source)

    next-After :
        (id : String) (r : Run) (n : ℕ) → Ready id r.checkpoint n → After id n (next digest r)
    unfolding next resume
    next-After id r n k = elim (Bool-cases r.pending) [
      | inr idle ↦ rw (idle, next) (search-After id r n k)
      | inl pending ↦ elim (Bool-cases (reached r.checkpoint.limit (r.emitted + 1))) [
        | inl full ↦ rw (pending, full, next, resume) (k, tt)
        | inr more ↦
            rw (pending, more, next, resume)
              (search-After id (record r { emitted = r.emitted + 1 }) n k)
      ]
    ]

    observe-chat_id : (x : Fields) (c : Checkpoint) → (observe digest x c).chat_id ≡ c.chat_id
    unfolding observe observe_event
    observe-chat_id x c = elim (Option-cases (resumable_offset x)) [
      | inl missing ↦ rw (missing, observe) refl
      | inr (offset, is) ↦ elim (Bool-cases (same_offset (some offset) c.offset)) [
        | inl same ↦ rw (is, same, observe, observe_event) refl
        | inr other ↦ rw (is, other, observe, observe_event) refl
      ]
    ]

    observe-Ready :
        (id : String) (c : Checkpoint) (x : Fields) (n : ℕ)
        → Ready id c n
        → IsNew c x
        → Ready id (observe digest x c) (n + 1)
    observe-Ready id c x n (k, named) (last, overlap, is) =
        (observe-Saveable c last overlap x n is k, observe-chat_id x c ∙ named)

    advance-Ready :
        (emit : Fields → Result (Unit {0})) (id : String) (r : Run) (n : ℕ)
        → Ready id r.checkpoint n
        → let state = (advance digest emit (r, n)).0 in Ready id state.0.checkpoint state.1
    unfolding advance
    advance-Ready emit id r n k =
        let after = next-After id r n k in go (next digest r).1 refl after.1
      where
        go :
            (given : Next)
            → (next digest r).1 ≡ given
            → Gives (next digest r).0.checkpoint given
            → let state = (advance digest emit (r, n)).0 in Ready id state.0.checkpoint state.1
        go stop e new = rw (e, advance) (next-After id r n k).0
        go (error x) e new = rw (e, advance) (next-After id r n k).0
        go (message x) e new = elim (Result-cases (emit x)) [
          | inl (why, refused) ↦ rw (e, refused, advance) (next-After id r n k).0
          | inr (u, accepted) ↦
              rw (e, accepted, advance)
                (observe-Ready id (next digest r).0.checkpoint x n (next-After id r n k).0 new)
        ]

    abbrev pub Ends : String → Option (List Fields × (Run × ℕ) × Next) → Type 0
    Ends id none = Unit
    Ends id (some (xs, (r, n), ended)) = Ready id r.checkpoint n

    pub capture-Ends :
        (emit : Fields → Result (Unit {0})) (id : String) (fuel : ℕ) (r : Run) (n : ℕ)
        → Ready id r.checkpoint n
        → Ends id (capture digest emit fuel (r, n))
    unfolding capture
    capture-Ends emit id zero r n k = tt
    capture-Ends emit id (suc fuel) r n k =
        go (advance digest emit (r, n)).1 refl (advance-Ready emit id r n k)
          (λ s m. capture-Ends emit id fuel s m)
      where
        later :
            (x : Fields) (rest : Option (List Fields × (Run × ℕ) × Next))
            → Ends id rest
            → Ends id
                (elim rest [ none ↦ none | some (xs, last, ended) ↦ some (x ∷ xs, last, ended) ])
        later x none h = tt
        later x (some (xs, (s, m), ended)) h = h

        go :
            (given : Next)
            → (advance digest emit (r, n)).1 ≡ given
            → Ready id (advance digest emit (r, n)).0.0.checkpoint (advance digest emit (r, n)).0.1
            → ((s : Run) (m : ℕ)
                → Ready id s.checkpoint m
                → Ends id (capture digest emit fuel (s, m)))
            → Ends id (capture digest emit (suc fuel) (r, n))
        go stop e ready more = rw (e, capture) ready
        go (error x) e ready more = rw (e, capture) ready
        go (message x) e ready more =
            let state = (advance digest emit (r, n)).0 in
            rw (e, capture) (later x (capture digest emit fuel state) (more state.0 state.1 ready))
