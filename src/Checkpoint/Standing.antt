-- ===== src/Checkpoint/Standing.antt =====
-- Where a new capture leaves its checkpoint: at the boundary of what it wrote.
use chat_downloader_fork.Base.{
  ℕ, ◌<◌, ◌≡◌, ap, sym, ◌∙◌, refl, String, Option, none, some, List, [], ◌∷◌, ◌++◌, ℤ, length,
  arith, false,
}
use chat_downloader_fork.Base.Json.{Json, Fields}
use chat_downloader_fork.Base.Result.{Result, ok}
use chat_downloader_fork.Checkpoint.Events.{count}
use chat_downloader_fork.Checkpoint.Stream.{Stream, done, yield_all, ordered_initial_preroll}
use chat_downloader_fork.Checkpoint.State.{Checkpoint, boundary_limit, start}
use chat_downloader_fork.Checkpoint.Remaining.{resumable_offset, observe}
use chat_downloader_fork.Checkpoint.Boundary.{Sorted, tally, observe_all, observe-offset}
use chat_downloader_fork.Checkpoint.Resume.{Roomy, Plays, Captured}
use chat_downloader_fork.Checkpoint.Lossless.{IsFresh, Boundary-fresh, first-Captured}

-- The offset of the last of the records.
abbrev pub last_offset : Option ℤ → List Fields → Option ℤ
last_offset low [] = low
last_offset low (x ∷ xs) = last_offset (resumable_offset x) xs

some_lem : {o q : ℤ} → some o ≡ some q → o ≡ q
some_lem e = cc

module _ (digest : Json → Json → Json → String) where
  -- The checkpoint's offset is that of the last of the records, and it counts every event at that
  -- offset as often as the records have it.
  pub record StandsAt (xs : List Fields) (c : Checkpoint) : Type 0 where
    pub offset : c.offset ≡ last_offset none xs
    pub counts :
        (o : ℤ) (k : String) → last_offset none xs ≡ some o → count k c.events ≡ tally digest k o xs

  StandsAt-cong :
      (xs : List Fields) (c d : Checkpoint)
      → c.offset ≡ d.offset
      → c.events ≡ d.events
      → StandsAt xs c
      → StandsAt xs d
  StandsAt-cong xs c d e f s = record {
    offset = sym e ∙ s.offset;
    counts = λ o k l. ap (count k) (sym f) ∙ s.counts o k l;
  }

  observe_all-last_offset :
      (xs post : List Fields) (low : Option ℤ) (c : Checkpoint)
      → Sorted low (xs ++ post)
      → (observe_all digest xs c).offset ≡ last_offset c.offset xs
  unfolding observe_all
  observe_all-last_offset [] post low c s = refl
  observe_all-last_offset (x ∷ xs) post low c (q, is, _, s) =
      observe_all-last_offset xs post (some q) (observe digest x c) s
      ∙ ap (λ p. last_offset p xs) (observe-offset digest x c q is ∙ sym is)

  fresh-StandsAt :
      (xs post : List Fields) (c : Checkpoint)
      → IsFresh c
      → Sorted none (xs ++ post)
      → StandsAt xs (observe_all digest xs c)
  fresh-StandsAt [] post c f s = record {
    offset = unfold observe_all in f.offset;
    counts = λ o k e. absurd (ground (arith, e));
  }
  fresh-StandsAt (x ∷ xs) post c f s =
      let (o, at, _, _, counts) = Boundary-fresh digest x xs post c f s in
      let last =
        observe_all-last_offset (x ∷ xs) post none c s
        ∙ ap (λ p. last_offset p (x ∷ xs)) f.offset in
      record {
        offset = last;
        counts = λ q k e.
            let same : o ≡ q = some_lem (sym at ∙ last ∙ e) in
            counts k ∙ ap (λ n. tally digest k n (x ∷ xs)) same;
      }

  module _ (emit : Fields → Result (Unit {0})) (accepts : (x : Fields) → emit x ≡ ok tt) where
    -- A capture from a new checkpoint writes exactly the records that its message limit admits,
    -- in order, and then its checkpoint's offset is that of the last of them, and it counts each
    -- event at this offset as often as they have it, when the writers accept every record, the
    -- source is sorted by offset with at most 10000 events at an offset, and the fuel exceeds
    -- the number of written records.
    pub first-StandsAt :
        (front back : List Fields) (c : Checkpoint) (source : Stream) (reason : Option String)
        (m fuel : ℕ)
        → IsFresh c
        → ordered_initial_preroll boundary_limit source ≡ yield_all (front ++ back) done
        → Sorted none (front ++ back)
        → Roomy digest c (front ++ back)
        → Plays digest c.limit false 0 front back
        → length front < fuel
        → (k : Captured digest emit fuel (start c source reason) m front) × StandsAt front
            k.last.checkpoint
    first-StandsAt front back c source reason m fuel f ordered sorted roomy p room =
        let k =
          first-Captured digest emit accepts front back c source reason m fuel f ordered sorted
            roomy p room in
        (
          k,
          StandsAt-cong front (observe_all digest front c) k.last.checkpoint (sym k.offset)
              (sym k.events) (fresh-StandsAt front back c f sorted),
        )
