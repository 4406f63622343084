-- ===== src/Checkpoint/Tests.antt =====
-- Resumed captures at a concrete replay of three records, two of them at the same offset.
use chat_downloader_fork.Base.{
  ℕ, ◌≡◌, refl, false, none, some, [], ◌∷◌, String, string_Eq, pos, arith,
}
use chat_downloader_fork.Base.Json.{Json, Fields, end, field, text, int}
use chat_downloader_fork.Base.Result.{Result, ok}
use chat_downloader_fork.Checkpoint.Stream.{
  Stream, done, yield_all, offset_of, preroll_from, ordered_initial_preroll,
}
use chat_downloader_fork.Base.{negsuc, length, ◌≤◌}
use chat_downloader_fork.Checkpoint.Preroll.{
  AllEarly, Ends, zeros, negatives, ordered_initial_preroll-partition,
}
use chat_downloader_fork.Checkpoint.Stream.{item}
use chat_downloader_fork.Checkpoint.Events.{increment}
use chat_downloader_fork.Checkpoint.Remaining.{resumable_offset, observe}
use chat_downloader_fork.Checkpoint.State.{Checkpoint, boundary_limit, start, reopen}
use chat_downloader_fork.Checkpoint.Boundary.{Sorted, observe_all}
use chat_downloader_fork.Checkpoint.Resume.{Captured, Plays, Roomy}
use chat_downloader_fork.Checkpoint.Standing.{StandsAt, first-StandsAt}
use chat_downloader_fork.Checkpoint.Lossless.{
  IsFresh, Reopens, TwoRuns, Plays-take, Plays-all, resume-Captured, limited_then_resumed,
}

abbrev digest : Json → Json → Json → String
digest (text id) _ _ = id
digest _ _ _ = ""

abbrev record_at : ℕ → String → Fields
record_at seconds id =
    field "time_in_seconds" (int (pos seconds))
      (field "message_id" (text id) (field "message_type" (text "text_message") end))

abbrev a : Fields
a = record_at 1 "a"

abbrev b : Fields
b = record_at 1 "b"

abbrev c : Fields
c = record_at 2 "c"

abbrev replay : Stream
replay = yield_all (a ∷ b ∷ c ∷ []) done

abbrev fresh_checkpoint : Checkpoint
fresh_checkpoint = record {
  offset = none;
  events = [];
  total = 0;
  resets = [];
  chat_id = none;
  completed = false;
  record_loss = false;
  limit = some 1;
  prior_offset = none;
  prior_events = [];
}

abbrev accept_all : Fields → Result (Unit {0})
accept_all x = ok tt

fresh_checkpoint-IsFresh : IsFresh fresh_checkpoint
fresh_checkpoint-IsFresh = record {
  offset = refl;
  events = refl;
  prior_offset = refl;
  prior_events = refl;
}

ordered : ordered_initial_preroll boundary_limit replay ≡ replay
unfolding ordered_initial_preroll preroll_from
ordered = refl

sorted : Sorted none (a ∷ b ∷ c ∷ [])
unfolding resumable_offset offset_of
sorted = (pos 1000000, refl, refl, (pos 1000000, refl, refl, (pos 2000000, refl, refl, tt)))

roomy : Roomy digest fresh_checkpoint (a ∷ b ∷ c ∷ [])
unfolding observe offset_of increment
roomy = (omega arith, (omega arith, (omega arith, tt)))

limited_then_resumed_example : TwoRuns digest accept_all fresh_checkpoint replay 4 (a ∷ b ∷ c ∷ [])
limited_then_resumed_example =
    limited_then_resumed digest accept_all fresh_checkpoint replay 0 4 a (b ∷ c ∷ []) (λ y. refl)
      fresh_checkpoint-IsFresh refl ordered sorted roomy (omega arith)

-- The checkpoint that a capture of the first record leaves, read back without a message limit.
abbrev saved : Checkpoint
saved = observe_all digest (a ∷ []) fresh_checkpoint

saved-Reopens : Reopens saved (reopen none saved)
unfolding reopen
saved-Reopens = record { offset = refl; prior_offset = refl; counts = λ k. refl }

later-Roomy : Roomy digest (reopen none saved) (b ∷ c ∷ [])
unfolding observe observe_all reopen offset_of increment
later-Roomy = (omega arith, (omega arith, tt))

all_play : Plays digest (reopen none saved).limit false 0 (b ∷ c ∷ []) []
unfolding reopen
all_play = Plays-all digest false 0 (b ∷ c ∷ [])

resume-Captured_example :
    Captured digest accept_all 3 (start (reopen none saved) replay none) 0 (b ∷ c ∷ [])
resume-Captured_example =
    resume-Captured digest accept_all (λ y. refl) a [] (b ∷ c ∷ []) [] fresh_checkpoint
      (reopen none saved) replay none 0 2 fresh_checkpoint-IsFresh saved-Reopens ordered sorted
      later-Roomy all_play (omega arith)

first-StandsAt_example :
    (k : Captured digest accept_all 2 (start fresh_checkpoint replay none) 0 (a ∷ [])) × StandsAt
      digest
      (a ∷ [])
      k.last.checkpoint
first-StandsAt_example =
    first-StandsAt digest accept_all (λ y. refl) (a ∷ []) (b ∷ c ∷ []) fresh_checkpoint replay none
      0 2 fresh_checkpoint-IsFresh ordered sorted roomy (Plays-take digest 0 (a ∷ b ∷ c ∷ []))
      (omega arith)

-- A notice at offset 0 that comes before a message at a negative offset.
abbrev notice : Fields
notice = record_at 0 "notice"

abbrev early_message : Fields
early_message = field "time_in_seconds" (int (negsuc 4)) (field "message_id" (text "early") end)

notices_fit : length (zeros (notice ∷ early_message ∷ [])) ≤ 1
notices_fit = omega arith

opening_is_early : AllEarly (notice ∷ early_message ∷ [])
opening_is_early = (refl, (refl, tt))

c-Ends : Ends (item c done)
c-Ends = refl

ordered_initial_preroll-partition_example :
    ordered_initial_preroll 1 (yield_all (notice ∷ early_message ∷ []) (item c done))
    ≡ yield_all
        (negatives (notice ∷ early_message ∷ []))
        (yield_all (zeros (notice ∷ early_message ∷ [])) (item c done))
ordered_initial_preroll-partition_example =
    ordered_initial_preroll-partition 1 (notice ∷ early_message ∷ []) (item c done) opening_is_early
      c-Ends notices_fit
