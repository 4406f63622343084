-- ===== src/Checkpoint/ReloadTests.antt =====
-- A capture of three records that is saved and opened again.
use chat_downloader_fork.Base.{
  ℕ, ◌≡◌, refl, ==_refl, Bool, true, false, none, some, List, [], ◌∷◌, String, string_Eq, pos, ◌==◌,
}
use chat_downloader_fork.Base.Json.{Json, Fields, end, field, text, int, obj}
use chat_downloader_fork.Base.Result.{Result, ok}
use chat_downloader_fork.Output.Dispatcher.{Dispatcher, counts_match}
use chat_downloader_fork.Run.Policy.{has_record_loss}
use chat_downloader_fork.Checkpoint.Events.{increment, count}
use chat_downloader_fork.Checkpoint.Stream.{
  Stream, done, yield_all, offset_of, opening, preroll_from, ordered_initial_preroll,
}
use chat_downloader_fork.Checkpoint.State.{
  Checkpoint, Replay, Run, start, bind, observe_event, reset_positions, reopen,
}
use chat_downloader_fork.Checkpoint.Remaining.{
  is_end_marker, resumable_offset, judge_event, judge, scan, search, resume, next, observe, advance,
  capture, stop,
}
use chat_downloader_fork.Checkpoint.Persist.{new_checkpoint, save, state_json, init}
use chat_downloader_fork.Checkpoint.Reload.{captured_reloads}

abbrev hash : String
hash = "00000000000000000000000000000000000000000000000000000000000000af"

abbrev digest : Json → Json → Json → String
digest a b c = hash

abbrev is_digest : String → Bool
is_digest s = s == hash

hash-is_digest : (a b c : Json) → is_digest (digest a b c) ≡ true
hash-is_digest a b c = ==_refl hash

abbrev record_at : ℕ → String → Fields
record_at seconds id =
    field "time_in_seconds" (int (pos seconds))
      (field "message_id" (text id) (field "message_type" (text "text_message") end))

abbrev records : List Fields
records = record_at 1 "a" ∷ record_at 1 "b" ∷ record_at 2 "c" ∷ []

abbrev replay : Stream
replay = yield_all records done

abbrev chat : Replay
chat = record {
  is_completed = true;
  id = some "video";
  source = some replay;
  termination_reason = none;
}

abbrev opened : Checkpoint
opened = record {
  offset = none;
  events = [];
  total = 0;
  resets = [];
  chat_id = none;
  completed = false;
  record_loss = false;
  limit = none;
  prior_offset = none;
  prior_events = [];
}

is_opened : init is_digest none "request" (none ∷ []) none ≡ ok opened
unfolding init reopen new_checkpoint
is_opened = refl

abbrev bound : Run
bound = start (record opened { chat_id = some "video" }) replay none

is_bound : bind opened chat ≡ ok bound
unfolding bind
is_bound = refl

abbrev accept_all : Fields → Result (Unit {0})
accept_all x = ok tt

abbrev last_checkpoint : Checkpoint
last_checkpoint = record opened {
  chat_id = some "video";
  offset = some (pos 2000000);
  events = (hash, 1) ∷ [];
  completed = true;
}

abbrev last : Run
last = record {
  checkpoint = last_checkpoint;
  pending = false;
  emitted = 3;
  last_offset = some (pos 2000000);
  overlap = [];
  source = done;
  suppressed = 0;
  termination_reason = none;
}

is_captured : capture digest accept_all 4 (bound, 0) ≡ some (records, (last, 3), stop)
unfolding capture advance next resume search scan judge judge_event is_end_marker resumable_offset
    offset_of observe observe_event ordered_initial_preroll preroll_from opening increment count
is_captured = refl

abbrev dispatcher : Dispatcher
dispatcher = record {
  writers = record { id = 0; is_formatted = false } ∷ [];
  attached = 0 ∷ [];
  counts = λ id. 3;
  suppressed = 0;
  recovery_failed = false;
  deduplicator = record { limit = 10; message_ids = []; evictions = 0 };
}

abbrev saved : Checkpoint
saved = record last_checkpoint { total = 3 }

is_saved :
    save "request" (some dispatcher) 0 end (some "file" ∷ []) 3 last_checkpoint
    ≡ ok (saved, state_json "request" (some "file" ∷ []) false saved)
unfolding save counts_match reset_positions has_record_loss
is_saved = refl

captured_reloads_example :
    init is_digest none "request"
      (some "file" ∷ [])
      (some (obj (state_json "request" (some "file" ∷ []) false saved)))
    ≡ ok (reopen none (record saved { record_loss = has_record_loss end }))
captured_reloads_example =
    captured_reloads is_digest digest hash-is_digest none "request" (none ∷ []) (some "file" ∷ [])
      none opened chat bound accept_all 4 3 records last stop (some dispatcher) 0 end saved
      (state_json "request" (some "file" ∷ []) false saved) is_opened is_bound is_captured is_saved
