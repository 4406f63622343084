-- ===== src/Output/Dispatcher.antt =====
-- `_ChatOutputDispatcher`: attached writers, `emit`, `record_transaction` and `counts_match`. The
-- writers' files have been opened. A writer is known by its id, and files by their sizes.
use chat_downloader_fork.Base.{
  ℕ, ◌+◌, Bool, true, false, not, Option, none, some, List, [], ◌∷◌, ◌++◌, ◌&&◌, if◌then◌else◌,
  ◌==◌, nat_Eq, String, ℤ, contains,
}
use chat_downloader_fork.Base.Json.{Fields}
use chat_downloader_fork.Base.Result.{Error, Result, ok, raise, os_error}
use chat_downloader_fork.Dedup.SeenCache.{SeenCache}
use chat_downloader_fork.Dedup.Formatted.{should_emit}
use chat_downloader_fork.Dedup.Formatted as Formatted

pub record Writer : Type 0 where
  pub id : ℕ
  pub is_formatted : Bool

-- `counts` is `_records_written_by_writer`.
pub record Dispatcher : Type 0 where
  pub writers : List Writer
  pub attached : List ℕ
  pub counts : ℕ → ℕ
  pub suppressed : ℕ
  pub recovery_failed : Bool
  pub deduplicator : SeenCache

unfoldable pub init : Option ℤ → Dispatcher
unfolding Formatted.init
init max_seen = record {
  writers = [];
  attached = [];
  counts = λ k. 0;
  suppressed = 0;
  recovery_failed = false;
  deduplicator = Formatted.init max_seen;
}

abbrev pub set_count : ℕ → ℕ → (ℕ → ℕ) → ℕ → ℕ
set_count k n counts j = if k == j then n else counts j

unfoldable pub attach_writer : Dispatcher → Writer → Dispatcher
attach_writer d w = if contains w.id d.attached then d else record d {
  writers = d.writers ++ w ∷ [];
  attached = d.attached ++ w.id ∷ [];
  counts = set_count w.id 0 d.counts;
}

-- What is written: the item itself, or its rendered line.
pub data Output : Type 0 where
  raw : Fields → Output
  formatted : String → Output

-- `self._records_written_by_writer[id(writer)] += 1`
unfoldable pub count_record : ℕ → Dispatcher → Dispatcher
count_record k d = record d { counts = set_count k (d.counts k + 1) d.counts }

module _ (write : ℕ → Output → Result (Unit {0})) (format : Fields → Result String) where
  -- A write, and the count of the record after it.
  unfoldable pub write_one : ℕ → Output → Dispatcher → Dispatcher × Option Error
  unfolding count_record
  write_one k output d = elim (write k output) [
    | raise e ↦ (d, some e)
    | ok _ ↦ (count_record k d, none)
  ]

  -- The verdict on the item for formatted writers: made once, and remembered.
  unfoldable pub decide : Fields → Option Bool → Dispatcher → Dispatcher × Result Bool
  decide item (some verdict) d = (d, ok verdict)
  decide item none d = elim (should_emit d.deduplicator item) [
    | raise e ↦ (d, raise e)
    | ok (cache, true) ↦ (record d { deduplicator = cache }, ok true)
    | ok (cache, false) ↦
        (record d { deduplicator = cache; suppressed = d.suppressed + 1 }, ok false)
  ]

  -- The rendered line: made once, and remembered.
  abbrev pub rendered : Fields → Option String → Result String
  rendered item none = format item
  rendered item (some line) = ok line

  -- What the loop does for one writer: the new state, an error, and the two remembered values.
  abbrev pub Remembered : Type 0
  Remembered = Option Bool × Option String

  unfoldable pub emit_formatted :
      Fields → Option String → ℕ → Bool → Dispatcher → Dispatcher × Option Error × Remembered
  unfolding write_one
  emit_formatted item line k false d = (d, none, (some false, line))
  emit_formatted item line k true d = elim (rendered item line) [
    | raise e ↦ (d, some e, (some true, none))
    | ok text ↦
        let (d', failure) = write_one k (formatted text) d in (d', failure, (some true, some text))
  ]

  -- The loop's body after the verdict.
  abbrev pub with_verdict :
      Fields → Remembered → ℕ → Dispatcher × Result Bool → Dispatcher × Option Error × Remembered
  with_verdict item memory k (d, raise e) = (d, some e, memory)
  with_verdict item memory k (d, ok verdict) = emit_formatted item memory.1 k verdict d

  abbrev pub emit_raw :
      Fields → Remembered → ℕ → Dispatcher → Dispatcher × Option Error × Remembered
  emit_raw item memory k d = let (d', failure) = write_one k (raw item) d in (d', failure, memory)

  unfoldable pub emit_one :
      Fields → Remembered → Writer → Dispatcher → Dispatcher × Option Error × Remembered
  unfolding write_one decide emit_formatted
  emit_one item memory w d =
      if w.is_formatted
      then with_verdict item memory w.id (decide item memory.0 d)
      else emit_raw item memory w.id d

  -- The loop over the writers: it ends at the first error.
  unfoldable pub emit_all :
      Fields → Remembered → List Writer → Dispatcher → Dispatcher × Option Error
  unfolding emit_one
  emit_all item memory [] d = (d, none)
  emit_all item memory (w ∷ ws) d =
      let (d', failure, memory') = emit_one item memory w d in
      let later = emit_all item memory' ws d' in
      elim failure [ none ↦ later | some e ↦ (d', some e) ]

  unfoldable pub emit : Fields → Dispatcher → Dispatcher × Option Error
  unfolding emit_all
  emit item d = emit_all item (none, none) d.writers d

-- `record_transaction`, on what the statements inside it gave: after an error the files are cut to
-- their sizes before, if that can be done, and then the counts go back.
unfoldable pub settle : Dispatcher → Bool → Dispatcher × Option Error → Dispatcher × Option Error
settle before can_truncate (after, none) = (after, none)
settle before true (after, some e) =
    (record after { counts = before.counts; suppressed = before.suppressed }, some e)
settle before false (after, some e) = (record after { recovery_failed = true }, some os_error)

-- `counts_match`; a negative expectation meets no count.
abbrev pub matches : ℕ → Dispatcher → Writer → Bool
matches raw_count d w =
    if w.is_formatted then d.counts w.id + d.suppressed == raw_count else d.counts w.id == raw_count

abbrev pub all_match : ℕ → Dispatcher → List Writer → Bool
all_match raw_count d [] = true
all_match raw_count d (w ∷ ws) = matches raw_count d w && all_match raw_count d ws

unfoldable pub counts_match : ℕ → Dispatcher → Bool
counts_match raw_count d = not d.recovery_failed && all_match raw_count d d.writers
