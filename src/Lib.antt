-- ===== src/Lib.antt =====
-- chat-downloader: a verification library of its capture core.
--
-- The program reads the messages of a chat from a provider (src/chat_downloader/sites/youtube, twitch
-- and kick), writes each message to the console and to output files, and can resume a capture of a
-- completed replay from a checkpoint. What is modelled here is the part between a provider's stream
-- of messages and the files, which decides which messages are written, and the audit that checks the
-- files afterwards.
--
-- The parts, and how they interact:
--   * Base: shared names and lemmas. `Base.Json` holds decoded JSON and the accessors of
--     src/chat_downloader/utils/json_types.py; `Base.Result` holds Python exceptions as values.
--   * Dedup: `SeenCache` is `_SeenMessageCache` of src/chat_downloader/sites/_seen_cache.py, a
--     bounded first-in first-out cache of message ids; `Formatted` is `_FormattedMessageDeduplicator`,
--     its client, and `_ConsoleStateDeduplicator` (src/chat_downloader/sites/_message_dedup.py).
--     `Window`, `Superchats` and `Console` hold the proofs.
--   * Kick.DeletedCache: `_DeletedMessageCache` of
--     src/chat_downloader/sites/kick/deleted_message_cache.py, which gives a deletion event the text
--     of the deleted message. `Bounds` and `Recall` hold the proofs.
--   * Parity: `audit_capture` of src/chat_downloader/output/capture_parity.py, one pass over a JSONL
--     file that consumes the TXT file beside it and replays the formatted deduplicator: `Lines`
--     (physical lines), `Stats` (`AuditStats` and the functions that update it), `Audit` (the loops)
--     and `Finish` (the checks at the end, and the whole function). `Expected` says without counters
--     what the TXT file should be; the other files hold the proofs.
--   * Checkpoint: `ordered_initial_preroll` of src/chat_downloader/runtime/capture_replay_order.py in
--     `Stream`, and `CaptureCheckpoint` of src/chat_downloader/runtime/capture_checkpoint.py in
--     `Events` (its `Counter`), `State` (the state, `observe`, `bind`) and `Remaining` (the generator
--     that passes over the committed overlap, one `next` at a time, and `advance`) and `Persist` (`save`,
--     `_load` and the end of `__init__`). `Preroll`, `Boundary`, `Resume`, `Lossless`, `Standing`,
--     `RoundTrip`, `Saveable`, `Loaded`, `Reload` and `Fuel` hold the proofs.
--   * Filters: `MessageFilter` and `TimeRangeFilter` of src/chat_downloader/sites/filters.py, in `Types`
--     and `TimeRange`; `Pages` has the proof over the pages of a request.
--   * Pipeline: `MessageLimit` is `_MessageLimitIterator` of
--     src/chat_downloader/runtime/chat_pipeline.py, over the streams of Checkpoint.
--   * Output: `Dispatcher` is `_ChatOutputDispatcher` of src/chat_downloader/sites/output_dispatch.py,
--     which writes an item to every attached writer, counts the records, and takes the counts back
--     after a failed emission; `Attach` and `Counts` hold the proofs. A writer's `write` and the formatter are
--     parameters.
--   * Kick: also the requests of its history. `Retry` is `fetch_with_retry`
--     (src/chat_downloader/sites/kick/request_retry.py), `Cursor` the comparison of two cursors and
--     `Pages` the validation and order of a page, all for `History`, which is `iter_reverse_history`
--     (src/chat_downloader/sites/kick/history.py), and for `Replay`, which is `_iter_vod_messages` and
--     `_iter_reverse_vod_messages` (src/chat_downloader/sites/kick/replay_service.py): `State` has the
--     counters and `_classify_message` (replay_window.py), `Collect` the loop that collects the pages
--     newest first, `Emit` the chronological output. `Budget`, `Choice` and `Yields`, and `Order`,
--     `Accounting` and `Ending` hold the proofs.
--   * Remap: `Remapper` of src/chat_downloader/sites/remap.py, with which the providers rename the fields
--     of their payloads; `Renaming` holds the proofs.
--   * Run: `execute_run` of src/chat_downloader/runtime/runner.py, which joins the parts: `Setup` has
--     its calls in their order, `Capture` the loop over the messages and the `except` clauses,
--     `Shutdown` `_finalize_run` and `observe_shutdown`, `Reports` `_verify_capture_outputs` and
--     `_complete_run_record`, `Execute` the whole with its `finally`; `Types` has `RunResult`, and
--     `Policy` the completeness policy of src/chat_downloader/runtime/capture_manifest.py. What a
--     call gives is an `Outcome` of the run's `World`. The children of `Setup`, `Policy`,
--     `Reports` and `Execute` hold the proofs; `Execute.Kept` carries a property of results through the
--     finalization.
--
-- Mutable state is passed explicitly, an exception is `raise` of `Result`, and a generator is a value
-- that a `next` function takes apart. Numbers are the native naturals; a limit that the code lets be
-- negative is an integer. Finite floats are counted in millionths, so an equation of offsets is an
-- equation of integers.
--
-- Parameters stand for what is not in the repository: the SHA-256 digest of an event's identity
-- (`digest`) and the test of its form (`is_digest`), the signatures of the files, `sys.getsizeof`
-- (`size_of`), UTF-8 decoding, `json.loads` and the formatter (`Codec`), and whether the attached writers accept a record (`emit`). For Kick's history they are the answers
-- of the client, the cancellation event, the digits and the number of a text, a page's digest, ISO
-- times, `str` and `parse_chat_message` (`Client`, `Source`); the JSON of the spool is taken to read
-- back as it was written. For a run they are what each call returns or raises (`World`).
--
-- Fuel: `Checkpoint.Remaining.capture` takes one unit for each call of `advance`, and
-- `Pipeline.MessageLimit.consume` one for each `next`. A source of n records needs n + 1 calls, and
-- the theorems about them assume no more than that. `Kick.History.run` takes one unit for each turn,
-- and at most `max_pages` turns ask for a page, so `max_pages` + 1 are enough.
-- `Kick.Replay.Collect.collect` takes one for each page; the cursors' numbers fall, so the first one's
-- number + 1 is enough.
--
-- Not modelled: an item's time that is no finite number in `TimeRangeFilter`, the providers'
-- transports and parsers, the HTTP and WebSocket sessions, formatting, the command line, a
-- checkpoint's lock, request identity and atomic replacement, the opening of output files, the waits
-- between retries, an interrupt while a run is being finalized, and logging.
mod Base
pub mod Dedup
pub mod Kick
pub mod Parity
pub mod Checkpoint
pub mod Filters
pub mod Pipeline
pub mod Output
pub mod Remap
pub mod Run
