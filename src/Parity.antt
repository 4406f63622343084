-- ===== src/Parity.antt =====
-- The parity audit of a capture's JSONL and TXT files
-- (src/chat_downloader/output/capture_parity.py).
pub mod Lines
pub mod Stats
pub mod Audit
pub mod Finish
mod Errors
mod Progress
mod Step
pub mod Run
mod Complete
mod Ending
pub mod Verdict
pub mod Newlines
pub mod Expected
mod Tests
