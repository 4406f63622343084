-- ===== src/Checkpoint.antt =====
-- Resumable replay captures (src/chat_downloader/runtime/capture_checkpoint.py and
-- capture_replay_order.py).
pub mod Events
pub mod Stream
pub mod State
pub mod Remaining
pub mod Persist
pub mod RoundTrip
pub mod Saveable
pub mod Loaded
pub mod Reload
pub mod Fuel
pub mod Standing
mod Boundary
pub mod Resume
pub mod Lossless
pub mod Preroll
mod ReloadTests
mod Tests
