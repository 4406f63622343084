-- ===== src/Kick/Replay.antt =====
-- The collection of a Kick replay: `_iter_reverse_vod_messages` of
-- src/chat_downloader/sites/kick/replay_service.py, with `_classify_message` of replay_window.py.
pub mod State
pub mod Collect
pub mod Emit
pub mod Order
pub mod Accounting
pub mod Ending
mod Tests
