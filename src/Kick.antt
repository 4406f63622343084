-- ===== src/Kick.antt =====
-- The Kick provider (src/chat_downloader/sites/kick/).
pub mod DeletedCache
pub mod Retry
pub mod Cursor
pub mod Pages
pub mod History
pub mod Replay
mod Tests
