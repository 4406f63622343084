-- ===== src/Filters.antt =====
-- The filters of messages by type and by time (src/chat_downloader/sites/filters.py).
pub mod Types
pub mod TimeRange
pub mod Pages
mod Tests
