-- ===== src/Dedup.antt =====
-- Deduplication of chat messages (src/chat_downloader/sites/_seen_cache.py and _message_dedup.py).
pub mod SeenCache
pub mod Window
pub mod Formatted
pub mod Superchats
pub mod Console
mod Tests
