-- ===== src/Pipeline.antt =====
-- The iterators between a provider and the outputs
-- (src/chat_downloader/runtime/chat_pipeline.py).
pub mod MessageLimit
mod Tests
