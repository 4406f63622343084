-- ===== src/Output.antt =====
-- The dispatch of messages to the output writers (src/chat_downloader/sites/output_dispatch.py).
pub mod Dispatcher
pub mod Counts
pub mod Attach
mod Tests
