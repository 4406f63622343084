-- ===== src/Run.antt =====
-- The life cycle of a run: `execute_run` of src/chat_downloader/runtime/runner.py, with the
-- completeness policy of capture_manifest.py.
pub mod Types
pub mod Policy
pub mod Shutdown
pub mod Setup
pub mod Capture
pub mod Reports
pub mod Execute
mod Tests
