-- ===== src/Replay.antt =====
-- storage/replay.py and storage/event_store.py: the state of a session, rebuilt from its events.
pub mod Data
pub mod Rebuild
pub mod Refine
pub mod Window
