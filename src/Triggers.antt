-- ===== src/Triggers.antt =====
-- runtime/triggers.py: the book of armed opening-range-breakout triggers. The lock serializes the
-- methods, so each is a function of the book; `time.monotonic()` is an argument.
pub mod Data
pub mod Arming
pub mod Calls
pub mod Snapshot
pub mod Arm
pub mod Life
pub mod Once
