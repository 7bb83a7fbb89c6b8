-- ===== src/Detectors.antt =====
-- strategy/evaluation: the detectors whose signals are logged and not traded.
pub mod Data
pub mod Ignition
pub mod Runner
pub mod Liquid
pub mod Reclaim
pub mod Entry
pub mod HigherLow
pub mod Gates
pub mod Fires
pub mod Returns
pub mod Entries
