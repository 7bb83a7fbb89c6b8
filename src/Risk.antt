-- ===== src/Risk.antt =====
-- strategy/risk (position sizing, the entry cutoff) and the halt guard of the runtime.
pub mod Sizing
pub mod Guards
pub mod Caps
