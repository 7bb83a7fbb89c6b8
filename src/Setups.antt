-- ===== src/Setups.antt =====
-- strategy/evaluation/structure.py: the detectors of momentum setups on the bars of a session.
pub mod Data
pub mod Flag
pub mod Pullback
pub mod Gap
pub mod Hod
pub mod Fallback
pub mod Opening
pub mod Classify
pub mod Yields
pub mod Sound
pub mod Leveled
pub mod Legged
pub mod Chosen
pub mod Range
