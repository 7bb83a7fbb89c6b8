-- ===== src/Exits.antt =====
-- strategy/exits.py: the exit rules that the backtest and the live exit manager share.
pub mod Data
pub mod Trail
pub mod Backtest
pub mod Manage
pub mod Backstop
pub mod Ratchet
pub mod Simulate
pub mod Live
pub mod Catastrophe
