-- ===== src/Backtest.antt =====
-- strategy/backtest: the labelling of a setup by what came after it, and the engine.
pub mod Outcomes
pub mod Trades
pub mod Engine
pub mod Spaced
pub mod Resolved
