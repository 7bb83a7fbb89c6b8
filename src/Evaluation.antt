-- ===== src/Evaluation.antt =====
-- strategy/evaluation: the scores, the levels and the evaluation of a symbol's setup.
pub mod Data
pub mod Levels
pub mod Quality
pub mod Candles
pub mod Volume
pub mod DataQuality
pub mod Criteria
pub mod Result
pub mod Evaluate
pub mod Returns
pub mod Ready
pub mod Better
pub mod Stops
