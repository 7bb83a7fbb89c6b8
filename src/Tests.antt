-- ===== src/Tests.antt =====
-- Runs of the model and instances of its theorems, over fixed-point numbers in place of floats.
mod Fixed
mod Exits
mod Triggers
mod Risk
mod Calendar
mod Trading
mod ExitManager
mod Setups
mod Replay
mod Carries
mod Backtest
mod Evaluation
