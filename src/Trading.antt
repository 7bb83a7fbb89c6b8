-- ===== src/Trading.antt =====
-- trading_execution.py: the service that turns signals into orders at the broker.
pub mod Data
pub mod Bench
pub mod Breaker
pub mod Breakout
pub mod Expire
pub mod Approval
pub mod Signals
pub mod Orders
pub mod Calls
pub mod Cleared
pub mod Counted
pub mod Barred
pub mod Stale
pub mod Outage
pub mod Flags
pub mod Shut
pub mod Pending
pub mod Asked
pub mod Views
pub mod Flat
pub mod Cap
pub mod Carries
pub mod Fresh
pub mod Payload
pub mod Executor
pub mod Manual
