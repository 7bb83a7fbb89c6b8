-- ===== src/ExitManager.antt =====
-- runtime/exit_manager.py and runtime/flatten.py: the manager of the open positions' exits.
pub mod Data
pub mod Desk
pub mod Tracking
pub mod Steps
pub mod Pass
pub mod Warrants
pub mod Keeps
pub mod Passes
pub mod Enforced
pub mod Naked
