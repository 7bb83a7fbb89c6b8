-- ===== src/ExitManager/Keeps.antt =====
-- runtime/exit_manager.py: a property that each step keeps is kept by the pass.
pub mod Requests
pub mod Trailing
pub mod Rounds
