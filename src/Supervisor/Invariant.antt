-- ===== src/Supervisor/Invariant.antt =====
-- The invariant of the supervisor's task set, and the steps that keep it.
pub mod Ids
pub mod Handlers
pub mod Loading
pub mod Commands
pub mod Sessions
pub mod Delivery
pub mod Ending
pub mod Rerun
pub mod Apply
