-- ===== src/Supervisor.antt =====
-- src/supervisor.rs: task ownership, ID allocation, exit reaping and the handling of commands.
pub mod Host
pub mod Labels
pub mod Messages
pub mod State
pub mod Assets
pub mod Spawn
pub mod Rerun
pub mod Reap
pub mod Recipe
pub mod Sessions
pub mod Recovery
pub mod Apply
pub mod Invariant
pub mod Shutdown
pub mod Geometry
pub mod Marks
pub mod Tick
