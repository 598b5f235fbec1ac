-- ===== src/Tests.antt =====
-- Concrete fleets, and the theorems at concrete inputs.
pub mod Fleet
mod Supervisors
mod Components
mod Wire
mod Input
mod Selecting
mod Storing
