-- ===== src/Task.antt =====
-- src/task.rs: dashboard rows, the runs under them, and the bounded writer queue of a run.
pub mod Process
pub mod Row
pub mod Input
pub mod WriteQueue
