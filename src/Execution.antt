-- ===== src/Execution.antt =====
-- execution/: claiming tasks, running them on executors, and recording what the executors report.
pub mod Sessions
pub mod Failures
pub mod Reconcile
pub mod Assignment
pub mod Modes
pub mod Scheduler
pub mod Events
pub mod Runs
pub mod Summaries
