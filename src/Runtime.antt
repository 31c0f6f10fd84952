-- ===== src/Runtime.antt =====
-- runtime/drafts.py: what a user's speech is turned into before it becomes a task.
pub mod Wording
pub mod Dispatch
pub mod Revising
pub mod Drafts
pub mod Rewriters
