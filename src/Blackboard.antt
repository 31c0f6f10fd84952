-- ===== src/Blackboard.antt =====
-- blackboard/: the store of facts that the communication and the execution side share.
pub mod Events
pub mod Subscriptions
pub mod Table
pub mod State
pub mod Payloads
pub mod Tasks
pub mod Runs
pub mod Sessions
pub mod Ordered
pub mod Personas
pub mod Queries
pub mod History
