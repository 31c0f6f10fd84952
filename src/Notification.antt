-- ===== src/Notification.antt =====
-- notification/: what the user is told of finished and blocked work, when, and in which groups.
pub mod Policy
pub mod Builder
pub mod Manager
