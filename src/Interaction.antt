-- ===== src/Interaction.antt =====
-- interaction: what a task asks of the user.
pub mod Proposals
pub mod Manager
pub mod Resolution
pub mod Sanitization
pub mod Details
pub mod Prompts
pub mod Requests
pub mod Outbound
