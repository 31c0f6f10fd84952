-- ===== src/Protocol.antt =====
-- protocol/: the records and enumerations that the parts of the program share.
pub mod Enums
pub mod Records
pub mod Drafts
