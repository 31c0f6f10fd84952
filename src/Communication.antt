-- ===== src/Communication.antt =====
-- communication: the texts of the personas file.
pub mod Quoting
