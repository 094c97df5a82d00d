-- ===== src/Common.antt =====
-- The helpers that client and server share (smtp_proj/common).
pub mod Strtok
pub mod Split
pub mod Join
pub mod Replace
pub mod Dirs
pub mod Calendar
