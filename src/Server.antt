-- ===== src/Server.antt =====
-- The SMTP server (smtp_proj/server).
pub mod Fsm
pub mod Pattern
pub mod Stopwatch
pub mod Letter
pub mod Maildir
pub mod Log
pub mod Conn
pub mod Config
pub mod Protocol
pub mod Handlers
pub mod Update
pub mod Session
pub mod Loop
pub mod Worker
pub mod Boot
