-- ===== src/Client.antt =====
-- The SMTP client (smtp_proj/client).
pub mod Fsm
pub mod MailList
pub mod Response
pub mod Log
pub mod Options
pub mod Mx
pub mod Scheduler
pub mod Requests
pub mod Domain
pub mod Collect
pub mod Master
pub mod Child
