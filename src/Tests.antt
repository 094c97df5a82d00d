-- ===== src/Tests.antt =====
-- Runs of the models on concrete inputs, and the theorems applied to them.
mod Common
mod Client
mod Mailing
mod Server
mod Options
mod Loop
mod Master
mod Child
mod Boot
mod Logs
