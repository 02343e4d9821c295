-- ===== src/Tests.antt =====
-- Tests of the definitions, and each theorem at an input that meets its hypotheses.
mod Samples
mod Console
mod Admin
mod Sessions
mod Query
mod Telegram
mod Capture
mod Server
mod Scheduler
mod Auth
mod Program
mod Worker
mod Interleaving
mod Logins
mod Launch
mod Functions
