-- ===== src/Daemon.antt =====
-- The process of cmd/calendar-bridge: its exit codes, its memory of the last pass, `sync-once` and the
-- poll loop of `run`.
pub mod Exit
pub mod State
pub mod Once
pub mod Honest
pub mod Loop
pub mod Accounts
pub mod Servers
pub mod Setup
pub mod Readable
pub mod Launch
pub mod Ui
pub mod Version
pub mod Command
pub mod Auth
pub mod Authorized
