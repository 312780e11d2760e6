-- ===== src/Webhook.antt =====
-- The push notifications of internal/webhook.
pub mod Receiver
pub mod Debouncer
pub mod Quiet
pub mod Manager
pub mod GoogleWatcher
pub mod Ledger
pub mod Balance
pub mod Renewal
pub mod Held
