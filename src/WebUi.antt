-- ===== src/WebUi.antt =====
-- internal/webui: the configuration UI.
pub mod Http
pub mod Guards
pub mod Handlers
pub mod Server
pub mod Guarded
pub mod Update
