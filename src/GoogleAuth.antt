-- ===== src/GoogleAuth.antt =====
-- internal/googleauth: the tokens of an account and their files.
pub mod Tokens
pub mod Source
pub mod Refresh
pub mod Client
pub mod Authorize
pub mod Setup
pub mod Pasted
pub mod Interactive
pub mod Tried
pub mod Perms
