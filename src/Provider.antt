-- ===== src/Provider.antt =====
-- internal/sync/provider.go: the provider-neutral event model, and the interface `Provider`.
pub mod Neutral
pub mod Mapping
pub mod Google
pub mod Bridge
pub mod RoundTrip
pub mod Safety
