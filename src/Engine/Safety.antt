-- ===== src/Engine/Safety.antt =====
-- Which writes a pass may make, and that it makes no other: the terms (`Terms`) and a proof for each
-- step of internal/sync/sync.go.
pub mod Terms
pub mod Plain
pub mod Ensure
pub mod Fetch
pub mod Propagate
pub mod Collect
pub mod Pass
