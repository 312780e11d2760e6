-- ===== src/Engine.antt =====
-- The sync engine, internal/sync/sync.go. `Model` has its state, `Ensure`, `Fetch`, `Propagate` and
-- `Collect` the steps of a pass, and `Pass` the pass. Logging is left out.
pub mod Model
pub mod Ensure
pub mod Fetch
pub mod Propagate
pub mod Collect
pub mod Pass
pub mod Safety
pub mod DryRun
pub mod Health
pub mod Settle
pub mod Live
