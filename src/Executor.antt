-- ===== src/Executor.antt =====
-- The Neutron executor (internal/executor): retries, stages, the apply of a plan, and the cleanup.
pub mod Retry
pub mod Stage
pub mod Apply
pub mod Cleanup
