-- ===== src/Run.antt =====
-- The run records (internal/run).
pub mod Load
pub mod Compare
