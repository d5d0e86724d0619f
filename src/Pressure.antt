-- ===== src/Pressure.antt =====
-- The pressure engine (internal/pressure/engine.go).
pub mod Config
pub mod Picker
pub mod Buckets
pub mod Stages
