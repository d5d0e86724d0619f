-- ===== src/Metrics.antt =====
-- Timing samples and their summaries (internal/metrics).
pub mod Latency
pub mod Histogram
pub mod Collector
