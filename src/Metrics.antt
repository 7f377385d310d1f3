-- ===== src/Metrics.antt =====
-- crates/memgarden-core/src/metrics.rs: the latency histograms that every thread writes to.
pub mod Histogram
