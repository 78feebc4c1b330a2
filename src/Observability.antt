-- ===== src/Observability.antt =====
-- The counts of src/pitchbot/observability/metrics.py.
pub mod Histogram
pub mod Registry
