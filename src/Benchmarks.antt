-- ===== src/Benchmarks.antt =====
-- The measures of the benchmarks, src/pitchbot/benchmarks/metrics.py.
pub mod EditDistance
pub mod Intervals
