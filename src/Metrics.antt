-- ===== src/Metrics.antt =====
-- src/metrics: the aggregators, the metrics that feed them, and the store of metrics.
pub mod Aggregations
pub mod Metric
pub mod Store
