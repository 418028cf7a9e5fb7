-- ===== src/Metrics.antt =====
-- src/metrics.ts: the metrics of the repositories.
pub mod Repos
pub mod Latest
mod Tests
