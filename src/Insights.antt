-- ===== src/Insights.antt =====
-- src/insights.ts: the sanitizer of the daily insights.
pub mod Items
pub mod References
pub mod Daily
mod Tests
