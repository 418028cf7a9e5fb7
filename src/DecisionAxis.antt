-- ===== src/DecisionAxis.antt =====
-- src/controllers/decisionAxis.ts: the five sections of the operator's decision axis.
pub mod Parse
pub mod Page
mod Tests
