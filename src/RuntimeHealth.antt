-- ===== src/RuntimeHealth.antt =====
-- src/runtimeHealth.ts: the receipt that `/health` serves. Every required snapshot is read and judged,
-- the Git head of the release is resolved, and the worst judgement is the status of the whole.
pub mod Snapshots
pub mod Git
pub mod Receipt
mod Tests
