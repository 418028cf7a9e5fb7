-- ===== src/RepoBrief.antt =====
-- src/controllers/repoBrief.ts: the index of the repository bundles.
pub mod Parse
pub mod Page
mod Tests
