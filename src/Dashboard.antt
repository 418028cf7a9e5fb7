-- ===== src/Dashboard.antt =====
-- src/controllers/dashboard.ts: the start page. Each source of evidence is summed up by an item that
-- asks for attention, or by none, and the items by the state of the whole.
pub mod Sources
pub mod Summary
pub mod Page
mod Tests
