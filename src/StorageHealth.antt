-- ===== src/StorageHealth.antt =====
-- src/controllers/storageHealth.ts: the page of the storage budget.
pub mod Values
pub mod Series
pub mod Truth
pub mod Current
pub mod Parse
pub mod Page
pub mod Samples
mod Tests
