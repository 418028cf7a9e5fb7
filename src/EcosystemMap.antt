-- ===== src/EcosystemMap.antt =====
-- src/controllers/ecosystemMap.ts, ecosystemMapLinks.ts and ecosystemMapNavigation.ts.
pub mod Git
pub mod Links
pub mod Calendar
pub mod Manifest
pub mod Artifacts
pub mod Nodes
pub mod Alignment
pub mod Page
pub mod Mermaid
pub mod Navigation
pub mod Samples
mod Tests
