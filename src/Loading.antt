-- ===== src/Loading.antt =====
-- src/utils/fs.ts, loader.ts and integrity.ts: reading JSON files with a fallback.
pub mod Files
pub mod Fallback
pub mod Optional
pub mod Integrity
mod Tests
