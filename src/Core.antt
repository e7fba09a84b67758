-- ===== src/Core.antt =====
-- crates/syncer-core
pub mod Error
pub mod Manifest
pub mod Model
pub mod JsonFile
pub mod FolderStore
pub mod Security
pub mod Limits
pub mod StateDb
pub mod Planning
pub mod Scanner
