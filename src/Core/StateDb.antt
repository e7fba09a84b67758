-- ===== src/Core/StateDb.antt =====
-- crates/syncer-core/src/state_db.rs: the state database of a folder.
pub mod Records
pub mod Labels
pub mod Tables
pub mod Files
pub mod Queue
