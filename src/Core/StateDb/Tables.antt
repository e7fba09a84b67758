-- ===== src/Core/StateDb/Tables.antt =====
-- The tables of crates/syncer-core/src/state_db.rs as lists of rows. A column with a CHECK on its
-- values holds those values: an enum for the texts, a number for an integer that is not negative.
use syncer.Prelude.{ℕ, String, Bool, Option, List}
use syncer.Prelude.Words.{ℤ}
use syncer.Prelude.Texts.{Text}
use syncer.Core.Manifest.{FileKind}
use syncer.Core.StateDb.Records.{
  FileSyncState, SkippedReason, SyncOperationKind, SyncOperationStatus,
}

pub record FileRow : Type 0 where
  pub path : Text
  pub kind : FileKind
  pub size_bytes : ℕ
  pub modified_at_unix : ℤ
  pub content_hash : Option String
  pub block_hashes_json : String
  pub generation : ℕ
  pub device_id : String
  pub scan_missing : Bool
  pub sync_state : FileSyncState
  pub updated_at_unix : ℕ

pub record SkippedRow : Type 0 where
  pub path : Text
  pub reason : SkippedReason
  pub size_bytes : ℕ
  pub queued_at_unix : ℤ
  pub updated_at_unix : ℕ

pub record OperationRow : Type 0 where
  pub id : String
  pub path : Text
  pub kind : SyncOperationKind
  pub status : SyncOperationStatus
  pub reason : String
  pub local_size_bytes : Option ℕ
  pub remote_size_bytes : Option ℕ
  pub local_content_hash : Option String
  pub remote_content_hash : Option String
  pub remote_device_id : String
  pub last_error : Option String
  pub retry_count : ℕ
  pub started_at_unix : Option ℕ
  pub finished_at_unix : Option ℕ
  pub created_at_unix : ℕ
  pub updated_at_unix : ℕ

pub record StateDatabase : Type 0 where
  pub files : List FileRow
  pub skipped_files : List SkippedRow
  pub sync_operations : List OperationRow
