-- ===== src/Core/StateDb/Records.antt =====
-- The record and enum types of crates/syncer-core/src/state_db.rs.
use syncer.Prelude.{ℕ, String, Bool, true, false, Option, List, string_eq}
use syncer.Core.Manifest.{RelativePath, FileKind}

pub data FileSyncState : Type 0 where
  local_available : FileSyncState
  unsynchronized_local_missing : FileSyncState
  pending_upload : FileSyncState
  pending_download : FileSyncState
  skipped_folder_limit : FileSyncState

pub record FileRecord : Type 0 where
  pub path : RelativePath
  pub kind : FileKind
  pub size_bytes : ℕ
  pub modified_at : ℕ
  pub content_hash : Option String
  pub generation : ℕ
  pub device_id : String
  pub sync_state : FileSyncState

pub record FolderManifest : Type 0 where
  pub folder_id : ℕ
  pub device_id : ℕ
  pub generated_at : ℕ
  pub files : List FileRecord

pub record FolderStatus : Type 0 where
  pub indexed_files : ℕ
  pub indexed_bytes : ℕ
  pub local_available : ℕ
  pub unsynchronized_local_missing : ℕ
  pub pending_upload : ℕ
  pub pending_download : ℕ
  pub skipped_folder_limit : ℕ

-- `file.sync_state == FileSyncState::UnsynchronizedLocalMissing`
unfoldable pub is_missing : FileSyncState → Bool
is_missing unsynchronized_local_missing = true
is_missing local_available = false
is_missing pending_upload = false
is_missing pending_download = false
is_missing skipped_folder_limit = false

pub data SkippedReason : Type 0 where
  folder_limit : SkippedReason

pub record SkippedFileRecord : Type 0 where
  pub path : RelativePath
  pub reason : SkippedReason
  pub size_bytes : ℕ
  pub queued_at : ℕ

pub data SyncOperationKind : Type 0 where
  upload_to_remote : SyncOperationKind
  download_from_remote : SyncOperationKind
  resolve_conflict : SyncOperationKind
  repair_local_missing : SyncOperationKind
  repair_remote_missing : SyncOperationKind
  mode_blocked : SyncOperationKind

pub data SyncOperationStatus : Type 0 where
  pending : SyncOperationStatus
  blocked : SyncOperationStatus
  done : SyncOperationStatus
  failed : SyncOperationStatus

pub record SyncOperationRecord : Type 0 where
  pub id : String
  pub path : RelativePath
  pub kind : SyncOperationKind
  pub status : SyncOperationStatus
  pub reason : String
  pub local_size_bytes : Option ℕ
  pub remote_size_bytes : Option ℕ
  pub local_content_hash : Option String
  pub remote_content_hash : Option String
  pub remote_device_id : String
  pub last_error : Option String
  pub retry_count : ℕ
  pub started_at : Option ℕ
  pub finished_at : Option ℕ
  pub created_at : ℕ
  pub updated_at : ℕ

pub record QueueStatus : Type 0 where
  pub total : ℕ
  pub pending : ℕ
  pub blocked : ℕ
  pub done : ℕ
  pub failed : ℕ
  pub upload_to_remote : ℕ
  pub download_from_remote : ℕ
  pub resolve_conflict : ℕ
  pub repair_local_missing : ℕ
  pub repair_remote_missing : ℕ
  pub mode_blocked : ℕ

pub record RetryFailedSummary : Type 0 where
  pub retried : ℕ
  pub queue : QueueStatus

pub data BlockedOperationResolution : Type 0 where
  download_from_remote : BlockedOperationResolution
  upload_to_remote : BlockedOperationResolution

unfoldable pub resolution_reason : BlockedOperationResolution → String
resolution_reason BlockedOperationResolution.download_from_remote = "user selected remote version"
resolution_reason BlockedOperationResolution.upload_to_remote = "user selected local version"

pub record ResolveOperationSummary : Type 0 where
  pub operation : SyncOperationRecord
  pub queue : QueueStatus
