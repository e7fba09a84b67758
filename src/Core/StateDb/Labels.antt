-- ===== src/Core/StateDb/Labels.antt =====
-- The texts that the database holds for the enums of crates/syncer-core/src/state_db.rs: `parse`
-- and `as_str`.
use Prim.Native.String.{◌++◌ as ◌<>◌}
use syncer.Prelude.{String, ◌≡◌, ◌↔◌, refl, ok, err, ◌==◌, string_eq, if◌then◌else◌, arith}
use text.Mathlib.TextEquality.{eq_iff}
use syncer.Core.Error.{CoreResult, state_database}
use syncer.Core.StateDb.Records.{
  FileSyncState, local_available, unsynchronized_local_missing, pending_upload, pending_download,
  skipped_folder_limit, SkippedReason, folder_limit, SyncOperationKind, resolve_conflict,
  repair_local_missing, repair_remote_missing, mode_blocked, SyncOperationStatus, pending, blocked,
  done, failed,
}

unfoldable pub parse_sync_state : String → CoreResult FileSyncState
parse_sync_state value =
    if value == "local_available"
    then ok local_available
    else if value == "unsynchronized_local_missing"
    then ok unsynchronized_local_missing
    else if value == "pending_upload"
    then ok pending_upload
    else if value == "pending_download"
    then ok pending_download
    else if value == "skipped_folder_limit"
    then ok skipped_folder_limit
    else err (state_database ("unknown file sync state " <> value))

unfoldable pub parse_reason : String → CoreResult SkippedReason
parse_reason value =
    if value == "folder_limit"
    then ok folder_limit
    else err (state_database ("unknown skipped reason " <> value))

unfoldable pub parse_kind : String → CoreResult SyncOperationKind
parse_kind value =
    if value == "upload_to_remote"
    then ok SyncOperationKind.upload_to_remote
    else if value == "download_from_remote"
    then ok SyncOperationKind.download_from_remote
    else if value == "resolve_conflict"
    then ok resolve_conflict
    else if value == "repair_local_missing"
    then ok repair_local_missing
    else if value == "repair_remote_missing"
    then ok repair_remote_missing
    else if value == "mode_blocked"
    then ok mode_blocked
    else err (state_database ("unknown sync operation kind " <> value))

unfoldable pub kind_as_str : SyncOperationKind → String
kind_as_str SyncOperationKind.upload_to_remote = "upload_to_remote"
kind_as_str SyncOperationKind.download_from_remote = "download_from_remote"
kind_as_str resolve_conflict = "resolve_conflict"
kind_as_str repair_local_missing = "repair_local_missing"
kind_as_str repair_remote_missing = "repair_remote_missing"
kind_as_str mode_blocked = "mode_blocked"

unfoldable pub parse_status : String → CoreResult SyncOperationStatus
parse_status value =
    if value == "pending"
    then ok pending
    else if value == "blocked"
    then ok blocked
    else if value == "done"
    then ok done
    else if value == "failed"
    then ok failed
    else err (state_database ("unknown sync operation status " <> value))

unfoldable pub status_as_str : SyncOperationStatus → String
status_as_str pending = "pending"
status_as_str blocked = "blocked"
status_as_str done = "done"
status_as_str failed = "failed"

parse_kind_sound :
    (value : String) (kind : SyncOperationKind)
    → parse_kind value ≡ ok kind
    → value ≡ kind_as_str kind
unfolding parse_kind kind_as_str
parse_kind_sound value SyncOperationKind.upload_to_remote h = ground (
  arith,
  eq_iff value "upload_to_remote",
  eq_iff value "download_from_remote",
  eq_iff value "resolve_conflict",
  eq_iff value "repair_local_missing",
  eq_iff value "repair_remote_missing",
  eq_iff value "mode_blocked",
)
parse_kind_sound value kind h = ground (
  arith,
  eq_iff value "upload_to_remote",
  eq_iff value "download_from_remote",
  eq_iff value "resolve_conflict",
  eq_iff value "repair_local_missing",
  eq_iff value "repair_remote_missing",
  eq_iff value "mode_blocked",
)

parse_kind_complete : (kind : SyncOperationKind) → parse_kind (kind_as_str kind) ≡ ok kind
unfolding parse_kind kind_as_str
parse_kind_complete SyncOperationKind.upload_to_remote = refl
parse_kind_complete _ = refl

-- A text is read as a kind exactly if it is the text that is written for that kind.
pub parse_kind_iff :
    (value : String) (kind : SyncOperationKind)
    → (parse_kind value ≡ ok kind) ↔ (value ≡ kind_as_str kind)
parse_kind_iff value kind = (parse_kind_sound value kind, λ e. rw e (parse_kind_complete kind))

parse_status_sound :
    (value : String) (status : SyncOperationStatus)
    → parse_status value ≡ ok status
    → value ≡ status_as_str status
unfolding parse_status status_as_str
parse_status_sound value pending h = ground (
  arith,
  eq_iff value "pending",
  eq_iff value "blocked",
  eq_iff value "done",
  eq_iff value "failed",
)
parse_status_sound value status h = ground (
  arith,
  eq_iff value "pending",
  eq_iff value "blocked",
  eq_iff value "done",
  eq_iff value "failed",
)

parse_status_complete :
    (status : SyncOperationStatus) → parse_status (status_as_str status) ≡ ok status
unfolding parse_status status_as_str
parse_status_complete pending = refl
parse_status_complete _ = refl

-- A text is read as a status exactly if it is the text that is written for that status.
pub parse_status_iff :
    (value : String) (status : SyncOperationStatus)
    → (parse_status value ≡ ok status) ↔ (value ≡ status_as_str status)
parse_status_iff value status =
    (parse_status_sound value status, λ e. rw e (parse_status_complete status))
