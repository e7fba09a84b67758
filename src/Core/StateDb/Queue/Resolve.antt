-- ===== src/Core/StateDb/Queue/Resolve.antt =====
-- crates/syncer-core/src/state_db.rs: the resolution of a blocked operation.
use Prim.Native.String.{◌++◌ as ◌<>◌}
use syncer.Prelude.{
  ℕ, string_eq, String, Option, none, some, List, [], ◌∷◌, ok, err, ◌>>=◌, ◌>>◌, guard, ok_or, ◌==◌,
  if◌then◌else◌,
}
use syncer.Crates.{Crates}
use syncer.Core.Error.{CoreResult, CoreError, state_database}
use syncer.Core.StateDb.Records.{
  SyncOperationKind, resolve_conflict, repair_local_missing, repair_remote_missing, mode_blocked,
  pending, SyncOperationRecord, BlockedOperationResolution, resolution_reason,
  ResolveOperationSummary,
}
use syncer.Core.StateDb.Queue.{is_blocked, row_to_sync_operation, queue_status}
use syncer.Core.StateDb.Tables.{OperationRow, StateDatabase}
use syncer.Core.StateDb.Queue.Update.{update_where_id}

-- `{:?}`
unfoldable pub debug_resolution : BlockedOperationResolution → String
debug_resolution BlockedOperationResolution.download_from_remote = "DownloadFromRemote"
debug_resolution BlockedOperationResolution.upload_to_remote = "UploadToRemote"

unfoldable pub debug_kind : SyncOperationKind → String
debug_kind SyncOperationKind.upload_to_remote = "UploadToRemote"
debug_kind SyncOperationKind.download_from_remote = "DownloadFromRemote"
debug_kind resolve_conflict = "ResolveConflict"
debug_kind repair_local_missing = "RepairLocalMissing"
debug_kind repair_remote_missing = "RepairRemoteMissing"
debug_kind mode_blocked = "ModeBlocked"

unfoldable pub invalid_resolution : BlockedOperationResolution → SyncOperationKind → CoreError
unfolding debug_resolution debug_kind
invalid_resolution resolution kind =
    state_database
      ("resolution " <> debug_resolution resolution <> " is not valid for " <> debug_kind kind)

-- `match (operation.kind, resolution)`
unfoldable pub target_kind :
    SyncOperationKind → BlockedOperationResolution → CoreResult SyncOperationKind
unfolding invalid_resolution
target_kind resolve_conflict BlockedOperationResolution.download_from_remote =
    ok SyncOperationKind.download_from_remote
target_kind repair_local_missing BlockedOperationResolution.download_from_remote =
    ok SyncOperationKind.download_from_remote
target_kind resolve_conflict BlockedOperationResolution.upload_to_remote =
    ok SyncOperationKind.upload_to_remote
target_kind repair_remote_missing BlockedOperationResolution.upload_to_remote =
    ok SyncOperationKind.upload_to_remote
target_kind kind resolution = err (invalid_resolution resolution kind)

unfoldable pub resolve_row :
    ℕ → SyncOperationKind → BlockedOperationResolution → OperationRow → OperationRow
unfolding resolution_reason
resolve_row now kind resolution row = record row {
  kind = kind;
  status = pending;
  reason = resolution_reason resolution;
  last_error = none;
  started_at_unix = none;
  finished_at_unix = none;
  updated_at_unix = now;
}

unfoldable pub find_row : String → List OperationRow → Option OperationRow
find_row id [] = none
find_row id (row ∷ rows) = let rest = find_row id rows in if row.id == id then some row else rest

module _ (c : Crates) where
  unfoldable pub get_sync_operation : String → StateDatabase → CoreResult SyncOperationRecord
  unfolding find_row row_to_sync_operation
  get_sync_operation operation_id db = do
    row ←
        ok_or (state_database "sync operation not found") (find_row operation_id db.sync_operations)
    row_to_sync_operation c row

  -- The checks before the update.
  unfoldable pub resolve_target :
      String → BlockedOperationResolution → StateDatabase → CoreResult SyncOperationKind
  unfolding get_sync_operation is_blocked target_kind
  resolve_target operation_id resolution db = do
    operation ← get_sync_operation operation_id db
    guard (is_blocked operation.status) (state_database "only blocked operations can be resolved")
    target_kind operation.kind resolution

  -- The update for the kind that the checks give, and what it returns.
  unfoldable pub resolve_to :
      ℕ
      → String
      → BlockedOperationResolution
      → StateDatabase
      → CoreResult SyncOperationKind
      → StateDatabase × CoreResult ResolveOperationSummary
  unfolding update_where_id resolve_row get_sync_operation queue_status
  resolve_to now operation_id resolution db (err e) = (db, err e)
  resolve_to now operation_id resolution db (ok kind) =
      let resolved = update_where_id operation_id (resolve_row now kind resolution) db in
      (
        resolved,
        do
          operation ← get_sync_operation operation_id resolved
          queue ← queue_status c resolved
          ok (record { operation = operation; queue = queue }),
      )

  unfoldable pub resolve_blocked_sync_operation :
      ℕ
      → String
      → BlockedOperationResolution
      → StateDatabase
      → StateDatabase × CoreResult ResolveOperationSummary
  unfolding resolve_target resolve_to
  resolve_blocked_sync_operation now operation_id resolution db =
      resolve_to now operation_id resolution db (resolve_target operation_id resolution db)
