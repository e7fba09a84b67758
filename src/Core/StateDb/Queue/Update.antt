-- ===== src/Core/StateDb/Queue/Update.antt =====
-- crates/syncer-core/src/state_db.rs: the updates of the status of operations.
use syncer.Prelude.{
  ℕ, suc, string_eq, String, Bool, true, false, ◌&&◌, Option, none, some, map, ok, ◌>>=◌, ◌==◌,
  if◌then◌else◌, count_if,
}
use syncer.Crates.{Crates}
use syncer.Core.Error.{CoreResult}
use syncer.Core.StateDb.Records.{
  SyncOperationKind, resolve_conflict, repair_local_missing, repair_remote_missing, mode_blocked,
  SyncOperationStatus, pending, blocked, done, failed, RetryFailedSummary,
}
use syncer.Core.StateDb.Queue.{queue_status}
use syncer.Core.StateDb.Tables.{OperationRow, StateDatabase}

-- UPDATE ... WHERE id = ?1
unfoldable pub update_where_id :
    String → (OperationRow → OperationRow) → StateDatabase → StateDatabase
update_where_id id set db = record db {
  sync_operations = map (λ row. if row.id == id then set row else row) db.sync_operations;
}

unfoldable pub mark_sync_operation_started : ℕ → String → StateDatabase → StateDatabase
unfolding update_where_id
mark_sync_operation_started now operation_id = update_where_id operation_id λ row. record row {
  last_error = none;
  started_at_unix = some now;
  finished_at_unix = none;
  updated_at_unix = now;
}

unfoldable pub update_sync_operation_status :
    ℕ → String → SyncOperationStatus → Option String → StateDatabase → StateDatabase
unfolding update_where_id
update_sync_operation_status now operation_id status error = update_where_id operation_id λ row.
    record row {
      status = status;
      last_error = error;
      finished_at_unix = some now;
      updated_at_unix = now;
    }

unfoldable pub mark_sync_operation_done : ℕ → String → StateDatabase → StateDatabase
unfolding update_sync_operation_status
mark_sync_operation_done now operation_id = update_sync_operation_status now operation_id done none

unfoldable pub mark_sync_operation_failed : ℕ → String → String → StateDatabase → StateDatabase
unfolding update_sync_operation_status
mark_sync_operation_failed now operation_id error =
    update_sync_operation_status now operation_id failed (some error)

unfoldable pub is_failed : SyncOperationStatus → Bool
is_failed failed = true
is_failed pending = false
is_failed blocked = false
is_failed done = false

-- kind IN ('upload_to_remote', 'download_from_remote')
unfoldable pub is_transfer : SyncOperationKind → Bool
is_transfer SyncOperationKind.upload_to_remote = true
is_transfer SyncOperationKind.download_from_remote = true
is_transfer resolve_conflict = false
is_transfer repair_local_missing = false
is_transfer repair_remote_missing = false
is_transfer mode_blocked = false

-- AND remote_device_id = ?1, where a remote is given
unfoldable pub is_of : Option String → OperationRow → Bool
is_of none row = true
is_of (some remote_device_id) row = row.remote_device_id == remote_device_id

unfoldable pub is_retried : Option String → OperationRow → Bool
unfolding is_failed is_transfer is_of
is_retried remote_device_id row =
    is_failed row.status && is_transfer row.kind && is_of remote_device_id row

unfoldable pub retry_row : ℕ → Option String → OperationRow → OperationRow
unfolding is_retried
retry_row now remote_device_id row =
    if is_retried remote_device_id row
    then record row {
      status = pending;
      last_error = none;
      retry_count = suc row.retry_count;
      started_at_unix = none;
      finished_at_unix = none;
      updated_at_unix = now;
    }
    else row

module _ (c : Crates) where
  unfoldable pub retry_failed_sync_operations :
      ℕ → Option String → StateDatabase → StateDatabase × CoreResult RetryFailedSummary
  unfolding retry_row is_retried queue_status
  retry_failed_sync_operations now remote_device_id db =
      let retried = record db {
        sync_operations = map (retry_row now remote_device_id) db.sync_operations;
      } in
      (
        retried,
        do
          queue ← queue_status c retried
          ok (record {
            retried = count_if (is_retried remote_device_id) db.sync_operations;
            queue = queue;
          }),
      )
