-- ===== src/Core/StateDb/Queue/Enqueue.antt =====
-- crates/syncer-core/src/state_db.rs: the transaction that queues a plan.
use syncer.Prelude.{
  ℕ, suc, string_eq, String, not, Option, none, some, List, [], ◌∷◌, ◌++◌, ok, err, ◌>>=◌, ◌>>◌,
  guard, keep,
}
use syncer.Crates.{Crates}
use syncer.Core.Error.{CoreResult, state_database}
use syncer.Core.Planning.{SyncPlanEntry, SyncPlan}
use syncer.Core.StateDb.Records.{SyncOperationKind, SyncOperationStatus, QueueStatus}
use syncer.Core.StateDb.Queue.{operation_for_action, optional_i64, survives, has_id, queue_status}
use syncer.Core.StateDb.Tables.{OperationRow, StateDatabase}

unfoldable pub insert_row :
    ℕ
    → String
    → String
    → SyncPlanEntry
    → SyncOperationKind
    → SyncOperationStatus
    → Option ℕ
    → Option ℕ
    → OperationRow
insert_row now id remote_device_id entry kind status local_size_bytes remote_size_bytes = record {
  id = id;
  path = entry.path;
  kind = kind;
  status = status;
  reason = entry.reason;
  local_size_bytes = local_size_bytes;
  remote_size_bytes = remote_size_bytes;
  local_content_hash = entry.local_content_hash;
  remote_content_hash = entry.remote_content_hash;
  remote_device_id = remote_device_id;
  last_error = none;
  retry_count = 0;
  started_at_unix = none;
  finished_at_unix = none;
  created_at_unix = now;
  updated_at_unix = now;
}

module _ (c : Crates) where
  -- One round of the loop, `continue` if there is no operation. `new_id n` is the n-th id that
  -- `Uuid::now_v7` makes in the call.
  unfoldable pub insert_entry :
      ℕ
      → (ℕ → String)
      → ℕ
      → String
      → SyncPlanEntry
      → Option (SyncOperationKind × SyncOperationStatus)
      → List OperationRow
      → CoreResult (ℕ × List OperationRow)
  unfolding optional_i64 insert_row has_id
  insert_entry now new_id n remote_device_id entry none rows = ok (n, rows)
  insert_entry now new_id n remote_device_id entry (some (kind, status)) rows = do
    local_size_bytes ← optional_i64 entry.local_size_bytes
    remote_size_bytes ← optional_i64 entry.remote_size_bytes
    guard (not (has_id (new_id n) rows)) (state_database c.unique_violation)
    ok (
      suc n,
      rows
          ++ insert_row now (new_id n) remote_device_id entry kind status local_size_bytes
              remote_size_bytes
            ∷ [],
    )

  unfoldable pub insert_entries :
      ℕ
      → (ℕ → String)
      → ℕ
      → String
      → List SyncPlanEntry
      → List OperationRow
      → CoreResult (List OperationRow)
  unfolding insert_entry operation_for_action
  insert_entries now new_id n remote_device_id [] rows = ok rows
  insert_entries now new_id n remote_device_id (entry ∷ entries) rows = do
    inserted ←
        insert_entry now new_id n remote_device_id entry (operation_for_action entry.action) rows
    insert_entries now new_id inserted.0 remote_device_id entries inserted.1

  -- The end of the transaction: an error before the commit rolls it back.
  unfoldable pub commit :
      StateDatabase → CoreResult (List OperationRow) → StateDatabase × CoreResult QueueStatus
  unfolding queue_status
  commit db (err e) = (db, err e)
  commit db (ok rows) =
      let committed = record db { sync_operations = rows } in (committed, queue_status c committed)

  unfoldable pub enqueue_sync_plan :
      ℕ → (ℕ → String) → SyncPlan → StateDatabase → StateDatabase × CoreResult QueueStatus
  unfolding insert_entries survives commit
  enqueue_sync_plan now new_id plan db = commit db (
      insert_entries now new_id 0 plan.remote_device_id plan.entries
        (keep (survives plan.remote_device_id) db.sync_operations))
