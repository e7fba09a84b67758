-- ===== src/Core/StateDb/Queue.antt =====
-- crates/syncer-core/src/state_db.rs: the queue of sync operations, the table `sync_operations`.
-- A method that writes returns the database after it beside its result. `now` is `unixepoch()`.
pub mod Update
pub mod Enqueue
pub mod Resolve
pub mod Kept
pub mod Replaced
pub mod Totals
pub mod Listed
pub mod Resolution
pub mod Dropped
pub mod Planned
use syncer.Prelude.{
  ℕ, ◌+◌, ◌-◌, nat_eq, string_eq, String, Bool, true, false, not, ◌&&◌, ◌||◌, Option, none, some,
  List, [], ◌∷◌, ◌++◌, map, ok, err, ◌>>=◌, ◌>>◌, guard, ok_or, try_map, ltb, leb, ◌==◌,
  if◌then◌else◌, keep, length,
}
use syncer.Prelude.Words.{i64_max, saturating_add, pos}
use syncer.Prelude.Texts.{Text, text_eq, text_lt}
use syncer.Crates.{Crates}
use syncer.Core.Error.{CoreResult, file_size_overflow, state_database}
use syncer.Core.Manifest.{parse}
use syncer.Core.Planning.{
  SyncAction, conflict, local_missing_unsynchronized, remote_missing_unsynchronized, SyncPlanEntry,
  SyncPlan,
}
use syncer.Core.StateDb.Records.{
  SyncOperationKind, resolve_conflict, repair_local_missing, repair_remote_missing, mode_blocked,
  SyncOperationStatus, pending, blocked, done, failed, SyncOperationRecord, QueueStatus,
}
use syncer.Core.StateDb.Files.{fits_i64}
use syncer.Core.StateDb.Files.Reads.{unix_time}
use syncer.Core.StateDb.Tables.{OperationRow, StateDatabase}

unfoldable pub operation_for_action : SyncAction → Option (SyncOperationKind × SyncOperationStatus)
operation_for_action SyncAction.in_sync = none
operation_for_action SyncAction.upload_to_remote =
    some (SyncOperationKind.upload_to_remote, pending)
operation_for_action SyncAction.download_from_remote =
    some (SyncOperationKind.download_from_remote, pending)
operation_for_action conflict = some (resolve_conflict, blocked)
operation_for_action local_missing_unsynchronized = some (repair_local_missing, blocked)
operation_for_action remote_missing_unsynchronized = some (repair_remote_missing, blocked)
operation_for_action SyncAction.mode_blocked = some (SyncOperationKind.mode_blocked, blocked)

unfoldable pub optional_i64 : Option ℕ → CoreResult (Option ℕ)
optional_i64 none = ok none
optional_i64 (some value) = do guard (fits_i64 value) file_size_overflow; ok (some value)

-- status IN ('pending', 'blocked')
unfoldable pub is_open : SyncOperationStatus → Bool
is_open pending = true
is_open blocked = true
is_open done = false
is_open failed = false

-- `status == SyncOperationStatus::Blocked`, and the test of the statements for each other status
unfoldable pub is_blocked : SyncOperationStatus → Bool
is_blocked blocked = true
is_blocked pending = false
is_blocked done = false
is_blocked failed = false

unfoldable pub is_pending : SyncOperationStatus → Bool
is_pending pending = true
is_pending blocked = false
is_pending done = false
is_pending failed = false

-- `kind = ?2`, on the kinds for the texts of the column
unfoldable pub same_kind : SyncOperationKind → SyncOperationKind → Bool
same_kind SyncOperationKind.upload_to_remote SyncOperationKind.upload_to_remote = true
same_kind SyncOperationKind.download_from_remote SyncOperationKind.download_from_remote = true
same_kind resolve_conflict resolve_conflict = true
same_kind repair_local_missing repair_local_missing = true
same_kind repair_remote_missing repair_remote_missing = true
same_kind SyncOperationKind.mode_blocked SyncOperationKind.mode_blocked = true
same_kind a b = false

-- The rows that the DELETE of a new plan for the remote leaves.
unfoldable pub survives : String → OperationRow → Bool
unfolding is_open
survives remote_device_id row =
    not ((row.remote_device_id == remote_device_id) && is_open row.status)

-- `id TEXT PRIMARY KEY`
unfoldable pub has_id : String → List OperationRow → Bool
has_id id [] = false
has_id id (row ∷ rows) = let rest = has_id id rows in if row.id == id then true else rest

-- ORDER BY created_at_unix, path
unfoldable pub operation_lt : OperationRow → OperationRow → Bool
operation_lt a b =
    if ltb a.created_at_unix b.created_at_unix
    then true
    else if a.created_at_unix == b.created_at_unix
    then text_lt a.path b.path
    else false

unfoldable pub insert_operation : OperationRow → List OperationRow → List OperationRow
unfolding operation_lt
insert_operation row [] = row ∷ []
insert_operation row (r ∷ rows) =
    let rest = insert_operation row rows in if operation_lt r row then r ∷ rest else row ∷ r ∷ rows

unfoldable pub order_operations : List OperationRow → List OperationRow
unfolding insert_operation
order_operations [] = []
order_operations (row ∷ rows) = insert_operation row (order_operations rows)

-- WHERE remote_device_id = ?1 AND kind = ?2 AND status = 'pending'
unfoldable pub is_wanted : String → SyncOperationKind → OperationRow → Bool
unfolding is_pending same_kind
is_wanted remote_device_id kind row =
    (row.remote_device_id == remote_device_id) && same_kind row.kind kind && is_pending row.status

-- LIMIT
unfoldable pub take {ℓ} : {A : Type ℓ} → ℕ → List A → List A
take n [] = []
take n (x ∷ xs) = let rest = take (n - 1) xs in if n == 0 then [] else x ∷ rest

unfoldable pub count_status : QueueStatus → SyncOperationStatus → QueueStatus
count_status s pending = record s { pending = saturating_add s.pending 1 }
count_status s blocked = record s { blocked = saturating_add s.blocked 1 }
count_status s done = record s { done = saturating_add s.done 1 }
count_status s failed = record s { failed = saturating_add s.failed 1 }

unfoldable pub count_kind : QueueStatus → SyncOperationKind → QueueStatus
count_kind s SyncOperationKind.upload_to_remote = record s {
  upload_to_remote = saturating_add s.upload_to_remote 1;
}
count_kind s SyncOperationKind.download_from_remote = record s {
  download_from_remote = saturating_add s.download_from_remote 1;
}
count_kind s resolve_conflict = record s { resolve_conflict = saturating_add s.resolve_conflict 1 }
count_kind s repair_local_missing = record s {
  repair_local_missing = saturating_add s.repair_local_missing 1;
}
count_kind s repair_remote_missing = record s {
  repair_remote_missing = saturating_add s.repair_remote_missing 1;
}
count_kind s SyncOperationKind.mode_blocked = record s {
  mode_blocked = saturating_add s.mode_blocked 1;
}

unfoldable pub count_operations : QueueStatus → List SyncOperationRecord → QueueStatus
unfolding count_status count_kind
count_operations s [] = s
count_operations s (o ∷ operations) =
    count_operations (count_kind (count_status s o.status) o.kind) operations

abbrev pub empty_status : ℕ → QueueStatus
empty_status total = record {
  total = total;
  pending = 0;
  blocked = 0;
  done = 0;
  failed = 0;
  upload_to_remote = 0;
  download_from_remote = 0;
  resolve_conflict = 0;
  repair_local_missing = 0;
  repair_remote_missing = 0;
  mode_blocked = 0;
}

module _ (c : Crates) where
  unfoldable pub optional_unix_timestamp : Option ℕ → CoreResult (Option ℕ)
  unfolding unix_time
  optional_unix_timestamp none = ok none
  optional_unix_timestamp (some timestamp) = do t ← unix_time c (pos timestamp); ok (some t)

  unfoldable pub row_to_sync_operation : OperationRow → CoreResult SyncOperationRecord
  unfolding parse unix_time optional_unix_timestamp
  row_to_sync_operation row = do
    path ← parse c row.path
    started_at ← optional_unix_timestamp row.started_at_unix
    finished_at ← optional_unix_timestamp row.finished_at_unix
    created_at ← unix_time c (pos row.created_at_unix)
    updated_at ← unix_time c (pos row.updated_at_unix)
    ok (record {
      id = row.id;
      path = path;
      kind = row.kind;
      status = row.status;
      reason = row.reason;
      local_size_bytes = row.local_size_bytes;
      remote_size_bytes = row.remote_size_bytes;
      local_content_hash = row.local_content_hash;
      remote_content_hash = row.remote_content_hash;
      remote_device_id = row.remote_device_id;
      last_error = row.last_error;
      retry_count = row.retry_count;
      started_at = started_at;
      finished_at = finished_at;
      created_at = created_at;
      updated_at = updated_at;
    })

  unfoldable pub list_sync_operations : StateDatabase → CoreResult (List SyncOperationRecord)
  unfolding row_to_sync_operation order_operations try_map
  list_sync_operations db = try_map row_to_sync_operation (order_operations db.sync_operations)

  unfoldable pub list_pending_operations :
      String → SyncOperationKind → ℕ → StateDatabase → CoreResult (List SyncOperationRecord)
  unfolding row_to_sync_operation order_operations is_wanted take try_map
  list_pending_operations remote_device_id kind limit db = do
    guard (fits_i64 limit) file_size_overflow
    try_map row_to_sync_operation
        (take limit (order_operations (keep (is_wanted remote_device_id kind) db.sync_operations)))

  unfoldable pub queue_status : StateDatabase → CoreResult QueueStatus
  unfolding list_sync_operations count_operations
  queue_status db = do
    operations ← list_sync_operations db
    ok (count_operations (empty_status (length operations)) operations)

  unfoldable pub list_pending_download_operations :
      String → ℕ → StateDatabase → CoreResult (List SyncOperationRecord)
  unfolding list_pending_operations
  list_pending_download_operations remote_device_id =
      list_pending_operations remote_device_id SyncOperationKind.download_from_remote

  unfoldable pub list_pending_upload_operations :
      String → ℕ → StateDatabase → CoreResult (List SyncOperationRecord)
  unfolding list_pending_operations
  list_pending_upload_operations remote_device_id =
      list_pending_operations remote_device_id SyncOperationKind.upload_to_remote
