-- ===== src/Examples/Queue.antt =====
-- Witnesses for the queue of the state database.
use syncer.Prelude.{
  ℕ, ◌≡◌, ◌≢◌, ◌≤◌, ◌+◌, ◌↔◌, refl, true, false, not, Option, none, some, List, [], ◌∷◌, ◌++◌, map,
  ok, arith, All, inl, inr, String, ◌==◌, length, keep, count_if, min,
}
use syncer.Prelude.Texts.{Text, codes}
use syncer.Core.Model.{bidirectional}
use syncer.Core.Planning.{SyncPlan, plan_manifest_sync_for_mode}
use syncer.Core.StateDb.Records.{
  SyncOperationKind, resolve_conflict, SyncOperationStatus, blocked, failed, SyncOperationRecord,
  BlockedOperationResolution,
}
use syncer.Core.StateDb.Queue.{is_wanted, has_id, is_pending, queue_status, list_pending_operations}
use syncer.Core.StateDb.Queue.Enqueue.{enqueue_sync_plan}
use syncer.Core.StateDb.Queue.Resolve.{resolve_target, resolve_blocked_sync_operation, find_row}
use syncer.Core.StateDb.Queue.Kept.{queued, is_kept, enqueue_sync_plan-kept}
use syncer.Core.StateDb.Queue.Replaced.{Fits, enqueue_sync_plan-replaced}
use syncer.Core.StateDb.Queue.Resolution.{resolve_target_iff, conflict_by_download}
use syncer.Core.StateDb.Queue.Dropped.{resolve_blocked-dropped}
use syncer.Core.StateDb.Queue.Planned.{open_operation, operation_of, open_operation-planned}
use syncer.Core.Planning.Coverage.{planned}
use syncer.Core.StateDb.Records.{local_available}
use syncer.Core.StateDb.Queue.Totals.{totals, row_label, queue_status-totals}
use syncer.Core.StateDb.Queue.Listed.{Wanted, list_pending_operations-Wanted}
use syncer.Core.StateDb.Tables.{OperationRow, StateDatabase}
use syncer.Examples.{std_crates, laptop, phone, record_of, id_of, id_of_distinct, id_of-other}

abbrev row_of : String → Text → SyncOperationKind → SyncOperationStatus → OperationRow
row_of id path kind status = record {
  id = id;
  path = path;
  kind = kind;
  status = status;
  reason = "";
  local_size_bytes = some 5;
  remote_size_bytes = some 6;
  local_content_hash = none;
  remote_content_hash = none;
  remote_device_id = "phone";
  last_error = none;
  retry_count = 0;
  started_at_unix = none;
  finished_at_unix = none;
  created_at_unix = 100;
  updated_at_unix = 100;
}

abbrev conflict_row : OperationRow
conflict_row = row_of "x" (codes "c") resolve_conflict blocked

abbrev failed_row : OperationRow
failed_row = row_of "y" (codes "a") SyncOperationKind.upload_to_remote failed

abbrev two_operations : StateDatabase
two_operations = record {
  files = [];
  skipped_files = [];
  sync_operations = conflict_row ∷ failed_row ∷ [];
}

abbrev plan : SyncPlan
plan = plan_manifest_sync_for_mode std_crates laptop phone bidirectional

plan-Fits : All Fits plan.entries
unfolding plan_manifest_sync_for_mode syncer.Prelude.text_beq syncer.Prelude.text_lt
    syncer.Core.StateDb.Queue.optional_i64 syncer.Prelude.Tests.option_string_beq
plan-Fits = ((refl, refl), ((refl, refl), ((refl, refl), tt)))

fresh : (n : ℕ) → has_id (id_of n) two_operations.sync_operations ≡ false
unfolding has_id
fresh n = ground (arith, id_of-other "x" n (omega arith), id_of-other "y" n (omega arith))

enqueue_sync_plan-kept_example :
    keep
      (is_kept "phone")
      (enqueue_sync_plan std_crates 300 id_of plan two_operations).0.sync_operations
    ≡ failed_row ∷ []
unfolding plan_manifest_sync_for_mode is_kept syncer.Prelude.text_beq syncer.Prelude.text_lt
enqueue_sync_plan-kept_example = enqueue_sync_plan-kept std_crates 300 id_of plan two_operations

queue_status-totals_example :
    queue_status std_crates two_operations
    ≡ ok (
        totals 2
          (map row_label two_operations.sync_operations)
          (map row_label two_operations.sync_operations))
unfolding syncer.Core.StateDb.Queue.row_to_sync_operation syncer.Prelude.Paths.is_whitespace
    syncer.Prelude.Paths.is_absolute syncer.Prelude.Paths.components syncer.Prelude.text_beq
    syncer.Prelude.Paths.push
queue_status-totals_example =
    queue_status-totals std_crates two_operations ((_, refl), ((_, refl), tt))

resolve_target_iff_example :
    resolve_target std_crates "x" BlockedOperationResolution.download_from_remote two_operations
    ≡ ok SyncOperationKind.download_from_remote
unfolding find_row syncer.Core.StateDb.Queue.row_to_sync_operation
    syncer.Prelude.Paths.is_whitespace syncer.Prelude.Paths.is_absolute
    syncer.Prelude.Paths.components syncer.Prelude.text_beq syncer.Prelude.Paths.push
resolve_target_iff_example =
    (resolve_target_iff std_crates "x" BlockedOperationResolution.download_from_remote
        two_operations SyncOperationKind.download_from_remote).1
      (conflict_row, _, refl, refl, refl, conflict_by_download)

resolve_blocked-dropped_example :
    has_id "x"
      (enqueue_sync_plan std_crates 400 id_of plan
        (resolve_blocked_sync_operation std_crates 300 "x"
          BlockedOperationResolution.download_from_remote two_operations).0).0.sync_operations
    ≡ false
unfolding find_row syncer.Core.StateDb.Queue.row_to_sync_operation
    syncer.Prelude.Paths.is_whitespace syncer.Prelude.Paths.is_absolute
    syncer.Prelude.Paths.components syncer.Prelude.text_beq syncer.Prelude.Paths.push
    plan_manifest_sync_for_mode syncer.Prelude.text_lt has_id
resolve_blocked-dropped_example =
    resolve_blocked-dropped std_crates 300 400 id_of "x"
      BlockedOperationResolution.download_from_remote plan two_operations
      SyncOperationKind.download_from_remote
      (conflict_row, _, refl, refl, refl, conflict_by_download) refl (refl, (refl, tt)) plan-Fits
      id_of_distinct fresh

enqueue_sync_plan-replaced_example :
    (enqueue_sync_plan std_crates 300 id_of plan two_operations).0.sync_operations
    ≡ failed_row ∷ queued 300 id_of 0 "phone" plan.entries
unfolding is_kept plan_manifest_sync_for_mode syncer.Prelude.text_beq syncer.Prelude.text_lt
enqueue_sync_plan-replaced_example =
    enqueue_sync_plan-replaced std_crates 300 id_of plan two_operations plan-Fits id_of_distinct
      fresh

list_pending_operations-Wanted_example :
    (operations : List SyncOperationRecord) × (list_pending_operations std_crates "phone"
        SyncOperationKind.upload_to_remote 10 two_operations
      ≡ ok operations)
    × (length operations ≡ 0)
    × All (Wanted "phone" SyncOperationKind.upload_to_remote) operations
unfolding syncer.Core.StateDb.Queue.row_to_sync_operation syncer.Prelude.Paths.is_whitespace
    syncer.Prelude.Paths.is_absolute syncer.Prelude.Paths.components syncer.Prelude.text_beq
    syncer.Prelude.Paths.push is_wanted
list_pending_operations-Wanted_example =
    list_pending_operations-Wanted std_crates "phone" SyncOperationKind.upload_to_remote 10
      two_operations (omega arith) ((_, refl), ((_, refl), tt))

open_operation-planned_example :
    open_operation "phone"
      (codes "a")
      (enqueue_sync_plan std_crates 300 id_of plan two_operations).0.sync_operations
    ≡ operation_of (
        planned
          (codes "a")
          bidirectional
          (some (record_of (codes "a") 3 "ha" local_available))
          none)
unfolding plan_manifest_sync_for_mode syncer.Core.StateDb.Queue.operation_for_action
    syncer.Prelude.text_beq syncer.Prelude.text_lt
open_operation-planned_example =
    open_operation-planned std_crates 300 id_of laptop phone bidirectional two_operations
      (codes "a") plan-Fits id_of_distinct fresh
