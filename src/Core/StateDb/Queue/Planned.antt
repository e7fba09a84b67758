-- ===== src/Core/StateDb/Queue/Planned.antt =====
-- From the manifests of two devices to the queue: what is open for a path after a plan is queued.
use syncer.Prelude.{
  ℕ, suc, string_eq, String, ◌≡◌, refl, sym, ap, ◌∙◌, Bool, true, false, ◌&&◌, Option, none, some,
  List, [], ◌∷◌, ◌++◌, map, ◌==◌, if◌then◌else◌, keep, arith, All,
}
use mathlib.Core.Path.{subst}
use text.Mathlib.TextEquality.{eq_iff}
use syncer.Prelude.Texts.{Text, text_eq, text_eq_iff, text_lt, text_lt_irrefl}
use syncer.Prelude.BTreeMap.Laws.{IsAscending}
use syncer.Crates.{Crates}
use syncer.Core.Model.{FolderMode}
use syncer.Core.Planning.{SyncAction, SyncPlanEntry, SyncPlan, plan_manifest_sync_for_mode}
use syncer.Core.Planning.Coverage.{
  find_entry, last_with, planned, find_entry-plan, plan-IsAscending,
}
use syncer.Core.StateDb.Records.{SyncOperationKind, SyncOperationStatus, FolderManifest}
use syncer.Core.StateDb.Queue.{operation_for_action, is_open, has_id}
use syncer.Core.StateDb.Queue.Kept.{queued, queued_for, is_kept}
use syncer.Core.StateDb.Queue.Replaced.{Fits, enqueue_sync_plan-replaced}
use syncer.Core.StateDb.Queue.Enqueue.{insert_row, enqueue_sync_plan}
use syncer.Core.StateDb.Tables.{OperationRow, StateDatabase}

abbrev pub Operation : Type 0
Operation = SyncOperationKind × SyncOperationStatus

-- The kind and status of the first pending or blocked operation for the path and the remote.
unfoldable pub open_operation : String → Text → List OperationRow → Option Operation
unfolding is_open
open_operation remote path [] = none
open_operation remote path (row ∷ rows) =
    let rest = open_operation remote path rows in
    if (row.remote_device_id == remote) && (row.path == path) && is_open row.status
    then some (row.kind, row.status)
    else rest

abbrev pub operation_of : Option SyncPlanEntry → Option Operation
operation_of none = none
operation_of (some e) = operation_for_action e.action

open_operation-kept :
    (remote : String) (path : Text) (rows others : List OperationRow)
    → open_operation remote path (keep (is_kept remote) rows ++ others)
      ≡ open_operation remote path others
unfolding open_operation is_kept
open_operation-kept remote path [] others = refl
open_operation-kept remote path (row ∷ rows) others =
    ground (arith, open_operation-kept remote path rows others)

operation-is_open :
    (action : SyncAction) (kind : SyncOperationKind) (status : SyncOperationStatus)
    → operation_for_action action ≡ some (kind, status)
    → is_open status ≡ true
unfolding operation_for_action is_open
operation-is_open action kind status h = ground arith

-- No entry for a path before all the others.
find_entry-below :
    (path : Text) (entries : List SyncPlanEntry)
    → All (λ p. text_lt path p ≡ true) (map (λ e. e.path) entries)
    → find_entry path entries ≡ none
find_entry-below path [] h = refl
find_entry-below path (e ∷ entries) h =
    ground
      (arith, find_entry-below path entries h.1, h.0, text_eq_iff path e.path, text_lt_irrefl path)

find_entry-tail :
    (path : Text) (e : SyncPlanEntry) (entries : List SyncPlanEntry)
    → IsAscending (map (λ e. e.path) (e ∷ entries))
    → (path == e.path) ≡ true
    → find_entry path entries ≡ none
find_entry-tail path e entries h same = find_entry-below path entries (
    subst (λ p. All (λ q. text_lt p q ≡ true) (map (λ e. e.path) entries))
      (sym ((text_eq_iff path e.path).0 same)) h.0)

open_operation-queued_for :
    (now : ℕ) (new_id : ℕ → String) (n : ℕ) (remote : String) (path : Text) (e : SyncPlanEntry)
    (op : Option Operation) (without after : List OperationRow) (r : Option Operation)
    → operation_for_action e.action ≡ op
    → open_operation remote path without ≡ r
    → open_operation remote path after ≡ r
    → ((path == e.path) ≡ true → r ≡ none)
    → open_operation remote path (queued_for now new_id n remote e op without after)
      ≡ (if path == e.path then op else r)
unfolding open_operation queued_for insert_row
open_operation-queued_for now new_id n remote path e none without after r is w a last =
    ground (arith, w, last)
open_operation-queued_for now new_id n remote path e (some (kind, status)) without after r is w a
      last =
    ground (
      arith,
      a,
      operation-is_open e.action kind status is,
      eq_iff remote remote,
      text_eq_iff path e.path,
      text_eq_iff e.path path,
    )

operation_of-if :
    (b : Bool) (e : SyncPlanEntry) (rest : Option SyncPlanEntry)
    → (if b then operation_for_action e.action else operation_of rest)
      ≡ operation_of (if b then some e else rest)
operation_of-if true e rest = refl
operation_of-if false e rest = refl

open_operation-queued :
    (now : ℕ) (new_id : ℕ → String) (n : ℕ) (remote : String) (path : Text)
    (entries : List SyncPlanEntry)
    → IsAscending (map (λ e. e.path) entries)
    → open_operation remote path (queued now new_id n remote entries)
      ≡ operation_of (find_entry path entries)
unfolding open_operation queued
open_operation-queued now new_id n remote path [] h = refl
open_operation-queued now new_id n remote path (e ∷ entries) h =
    open_operation-queued_for now new_id n remote path e (operation_for_action e.action) _ _ _ refl
      (open_operation-queued now new_id n remote path entries h.1)
      (open_operation-queued now new_id (suc n) remote path entries h.1)
      (λ same. ap operation_of (find_entry-tail path e entries h same))
    ∙ operation_of-if (path == e.path) e (find_entry path entries)

module _ (c : Crates) (now : ℕ) (new_id : ℕ → String) (here there : FolderManifest)
    (mode : FolderMode) (db : StateDatabase) where
  abbrev pub plan_for : SyncPlan
  plan_for = plan_manifest_sync_for_mode c here there mode

  -- After the plan of two manifests is queued (its sizes fit the columns, and the new ids are distinct
  -- and not in the queue), the open operation for a path and the remote is the one for the action that
  -- the last records of the path on the two sides and the mode of the folder decide, and there is
  -- none where that action is to do nothing or neither side lists the path.
  pub open_operation-planned :
      (path : Text)
      → All Fits plan_for.entries
      → ((m n : ℕ) → new_id m ≡ new_id n → m ≡ n)
      → ((n : ℕ) → has_id (new_id n) db.sync_operations ≡ false)
      → open_operation plan_for.remote_device_id path
          (enqueue_sync_plan c now new_id plan_for db).0.sync_operations
        ≡ operation_of (planned path mode (last_with path here.files) (last_with path there.files))
  open_operation-planned path fits distinct fresh =
      ap (open_operation plan_for.remote_device_id path)
        (enqueue_sync_plan-replaced c now new_id plan_for db fits distinct fresh)
      ∙ open_operation-kept plan_for.remote_device_id path db.sync_operations _
      ∙ open_operation-queued now new_id 0 plan_for.remote_device_id path plan_for.entries
          (plan-IsAscending c here there mode)
      ∙ ap operation_of (find_entry-plan c here there mode path)
