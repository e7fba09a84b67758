-- ===== src/Core/StateDb/Queue/Dropped.antt =====
-- A resolution of the user, followed by the next plan for its remote.
use syncer.Prelude.{
  ℕ, String, string_eq, ◌≡◌, ◌≢◌, refl, ap, ◌∙◌, true, false, some, List, [], ◌∷◌, map, ◌==◌,
  if◌then◌else◌, keep, arith, All, suc,
}
use text.Mathlib.TextEquality.{eq_iff}
use syncer.Crates.{Crates}
use syncer.Core.Planning.{SyncPlanEntry, SyncPlan}
use syncer.Core.StateDb.Records.{SyncOperationKind, BlockedOperationResolution}
use syncer.Core.StateDb.Queue.{operation_for_action, has_id}
use syncer.Core.StateDb.Queue.Kept.{queued, queued_for, is_finished, is_kept}
use syncer.Core.StateDb.Queue.Replaced.{
  Fits, has_id-append, has_id-keep, enqueue_sync_plan-replaced,
}
use syncer.Core.StateDb.Queue.Resolution.{Resolvable, resolve_target_iff}
use syncer.Core.StateDb.Queue.Enqueue.{insert_row, enqueue_sync_plan}
use syncer.Core.StateDb.Queue.Resolve.{
  find_row, resolve_row, resolve_to, resolve_blocked_sync_operation,
}
use syncer.Core.StateDb.Queue.Update.{update_where_id}
use syncer.Core.StateDb.Tables.{OperationRow, StateDatabase}

-- `id TEXT PRIMARY KEY`: no two rows have one id.
abbrev pub HasDistinctIds : List OperationRow → Type 0
HasDistinctIds [] = Unit
HasDistinctIds (row ∷ rows) = (has_id row.id rows ≡ false) × HasDistinctIds rows

module _ (now : ℕ) (target : SyncOperationKind) (resolution : BlockedOperationResolution)
    (id : String) where
  abbrev resolve_in : List OperationRow → List OperationRow
  resolve_in rows =
      map (λ row. if row.id == id then resolve_row now target resolution row else row) rows

  has_id-resolve :
      (other : String) (rows : List OperationRow)
      → has_id other (resolve_in rows) ≡ has_id other rows
  unfolding has_id resolve_row
  has_id-resolve other [] = refl
  has_id-resolve other (row ∷ rows) = ground (arith, has_id-resolve other rows)

  has_id-find :
      (row : OperationRow) (rows : List OperationRow)
      → find_row id rows ≡ some row
      → has_id id rows ≡ true
  unfolding has_id find_row
  has_id-find row [] h = ground arith
  has_id-find row (r ∷ rows) h = ground (arith, has_id-find row rows)

  dropped-resolve :
      (remote : String) (row : OperationRow) (rows : List OperationRow)
      → find_row id rows ≡ some row
      → row.remote_device_id ≡ remote
      → HasDistinctIds rows
      → has_id id (keep (is_kept remote) (resolve_in rows)) ≡ false
  unfolding has_id find_row is_kept is_finished resolve_row
  dropped-resolve remote row [] h is unique = refl
  dropped-resolve remote row (r ∷ rows) h is unique = ground (
    arith,
    eq_iff r.id id,
    eq_iff r.remote_device_id remote,
    eq_iff row.remote_device_id remote,
    dropped-resolve remote row rows,
    has_id-keep id (is_kept remote) (resolve_in rows),
    has_id-resolve id rows,
    unique.0,
    unique.1,
  )

has_id-queued :
    (now : ℕ) (new_id : ℕ → String) (n : ℕ) (remote id : String) (entries : List SyncPlanEntry)
    → ((m : ℕ) → new_id m ≢ id)
    → has_id id (queued now new_id n remote entries) ≡ false
unfolding has_id queued queued_for operation_for_action insert_row
has_id-queued now new_id n remote id [] h = refl
has_id-queued now new_id n remote id (e ∷ entries) h = ground (
  arith,
  has_id-queued now new_id n remote id entries h,
  has_id-queued now new_id (suc n) remote id entries h,
  eq_iff (new_id n) id,
  h n,
)

module _ (c : Crates) (now later : ℕ) (new_id : ℕ → String) (id : String)
    (resolution : BlockedOperationResolution) (plan : SyncPlan) (db : StateDatabase)
    (target : SyncOperationKind) where
  resolve_blocked-eq :
      Resolvable c id resolution db target
      → (resolve_blocked_sync_operation c now id resolution db).0.sync_operations
        ≡ resolve_in now target resolution id db.sync_operations
  unfolding resolve_blocked_sync_operation resolve_to update_where_id resolve_row
  resolve_blocked-eq r = rw ((resolve_target_iff c id resolution db target).1 r) refl

  -- If an operation for the plan's remote was just resolved, and the plan that is enqueued next
  -- commits (its sizes fit the columns, the new ids are distinct and not in the queue, whose ids are
  -- distinct), the resolved operation is not in the queue any more, whatever the plan says.
  pub resolve_blocked-dropped :
      (r : Resolvable c id resolution db target)
      → r.0.remote_device_id ≡ plan.remote_device_id
      → HasDistinctIds db.sync_operations
      → All Fits plan.entries
      → ((m n : ℕ) → new_id m ≡ new_id n → m ≡ n)
      → ((n : ℕ) → has_id (new_id n) db.sync_operations ≡ false)
      → has_id id
          (enqueue_sync_plan c later new_id plan
            (resolve_blocked_sync_operation c now id resolution db).0).0.sync_operations
        ≡ false
  resolve_blocked-dropped r is unique fits distinct fresh =
      let resolved = (resolve_blocked_sync_operation c now id resolution db).0 in
      let same = resolve_blocked-eq r in
      ap (has_id id) (
        enqueue_sync_plan-replaced c later new_id plan resolved fits distinct (λ n.
          ap (has_id (new_id n)) same
          ∙ has_id-resolve now target resolution id (new_id n) db.sync_operations
          ∙ fresh n))
      ∙ has_id-append id (keep (is_kept plan.remote_device_id) resolved.sync_operations) _
      ∙ rw
          (
            same,
            dropped-resolve now target resolution id plan.remote_device_id r.0 db.sync_operations
                r.2 is unique,
          )
          (has_id-queued later new_id 0 plan.remote_device_id id plan.entries
            λ m e. cc (fresh m, has_id-find now target resolution id r.0 db.sync_operations r.2, e))
