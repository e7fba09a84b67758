-- ===== src/Core/StateDb/Queue/Kept.antt =====
-- What `enqueue_sync_plan` keeps of the queue, and what it puts there.
use syncer.Prelude.{
  ℕ, suc, string_eq, String, ◌≡◌, ◌⊎◌, refl, ◌∙◌, Bool, true, false, not, ◌||◌, ◌==◌, sym, Option,
  none, some, List, [], ◌∷◌, ◌++◌, ok, err, >>=-eq-ok, keep, arith,
}
use mathlib.Core.List.{append_assoc, append-nil}
use text.Mathlib.TextEquality.{eq_iff}
use syncer.Crates.{Crates}
use syncer.Core.Planning.{SyncPlanEntry, SyncPlan}
use syncer.Core.Error.{CoreResult, file_size_overflow}
use syncer.Core.StateDb.Records.{
  SyncOperationKind, SyncOperationStatus, pending, blocked, done, failed,
}
use syncer.Core.StateDb.Queue.{operation_for_action, optional_i64, is_open, survives}
use syncer.Core.StateDb.Queue.Enqueue.{
  insert_row, insert_entry, insert_entries, commit, enqueue_sync_plan,
}
use syncer.Core.StateDb.Tables.{OperationRow, StateDatabase}

operation_for_action-is_open :
    (e : SyncPlanEntry) (kind : SyncOperationKind) (status : SyncOperationStatus)
    → operation_for_action e.action ≡ some (kind, status)
    → is_open status ≡ true
unfolding operation_for_action is_open
operation_for_action-is_open e kind status h = ground arith

keep-append {ℓ} :
    {A : Type ℓ} (p : A → Bool) (xs ys : List A) → keep p (xs ++ ys) ≡ keep p xs ++ keep p ys
keep-append p [] ys = refl
keep-append p (x ∷ xs) ys = ground (arith, keep-append p xs ys)

keep-keep {ℓ} : {A : Type ℓ} (p : A → Bool) (xs : List A) → keep p (keep p xs) ≡ keep p xs
keep-keep p [] = refl
keep-keep p (x ∷ xs) = ground (arith, keep-keep p xs)

unfoldable pub queued_for :
    ℕ
    → (ℕ → String)
    → ℕ
    → String
    → SyncPlanEntry
    → Option (SyncOperationKind × SyncOperationStatus)
    → List OperationRow
    → List OperationRow
    → List OperationRow
unfolding insert_row
queued_for now new_id n remote e none without after = without
queued_for now new_id n remote e (some (kind, status)) without after =
    insert_row now (new_id n) remote e kind status e.local_size_bytes e.remote_size_bytes ∷ after

-- The rows for the entries that need an operation, in their order.
unfoldable pub queued : ℕ → (ℕ → String) → ℕ → String → List SyncPlanEntry → List OperationRow
unfolding operation_for_action queued_for
queued now new_id n remote [] = []
queued now new_id n remote (e ∷ entries) =
    queued_for now new_id n remote e (operation_for_action e.action)
      (queued now new_id n remote entries) (queued now new_id (suc n) remote entries)

optional_i64-cases :
    (v : Option ℕ) → (optional_i64 v ≡ ok v) ⊎ (optional_i64 v ≡ err file_size_overflow)
unfolding optional_i64
optional_i64-cases none = ground arith
optional_i64-cases (some v) = ground arith

keep-queued :
    (now : ℕ) (new_id : ℕ → String) (n : ℕ) (remote : String) (entries : List SyncPlanEntry)
    → keep (survives remote) (queued now new_id n remote entries) ≡ []
unfolding queued queued_for survives insert_row
keep-queued now new_id n remote [] = refl
keep-queued now new_id n remote (e ∷ entries) = ground (
  arith,
  keep-queued now new_id n remote entries,
  keep-queued now new_id (suc n) remote entries,
  operation_for_action-is_open e,
  eq_iff remote remote,
)

module _ (c : Crates) (now : ℕ) (new_id : ℕ → String) (remote : String) where
  insert_entry-eq :
      (n : ℕ) (e : SyncPlanEntry) (op : Option (SyncOperationKind × SyncOperationStatus))
      (entries : List SyncPlanEntry) (rows : List OperationRow) (r : ℕ × List OperationRow)
      → insert_entry c now new_id n remote e op rows ≡ ok r
      → r.1 ++ queued now new_id r.0 remote entries
        ≡ rows
          ++ queued_for now new_id n remote e op
              (queued now new_id n remote entries)
              (queued now new_id (suc n) remote entries)
  unfolding insert_entry queued_for
  insert_entry-eq n e none entries rows r h = ground arith
  insert_entry-eq n e (some (kind, status)) entries rows r h = ground (
    arith,
    optional_i64-cases e.local_size_bytes,
    optional_i64-cases e.remote_size_bytes,
    append_assoc rows
        (insert_row now (new_id n) remote e kind status e.local_size_bytes e.remote_size_bytes ∷ [])
        (queued now new_id (suc n) remote entries),
  )

  insert_entries-eq :
      (n : ℕ) (entries : List SyncPlanEntry) (rows after : List OperationRow)
      → insert_entries c now new_id n remote entries rows ≡ ok after
      → after ≡ rows ++ queued now new_id n remote entries
  unfolding insert_entries queued operation_for_action
  insert_entries-eq n [] rows after h = ground (arith, append-nil rows)
  insert_entries-eq n (e ∷ entries) rows after h =
      let (r, first, rest) =
        >>=-eq-ok (insert_entry c now new_id n remote e (operation_for_action e.action) rows) _ h in
      insert_entries-eq r.0 entries r.1 after rest ∙ insert_entry-eq n e _ entries rows r first

  survives-insert_entries :
      (entries : List SyncPlanEntry) (rows after : List OperationRow)
      → insert_entries c now new_id 0 remote entries (keep (survives remote) rows) ≡ ok after
      → keep (survives remote) after ≡ keep (survives remote) rows
  survives-insert_entries entries rows after h =
      rw
        (
          insert_entries-eq 0 entries (keep (survives remote) rows) after h,
          keep-append,
          keep-keep,
          keep-queued,
          append-nil,
        )
        refl

  survives-commit :
      (db : StateDatabase) (result : CoreResult (List OperationRow))
      → ((after : List OperationRow)
          → result ≡ ok after
          → keep (survives remote) after ≡ keep (survives remote) db.sync_operations)
      → keep (survives remote) (commit c db result).0.sync_operations
        ≡ keep (survives remote) db.sync_operations
  unfolding commit
  survives-commit db (err e) h = refl
  survives-commit db (ok rows) h = h rows refl

-- Done or failed.
unfoldable pub is_finished : SyncOperationStatus → Bool
is_finished done = true
is_finished failed = true
is_finished pending = false
is_finished blocked = false

-- An operation of another remote, or a finished one.
unfoldable pub is_kept : String → OperationRow → Bool
unfolding is_finished
is_kept remote row = not (row.remote_device_id == remote) || is_finished row.status

survives-is_kept : (remote : String) (row : OperationRow) → survives remote row ≡ is_kept remote row
unfolding survives is_open is_kept
survives-is_kept remote row = ground arith

pub keep-is_kept :
    (remote : String) (rows : List OperationRow)
    → keep (survives remote) rows ≡ keep (is_kept remote) rows
keep-is_kept remote [] = refl
keep-is_kept remote (row ∷ rows) =
    ground (arith, survives-is_kept remote row, keep-is_kept remote rows)

module _ (c : Crates) (now : ℕ) (new_id : ℕ → String) (plan : SyncPlan) (db : StateDatabase) where
  -- Whether it succeeds or fails, `enqueue_sync_plan` keeps every operation of another remote and
  -- every done or failed one, as it was and in its place, and adds none of these.
  pub enqueue_sync_plan-kept :
      keep
        (is_kept plan.remote_device_id)
        (enqueue_sync_plan c now new_id plan db).0.sync_operations
      ≡ keep (is_kept plan.remote_device_id) db.sync_operations
  unfolding enqueue_sync_plan
  enqueue_sync_plan-kept =
      sym (keep-is_kept plan.remote_device_id _)
      ∙ survives-commit c now new_id plan.remote_device_id db _ (
          survives-insert_entries c now new_id plan.remote_device_id plan.entries
            db.sync_operations)
      ∙ keep-is_kept plan.remote_device_id db.sync_operations
