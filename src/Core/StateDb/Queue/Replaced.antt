-- ===== src/Core/StateDb/Queue/Replaced.antt =====
-- When `enqueue_sync_plan` commits, and the queue that it leaves then.
use syncer.Prelude.{
  ℕ, suc, string_eq, String, ◌≡◌, refl, sym, ap, ◌∙◌, Bool, false, ◌||◌, Option, none, some, List,
  [], ◌∷◌, ◌++◌, ok, ◌>>=◌, keep, arith, All, ◌≤◌,
}
use mathlib.Core.List.{append_assoc, append-nil}
use text.Mathlib.TextEquality.{eq_iff}
use syncer.Crates.{Crates}
use syncer.Core.Planning.{SyncPlanEntry, SyncPlan}
use syncer.Core.StateDb.Records.{SyncOperationKind, SyncOperationStatus}
use syncer.Core.StateDb.Queue.{operation_for_action, optional_i64, survives, has_id}
use syncer.Core.StateDb.Queue.Kept.{queued, queued_for, is_kept, keep-is_kept}
use syncer.Core.StateDb.Queue.Enqueue.{
  insert_row, insert_entry, insert_entries, commit, enqueue_sync_plan,
}
use syncer.Core.StateDb.Tables.{OperationRow, StateDatabase}

-- The sizes of an entry fit the columns.
abbrev pub Fits : SyncPlanEntry → Type 0
Fits e =
    (optional_i64 e.local_size_bytes ≡ ok e.local_size_bytes)
    × (optional_i64 e.remote_size_bytes ≡ ok e.remote_size_bytes)

pub has_id-append :
    (id : String) (xs ys : List OperationRow) → has_id id (xs ++ ys) ≡ has_id id xs || has_id id ys
unfolding has_id
has_id-append id [] ys = refl
has_id-append id (x ∷ xs) ys = ground (arith, has_id-append id xs ys)

pub has_id-keep :
    (id : String) (p : OperationRow → Bool) (rows : List OperationRow)
    → has_id id rows ≡ false
    → has_id id (keep p rows) ≡ false
unfolding has_id
has_id-keep id p [] h = refl
has_id-keep id p (row ∷ rows) h = ground (arith, has_id-keep id p rows)

module _ (c : Crates) (now : ℕ) (new_id : ℕ → String) (remote : String)
    (distinct : (m n : ℕ) → new_id m ≡ new_id n → m ≡ n) where
  has_id-new :
      (m n : ℕ) (rows : List OperationRow) (row : OperationRow)
      → suc n ≤ m
      → row.id ≡ new_id n
      → has_id (new_id m) rows ≡ false
      → has_id (new_id m) (rows ++ row ∷ []) ≡ false
  unfolding has_id
  has_id-new m n rows row le e h =
      ground
        (arith, has_id-append (new_id m) rows (row ∷ []), eq_iff row.id (new_id m), distinct m n)

  insert_entries-ok :
      (n : ℕ) (entries : List SyncPlanEntry) (rows : List OperationRow)
      → All Fits entries
      → ((m : ℕ) → n ≤ m → has_id (new_id m) rows ≡ false)
      → insert_entries c now new_id n remote entries rows
        ≡ ok (rows ++ queued now new_id n remote entries)
  unfolding insert_entries queued operation_for_action insert_entry queued_for insert_row
  insert_entries-ok n [] rows fits fresh = ap ok (sym (append-nil rows))
  insert_entries-ok n (e ∷ entries) rows fits fresh =
      by_operation (operation_for_action e.action) (insert_entries-ok n entries rows fits.1 fresh)
        (λ row is.
          insert_entries-ok (suc n) entries (rows ++ row ∷ []) fits.1
            λ m le. has_id-new m n rows row le is (fresh m (omega arith)))
    where
      by_operation :
          (op : Option (SyncOperationKind × SyncOperationStatus))
          → insert_entries c now new_id n remote entries rows
            ≡ ok (rows ++ queued now new_id n remote entries)
          → ((row : OperationRow)
              → row.id ≡ new_id n
              → insert_entries c now new_id (suc n) remote entries (rows ++ row ∷ [])
                ≡ ok ((rows ++ row ∷ []) ++ queued now new_id (suc n) remote entries))
          → (insert_entry c now new_id n remote e op rows >>= λ r.
              insert_entries c now new_id r.0 remote entries r.1)
            ≡ ok (
                rows
                ++ queued_for now new_id n remote e op
                    (queued now new_id n remote entries)
                    (queued now new_id (suc n) remote entries))
      by_operation none without after = without
      by_operation (some (kind, status)) without after =
          rw (fits.0.0, fits.0.1, fresh n (omega arith))
            (after _ refl ∙ ap ok (append_assoc rows _ _))

module _ (c : Crates) (now : ℕ) (new_id : ℕ → String) (plan : SyncPlan) (db : StateDatabase) where
  -- If the sizes of the plan's entries fit the columns and the new ids are distinct and not in the
  -- queue, `enqueue_sync_plan` leaves the operations of other remotes and the finished ones, then one
  -- row for each entry that needs an operation, in the plan's order.
  pub enqueue_sync_plan-replaced :
      All Fits plan.entries
      → ((m n : ℕ) → new_id m ≡ new_id n → m ≡ n)
      → ((n : ℕ) → has_id (new_id n) db.sync_operations ≡ false)
      → (enqueue_sync_plan c now new_id plan db).0.sync_operations
        ≡ keep (is_kept plan.remote_device_id) db.sync_operations
          ++ queued now new_id 0 plan.remote_device_id plan.entries
  unfolding enqueue_sync_plan commit
  enqueue_sync_plan-replaced fits distinct fresh =
      rw
        (insert_entries-ok c now new_id plan.remote_device_id distinct 0 plan.entries
          (keep (survives plan.remote_device_id) db.sync_operations) fits
          λ m le. has_id-keep (new_id m) _ db.sync_operations (fresh m))
        (ap (λ rows. rows ++ queued now new_id 0 plan.remote_device_id plan.entries)
          (keep-is_kept plan.remote_device_id db.sync_operations))
