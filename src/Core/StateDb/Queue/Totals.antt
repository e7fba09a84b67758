-- ===== src/Core/StateDb/Queue/Totals.antt =====
-- What `queue_status` counts.
use syncer.Prelude.{
  ℕ, suc, ◌≡◌, refl, ap, ◌∙◌, Bool, true, false, List, [], ◌∷◌, ◌++◌, map, ok, try_map, ◌==◌,
  nat_eq, if◌then◌else◌, length, count_if, count_if-append, arith, All, min,
}
use mathlib.Core.List.{append_assoc, append-nil}
use syncer.Prelude.Words.{u64_max, saturating_add}
use syncer.Crates.{Crates}
use syncer.Core.StateDb.Records.{
  SyncOperationKind, resolve_conflict, repair_local_missing, repair_remote_missing, mode_blocked,
  SyncOperationStatus, pending, blocked, done, failed, SyncOperationRecord, QueueStatus,
}
use syncer.Core.StateDb.Queue.{
  count_status, count_kind, count_operations, operation_lt, row_to_sync_operation, insert_operation,
  order_operations, list_sync_operations, queue_status,
}
use syncer.Core.StateDb.Tables.{OperationRow, StateDatabase}

-- What the counts look at.
abbrev pub Label : Type 0
Label = SyncOperationStatus × SyncOperationKind

unfoldable pub status_tag : SyncOperationStatus → ℕ
status_tag pending = 0
status_tag blocked = 1
status_tag done = 2
status_tag failed = 3

unfoldable pub kind_tag : SyncOperationKind → ℕ
kind_tag SyncOperationKind.upload_to_remote = 0
kind_tag SyncOperationKind.download_from_remote = 1
kind_tag resolve_conflict = 2
kind_tag repair_local_missing = 3
kind_tag repair_remote_missing = 4
kind_tag mode_blocked = 5

-- How many labels have the status or the kind, in a saturating `u64`.
unfoldable pub status_tally : ℕ → List Label → ℕ
unfolding status_tag
status_tally t labels = min (count_if (λ l. status_tag l.0 == t) labels) u64_max

unfoldable pub kind_tally : ℕ → List Label → ℕ
unfolding kind_tag
kind_tally t labels = min (count_if (λ l. kind_tag l.1 == t) labels) u64_max

abbrev pub totals : ℕ → List Label → List Label → QueueStatus
totals n by_status by_kind = record {
  total = n;
  pending = status_tally 0 by_status;
  blocked = status_tally 1 by_status;
  done = status_tally 2 by_status;
  failed = status_tally 3 by_status;
  upload_to_remote = kind_tally 0 by_kind;
  download_from_remote = kind_tally 1 by_kind;
  resolve_conflict = kind_tally 2 by_kind;
  repair_local_missing = kind_tally 3 by_kind;
  repair_remote_missing = kind_tally 4 by_kind;
  mode_blocked = kind_tally 5 by_kind;
}

status_tally-append :
    (t : ℕ) (labels : List Label) (l : Label)
    → status_tally t (labels ++ l ∷ []) ≡ (
        if status_tag l.0 == t
        then saturating_add (status_tally t labels) 1
        else status_tally t labels)
unfolding status_tally
status_tally-append t labels l =
    ground (arith, count_if-append (λ l. status_tag l.0 == t) labels (l ∷ []))

kind_tally-append :
    (t : ℕ) (labels : List Label) (l : Label)
    → kind_tally t (labels ++ l ∷ [])
      ≡ (if kind_tag l.1 == t then saturating_add (kind_tally t labels) 1 else kind_tally t labels)
unfolding kind_tally
kind_tally-append t labels l =
    ground (arith, count_if-append (λ l. kind_tag l.1 == t) labels (l ∷ []))

count_status-append :
    (n : ℕ) (xs ys : List Label) (l : Label)
    → count_status (totals n xs ys) l.0 ≡ totals n (xs ++ l ∷ []) ys
unfolding count_status status_tag
count_status-append n xs ys (pending, k) = simp (status_tally-append)
count_status-append n xs ys (s, k) = simp (status_tally-append)

count_kind-append :
    (n : ℕ) (xs ys : List Label) (l : Label)
    → count_kind (totals n xs ys) l.1 ≡ totals n xs (ys ++ l ∷ [])
unfolding count_kind kind_tag
count_kind-append n xs ys (s, resolve_conflict) = simp (kind_tally-append)
count_kind-append n xs ys (s, k) = simp (kind_tally-append)

operation_label : SyncOperationRecord → Label
operation_label o = (o.status, o.kind)

abbrev pub row_label : OperationRow → Label
row_label row = (row.status, row.kind)

count_operations-append :
    (n : ℕ) (labels : List Label) (operations : List SyncOperationRecord)
    → count_operations (totals n labels labels) operations
      ≡ totals n
          (labels ++ map operation_label operations)
          (labels ++ map operation_label operations)
unfolding count_operations operation_label
count_operations-append n labels [] = rw append-nil refl
count_operations-append n labels (o ∷ operations) =
    rw
      (
        count_status-append n labels labels (o.status, o.kind),
        count_kind-append n (labels ++ (o.status, o.kind) ∷ []) labels (o.status, o.kind),
      )
      (count_operations-append n (labels ++ (o.status, o.kind) ∷ []) operations
        ∙ rw append_assoc refl)

count_if-insert :
    (p : Label → Bool) (row : OperationRow) (rows : List OperationRow)
    → count_if p (map row_label (insert_operation row rows))
      ≡ count_if p (map row_label (row ∷ rows))
unfolding insert_operation
count_if-insert p row [] = refl
count_if-insert p row (r ∷ rows) = ground (arith, count_if-insert p row rows)

count_if-order :
    (p : Label → Bool) (rows : List OperationRow)
    → count_if p (map row_label (order_operations rows)) ≡ count_if p (map row_label rows)
unfolding order_operations
count_if-order p [] = refl
count_if-order p (row ∷ rows) =
    ground (arith, count_if-insert p row (order_operations rows), count_if-order p rows)

length-insert :
    (row : OperationRow) (rows : List OperationRow)
    → length (insert_operation row rows) ≡ suc (length rows)
unfolding insert_operation
length-insert row [] = refl
length-insert row (r ∷ rows) = ground (arith, length-insert row rows)

pub length-order : (rows : List OperationRow) → length (order_operations rows) ≡ length rows
unfolding order_operations
length-order [] = refl
length-order (row ∷ rows) = length-insert row (order_operations rows) ∙ ap suc (length-order rows)

totals-order :
    (rows : List OperationRow)
    → totals
        (length (order_operations rows))
        (map row_label (order_operations rows))
        (map row_label (order_operations rows))
      ≡ totals (length rows) (map row_label rows) (map row_label rows)
unfolding status_tally kind_tally
totals-order rows =
    rw
      (
        length-order, count_if-order, count_if-order, count_if-order, count_if-order,
        count_if-order, count_if-order, count_if-order, count_if-order, count_if-order,
        count_if-order,
      )
      refl

-- The row can be read.
abbrev pub Reads : Crates → OperationRow → Type 0
Reads c row = (o : SyncOperationRecord) × (row_to_sync_operation c row ≡ ok o)

insert-All {κ} :
    (P : OperationRow → Type κ) (row : OperationRow) (rows : List OperationRow)
    → P row
    → All P rows
    → All P (insert_operation row rows)
unfolding insert_operation
insert-All P row [] h hs = (h, tt)
insert-All P row (r ∷ rows) h hs =
    elim (operation_lt r row)
      as (λ b. All P (if b then r ∷ insert_operation row rows else row ∷ r ∷ rows)) [
        | true ↦ (hs.0, insert-All P row rows h hs.1)
        | false ↦ (h, hs)
      ]

pub order-All {κ} :
    (P : OperationRow → Type κ) (rows : List OperationRow)
    → All P rows
    → All P (order_operations rows)
unfolding order_operations
order-All P [] hs = tt
order-All P (row ∷ rows) hs = insert-All P row (order_operations rows) hs.0 (order-All P rows hs.1)

module _ (c : Crates) where
  operation_label-read :
      (row : OperationRow) (o : SyncOperationRecord)
      → row_to_sync_operation c row ≡ ok o
      → operation_label o ≡ row_label row
  unfolding row_to_sync_operation operation_label
  operation_label-read row o h = ground arith

  try_map-read :
      (rows : List OperationRow)
      → All (Reads c) rows
      → (operations : List SyncOperationRecord) × (try_map (row_to_sync_operation c) rows
          ≡ ok operations)
        × (length operations ≡ length rows)
        × (map operation_label operations ≡ map row_label rows)
  unfolding try_map
  try_map-read [] hs = ([], refl, refl, refl)
  try_map-read (row ∷ rows) hs =
      let (o, reads) = hs.0 in
      let (operations, is, same, labels) = try_map-read rows hs.1 in
      (
        o ∷ operations,
        rw (reads, is) refl,
        ap suc same,
        rw (operation_label-read row o reads, labels) refl,
      )

  -- If every row can be read, `queue_status` succeeds: its total is the number of rows, and every
  -- other number is the number of rows with that status or of that kind, up to the largest `u64`.
  pub queue_status-totals :
      (db : StateDatabase)
      → All (Reads c) db.sync_operations
      → queue_status c db
        ≡ ok (
            totals
              (length db.sync_operations)
              (map row_label db.sync_operations)
              (map row_label db.sync_operations))
  unfolding queue_status list_sync_operations status_tally kind_tally
  queue_status-totals db hs =
      let (operations, is, same, labels) =
        try_map-read (order_operations db.sync_operations)
          (order-All (Reads c) db.sync_operations hs) in
      rw is (
        ap ok (
          count_operations-append (length operations) [] operations
          ∙ rw (same, labels) (totals-order db.sync_operations)))
