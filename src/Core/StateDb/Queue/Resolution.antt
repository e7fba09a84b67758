-- ===== src/Core/StateDb/Queue/Resolution.antt =====
-- What `resolve_blocked_sync_operation` and the other updates of one operation do to the queue.
use syncer.Prelude.{
  ℕ, ◌+◌, String, string_eq, ◌≡◌, ◌↔◌, refl, sym, ap, ◌∙◌, Bool, not, Option, none, some, List, [],
  ◌∷◌, map, ok, err, guard, ◌>>◌, >>=-eq-ok, ◌==◌, if◌then◌else◌, keep, count_if, arith, ok_or,
}
use syncer.Crates.{Crates}
use syncer.Core.Error.{CoreResult, state_database}
use syncer.Core.StateDb.Records.{
  SyncOperationKind, resolve_conflict, repair_local_missing, repair_remote_missing, blocked,
  SyncOperationRecord, BlockedOperationResolution,
}
use syncer.Core.StateDb.Queue.{is_pending, is_blocked, row_to_sync_operation}
use syncer.Core.StateDb.Queue.Update.{
  update_where_id, is_failed, is_retried, retry_row, retry_failed_sync_operations,
}
use syncer.Core.StateDb.Queue.Resolve.{
  resolve_row, find_row, target_kind, get_sync_operation, resolve_target, resolve_to,
  resolve_blocked_sync_operation,
}
use syncer.Core.StateDb.Tables.{OperationRow, StateDatabase}

-- The rows of the other operations.
abbrev pub is_other : String → OperationRow → Bool
is_other id row = not (row.id == id)

keep-update :
    (id : String) (set : OperationRow → OperationRow) (rows : List OperationRow)
    → ((row : OperationRow) → (set row).id ≡ row.id)
    → keep (is_other id) (map (λ row. if row.id == id then set row else row) rows)
      ≡ keep (is_other id) rows
keep-update id set [] h = refl
keep-update id set (row ∷ rows) h = ground (arith, h row, keep-update id set rows h)

find_row-update :
    (id : String) (set : OperationRow → OperationRow) (rows : List OperationRow)
    → ((row : OperationRow) → (set row).id ≡ row.id)
    → find_row id (map (λ row. if row.id == id then set row else row) rows)
      ≡ elim (find_row id rows) [ none ↦ none | some row ↦ some (set row) ]
unfolding find_row
find_row-update id set [] h = refl
find_row-update id set (row ∷ rows) h = ground (arith, h row, find_row-update id set rows h)

count_if-retry :
    (now : ℕ) (remote : Option String) (rows : List OperationRow)
    → (count_if (is_retried remote) (map (retry_row now remote) rows) ≡ 0)
      × (count_if (λ row. is_pending row.status) (map (retry_row now remote) rows)
          ≡ count_if (λ row. is_pending row.status) rows + count_if (is_retried remote) rows)
unfolding retry_row is_retried is_failed is_pending
count_if-retry now remote [] = (refl, refl)
count_if-retry now remote (row ∷ rows) =
    (ground (arith, count_if-retry now remote rows), ground (arith, count_if-retry now remote rows))

operation-read :
    (c : Crates) (row : OperationRow) (o : SyncOperationRecord)
    → row_to_sync_operation c row ≡ ok o
    → (o.status ≡ row.status) × (o.kind ≡ row.kind)
unfolding row_to_sync_operation
operation-read c row o h = ground arith

ok_or-eq {ℓ} :
    {E : Type 0} {A : Type ℓ} (e : E) (o : Option A) {a : A} → ok_or e o ≡ ok a → o ≡ some a
ok_or-eq e none h = absurd (ground arith)
ok_or-eq e (some b) h = ground arith

-- The resolutions that the code accepts: from a blocked kind, by a choice, to a transfer.
pub data Resolves
    : SyncOperationKind → BlockedOperationResolution → SyncOperationKind → Type 0 where
  conflict_by_download :
      Resolves resolve_conflict BlockedOperationResolution.download_from_remote
        SyncOperationKind.download_from_remote
  local_missing_by_download :
      Resolves repair_local_missing BlockedOperationResolution.download_from_remote
        SyncOperationKind.download_from_remote
  conflict_by_upload :
      Resolves resolve_conflict BlockedOperationResolution.upload_to_remote
        SyncOperationKind.upload_to_remote
  remote_missing_by_upload :
      Resolves repair_remote_missing BlockedOperationResolution.upload_to_remote
        SyncOperationKind.upload_to_remote

target_kind_complete :
    (kind : SyncOperationKind) (resolution : BlockedOperationResolution)
    (target : SyncOperationKind)
    → Resolves kind resolution target
    → target_kind kind resolution ≡ ok target
unfolding target_kind
target_kind_complete _ _ _ conflict_by_download = refl
target_kind_complete _ _ _ local_missing_by_download = refl
target_kind_complete _ _ _ conflict_by_upload = refl
target_kind_complete _ _ _ remote_missing_by_upload = refl

target_kind_sound :
    (kind : SyncOperationKind) (resolution : BlockedOperationResolution)
    (target : SyncOperationKind)
    → target_kind kind resolution ≡ ok target
    → Resolves kind resolution target
unfolding target_kind
target_kind_sound resolve_conflict BlockedOperationResolution.download_from_remote
      SyncOperationKind.download_from_remote h =
    conflict_by_download
target_kind_sound repair_local_missing BlockedOperationResolution.download_from_remote
      SyncOperationKind.download_from_remote h =
    local_missing_by_download
target_kind_sound resolve_conflict BlockedOperationResolution.upload_to_remote
      SyncOperationKind.upload_to_remote h =
    conflict_by_upload
target_kind_sound repair_remote_missing BlockedOperationResolution.upload_to_remote
      SyncOperationKind.upload_to_remote h =
    remote_missing_by_upload
target_kind_sound kind resolution target h = absurd (ground arith)

checks-pass :
    (o : SyncOperationRecord) (resolution : BlockedOperationResolution) (target : SyncOperationKind)
    → (guard (is_blocked o.status) (state_database "only blocked operations can be resolved")
        >> target_kind o.kind resolution)
      ≡ ok target
    → (o.status ≡ blocked) × (target_kind o.kind resolution ≡ ok target)
unfolding is_blocked
checks-pass o resolution target h = (ground arith, ground arith)

module _ (c : Crates) (now : ℕ) (id : String) (resolution : BlockedOperationResolution)
    (db : StateDatabase) where
  resolve_target_complete :
      (target : SyncOperationKind) (row : OperationRow) (o : SyncOperationRecord)
      → find_row id db.sync_operations ≡ some row
      → row_to_sync_operation c row ≡ ok o
      → row.status ≡ blocked
      → Resolves row.kind resolution target
      → resolve_target c id resolution db ≡ ok target
  unfolding resolve_target get_sync_operation is_blocked
  resolve_target_complete target row o found reads is v =
      rw (found, reads)
        (ground
          (arith, operation-read c row o reads, target_kind_complete row.kind resolution target v))

  resolve_target_sound :
      (target : SyncOperationKind)
      → resolve_target c id resolution db ≡ ok target
      → (row : OperationRow) × (o : SyncOperationRecord) × (find_row id db.sync_operations
          ≡ some row)
        × (row_to_sync_operation c row ≡ ok o)
        × (row.status ≡ blocked)
        × Resolves row.kind resolution target
  unfolding resolve_target get_sync_operation is_blocked
  resolve_target_sound target h =
      let (o, got, checked) = >>=-eq-ok (get_sync_operation c id db) _ h in
      let (row, found, reads) = >>=-eq-ok (ok_or _ (find_row id db.sync_operations)) _ got in
      let (status, kind) = operation-read c row o reads in
      let (is, target_is) = checks-pass o resolution target checked in
      (
        row,
        o,
        ok_or-eq _ _ found,
        reads,
        sym status ∙ is,
        target_kind_sound row.kind resolution target
            (ap (λ k. target_kind k resolution) (sym kind) ∙ target_is),
      )

-- A row with the id can be read, is blocked, and the choice turns its kind into the target.
abbrev pub Resolvable :
    Crates → String → BlockedOperationResolution → StateDatabase → SyncOperationKind → Type 0
Resolvable c id resolution db target =
    (row : OperationRow) × (o : SyncOperationRecord) × (find_row id db.sync_operations ≡ some row)
    × (row_to_sync_operation c row ≡ ok o)
    × (row.status ≡ blocked)
    × Resolves row.kind resolution target

-- The checks of `resolve_blocked_sync_operation` pass with a target kind exactly if the operation is
-- found, can be read, is blocked, and the choice is one of the four that fit its kind.
pub resolve_target_iff :
    (c : Crates) (id : String) (resolution : BlockedOperationResolution) (db : StateDatabase)
    (target : SyncOperationKind)
    → (resolve_target c id resolution db ≡ ok target) ↔ Resolvable c id resolution db target
resolve_target_iff c id resolution db target = (
  resolve_target_sound c 0 id resolution db target,
  λ (row, o, found, reads, is, v).
      resolve_target_complete c 0 id resolution db target row o found reads is v,
)

module _ (c : Crates) (now : ℕ) (id : String) (resolution : BlockedOperationResolution) where
  resolve_to-others :
      (db : StateDatabase) (target : CoreResult SyncOperationKind)
      → keep (is_other id) (resolve_to c now id resolution db target).0.sync_operations
        ≡ keep (is_other id) db.sync_operations
  unfolding resolve_to update_where_id resolve_row
  resolve_to-others db (err e) = refl
  resolve_to-others db (ok kind) =
      keep-update id (resolve_row now kind resolution) db.sync_operations (λ row. refl)

  -- Whether it succeeds or fails, `resolve_blocked_sync_operation` leaves every other operation as
  -- it was and in its place.
  pub resolve_blocked-others :
      (db : StateDatabase)
      → keep (is_other id) (resolve_blocked_sync_operation c now id resolution db).0.sync_operations
        ≡ keep (is_other id) db.sync_operations
  unfolding resolve_blocked_sync_operation
  resolve_blocked-others db = resolve_to-others db (resolve_target c id resolution db)

  -- If the checks pass, the row of the operation is then pending, with the target kind, the reason of
  -- the choice and no error or times, and as it was for the rest.
  pub resolve_blocked-pending :
      (db : StateDatabase) (target : SyncOperationKind)
      → (r : Resolvable c id resolution db target)
      → find_row id (resolve_blocked_sync_operation c now id resolution db).0.sync_operations
        ≡ some (resolve_row now target resolution r.0)
  unfolding resolve_blocked_sync_operation resolve_to update_where_id resolve_row
  resolve_blocked-pending db target r = rw ((resolve_target_iff c id resolution db target).1 r) (
      find_row-update id (resolve_row now target resolution) db.sync_operations (λ row. refl)
      ∙ rw r.2 refl)

-- After `retry_failed_sync_operations` no failed transfer of the remotes that it covers is left, and
-- the number of pending operations has grown by the number of those that there were.
pub retry_failed-pending :
    (c : Crates) (now : ℕ) (remote : Option String) (db : StateDatabase)
    → (count_if (is_retried remote) (retry_failed_sync_operations c now remote db).0.sync_operations
        ≡ 0)
      × (count_if
            (λ row. is_pending row.status)
            (retry_failed_sync_operations c now remote db).0.sync_operations
          ≡ count_if (λ row. is_pending row.status) db.sync_operations
            + count_if (is_retried remote) db.sync_operations)
unfolding retry_failed_sync_operations
retry_failed-pending c now remote db = count_if-retry now remote db.sync_operations
