-- ===== src/Core/StateDb/Queue/Listed.antt =====
-- What `list_pending_operations` gives to the transfers of a sync.
use syncer.Prelude.{
  ℕ, ◌-◌, ◌≤◌, suc, String, string_eq, nat_eq, ◌≡◌, refl, ap, ◌∙◌, Bool, true, false, List, [], ◌∷◌,
  ok, try_map, ◌==◌, if◌then◌else◌, keep, length, count_if, arith, All, min,
}
use syncer.Prelude.Words.{i64_max}
use text.Mathlib.TextEquality.{eq_iff}
use syncer.Crates.{Crates}
use syncer.Core.StateDb.Records.{SyncOperationKind, pending, SyncOperationRecord}
use syncer.Core.StateDb.Queue.{
  is_wanted, is_pending, same_kind, take, row_to_sync_operation, order_operations,
  list_pending_operations,
}
use syncer.Core.StateDb.Queue.Totals.{Reads, order-All, length-order}
use syncer.Core.StateDb.Tables.{OperationRow, StateDatabase}

abbrev pub Wanted : String → SyncOperationKind → SyncOperationRecord → Type 0
Wanted remote kind o = (o.remote_device_id ≡ remote) × (o.kind ≡ kind) × (o.status ≡ pending)

length-take {ℓ} : {A : Type ℓ} (n : ℕ) (xs : List A) → length (take n xs) ≡ min n (length xs)
unfolding take
length-take n [] = omega arith
length-take n (x ∷ xs) = ground (arith, length-take (n - 1) xs)

take-All {ℓ κ} : {A : Type ℓ} (P : A → Type κ) (n : ℕ) (xs : List A) → All P xs → All P (take n xs)
unfolding take
take-All P n [] h = tt
take-All P n (x ∷ xs) h = elim (n == 0) as (λ b. All P (if b then [] else x ∷ take (n - 1) xs)) [
  | true ↦ tt
  | false ↦ (h.0, take-All P (n - 1) xs h.1)
]

length-keep {ℓ} : {A : Type ℓ} (p : A → Bool) (xs : List A) → length (keep p xs) ≡ count_if p xs
length-keep p [] = refl
length-keep p (x ∷ xs) = ground (arith, length-keep p xs)

keep-All {ℓ κ} :
    {A : Type ℓ} (P : A → Type κ) (p : A → Bool) (xs : List A)
    → All P xs
    → All (λ x. P x × (p x ≡ true)) (keep p xs)
keep-All P p [] h = tt
keep-All P p (x ∷ xs) h = by_test (p x) refl (keep-All P p xs h.1)
  where
    by_test :
        (b : Bool)
        → p x ≡ b
        → All (λ x. P x × (p x ≡ true)) (keep p xs)
        → All (λ x. P x × (p x ≡ true)) (if b then x ∷ keep p xs else keep p xs)
    by_test true is rest = ((h.0, is), rest)
    by_test false is rest = rest

same_kind-eq : (a b : SyncOperationKind) → same_kind a b ≡ true → a ≡ b
unfolding same_kind
same_kind-eq a b h = ground arith

module _ (c : Crates) (remote : String) (kind : SyncOperationKind) where
  Wanted-read :
      (row : OperationRow) (o : SyncOperationRecord)
      → row_to_sync_operation c row ≡ ok o
      → is_wanted remote kind row ≡ true
      → Wanted remote kind o
  unfolding row_to_sync_operation is_wanted is_pending
  Wanted-read row o h w =
      ground (arith, eq_iff row.remote_device_id remote, same_kind-eq row.kind kind)

  try_map-Wanted :
      (rows : List OperationRow)
      → All (λ row. Reads c row × (is_wanted remote kind row ≡ true)) rows
      → (operations : List SyncOperationRecord) × (try_map (row_to_sync_operation c) rows
          ≡ ok operations)
        × (length operations ≡ length rows)
        × All (Wanted remote kind) operations
  unfolding try_map
  try_map-Wanted [] hs = ([], refl, refl, tt)
  try_map-Wanted (row ∷ rows) hs =
      let (o, reads) = hs.0.0 in
      let (operations, is, same, all) = try_map-Wanted rows hs.1 in
      (o ∷ operations, rw (reads, is) refl, ap suc same, (Wanted-read row o reads hs.0.1, all))

  -- If every row can be read and the limit fits an `i64`, `list_pending_operations` succeeds, each
  -- operation that it gives is a pending one of the kind for the remote, and it gives as many as
  -- there are such rows, up to the limit.
  pub list_pending_operations-Wanted :
      (limit : ℕ) (db : StateDatabase)
      → limit ≤ i64_max
      → All (Reads c) db.sync_operations
      → (operations : List SyncOperationRecord) × (list_pending_operations c remote kind limit db
          ≡ ok operations)
        × (length operations ≡ min limit (count_if (is_wanted remote kind) db.sync_operations))
        × All (Wanted remote kind) operations
  unfolding list_pending_operations is_wanted
  list_pending_operations-Wanted limit db le hs =
      let wanted = keep (is_wanted remote kind) db.sync_operations in
      let (operations, is, same, all) = try_map-Wanted (take limit (order_operations wanted)) (
        take-All _ limit _ (
          order-All _ wanted (keep-All (Reads c) (is_wanted remote kind) db.sync_operations hs))) in
      (
        operations,
        ground (arith, is),
        same
            ∙ length-take limit (order_operations wanted)
            ∙ ap (min limit)
                (length-order wanted ∙ length-keep (is_wanted remote kind) db.sync_operations),
        all,
      )
