-- ===== src/Agent/Commands/Queue/Accounts.antt =====
-- What a run of the queue reports, of crates/syncer-agent/src/main.rs.
use syncer.Prelude.{
  ℕ, ◌≡◌, refl, sym, ap, ◌∙◌, min, String, Option, Bool, true, false, not, List, [], ◌∷◌, ◌++◌, map,
  Result, ok, err, count_if, count_if-append, arith,
}
use std.Path.{subst}
use syncer.Prelude.Words.{u64_max, saturating_add}
use syncer.Core.StateDb.Queue.Update.{mark_sync_operation_started}
use syncer.Core.StateDb.Records.{SyncOperationRecord}
use syncer.Agent.FileSystem.{FileSystem}
use syncer.Agent.Handler.{Device, Handler}
use syncer.Agent.PeerServer.{Moment}
use syncer.Agent.Commands.{TransferError, TransferOperationResult, done, failed, CommandCrates}
use syncer.Agent.Commands.Queue.{
  ExecuteSyncQueueOutput, failed_result, record_outcome, run_operations,
}

abbrev pub is_done : TransferOperationResult → Bool
is_done result = elim result.status [ done ↦ true | failed ↦ false ]

abbrev pub ids_of : List TransferOperationResult → List String
ids_of = map (λ (result : TransferOperationResult). result.operation_id)

abbrev pub operation_ids : List SyncOperationRecord → List String
operation_ids = map (λ (operation : SyncOperationRecord). operation.id)

-- The results are those of the operations `ids` in their order, and the counters, which stop at
-- 2^64 - 1, count the results that are done and those that are not.
pub record Accounts (ids : List String) (out : ExecuteSyncQueueOutput) : Type 0 where
  pub in_order : ids_of out.results ≡ ids
  pub completed_lem : out.completed ≡ min (count_if is_done out.results) u64_max
  pub failed_lem : out.failed ≡ min (count_if (λ r. not (is_done r)) out.results) u64_max

map-append : {A B : Type 0} (f : A → B) (xs ys : List A) → map f (xs ++ ys) ≡ map f xs ++ map f ys
map-append f [] ys = refl
map-append f (x ∷ xs) ys = ap (λ zs. f x ∷ zs) (map-append f xs ys)

append_nil : {A : Type 0} (xs : List A) → xs ++ [] ≡ xs
append_nil [] = refl
append_nil (x ∷ xs) = ap (λ ys. x ∷ ys) (append_nil xs)

append_assoc : {A : Type 0} (xs ys zs : List A) → (xs ++ ys) ++ zs ≡ xs ++ (ys ++ zs)
append_assoc [] ys zs = refl
append_assoc (x ∷ xs) ys zs = ap (λ ws. x ∷ ws) (append_assoc xs ys zs)

count_if-push-yes :
    (p : TransferOperationResult → Bool) (results : List TransferOperationResult)
    (r : TransferOperationResult) (n : ℕ)
    → n ≡ min (count_if p results) u64_max
    → p r ≡ true
    → saturating_add n 1 ≡ min (count_if p (results ++ r ∷ [])) u64_max
count_if-push-yes p results r n same passes = ground (arith, count_if-append p results (r ∷ []))

count_if-push-no :
    (p : TransferOperationResult → Bool) (results : List TransferOperationResult)
    (r : TransferOperationResult) (n : ℕ)
    → n ≡ min (count_if p results) u64_max
    → p r ≡ false
    → n ≡ min (count_if p (results ++ r ∷ [])) u64_max
count_if-push-no p results r n same fails = ground (arith, count_if-append p results (r ∷ []))

abbrev is_not_done : TransferOperationResult → Bool
is_not_done r = not (is_done r)

module _ (c : CommandCrates) (F : FileSystem) (m : Moment) where
  -- An operation that succeeds reports itself as done.
  abbrev pub ReportsItself :
      (SyncOperationRecord → Handler F TransferError TransferOperationResult) → Type 0
  ReportsItself run =
      (operation : SyncOperationRecord) (d d' : Device F) (result : TransferOperationResult)
      → run operation d ≡ (d', ok result)
      → (result.operation_id ≡ operation.id) × (is_done result ≡ true)

  record_outcome-Accounts :
      (ids : List String) (operation : SyncOperationRecord) (size : Option ℕ)
      (out : ExecuteSyncQueueOutput)
      (outcome : Device F × Result TransferError TransferOperationResult)
      → Accounts ids out
      → ((d : Device F) (result : TransferOperationResult)
          → outcome ≡ (d, ok result)
          → (result.operation_id ≡ operation.id) × (is_done result ≡ true))
      → Accounts (ids ++ operation.id ∷ []) (record_outcome c F m operation size out outcome).1
  unfolding record_outcome failed_result
  record_outcome-Accounts ids operation size out (d, ok result) accounts reports =
      let (same_id, is_done_lem) = reports d result refl in
      record {
        in_order =
            map-append (λ (r : TransferOperationResult). r.operation_id) out.results (result ∷ [])
            ∙ ap (λ xs. xs ++ result.operation_id ∷ []) accounts.in_order
            ∙ ap (λ id. ids ++ id ∷ []) same_id;
        completed_lem =
            count_if-push-yes is_done out.results result out.completed accounts.completed_lem
              is_done_lem;
        failed_lem =
            count_if-push-no is_not_done out.results result out.failed accounts.failed_lem
              (ap not is_done_lem);
      }
  record_outcome-Accounts ids operation size out (d, err e) accounts reports = record {
    in_order =
        map-append (λ (r : TransferOperationResult). r.operation_id) out.results
          (failed_result c F m operation size e ∷ [])
        ∙ ap (λ xs. xs ++ operation.id ∷ []) accounts.in_order;
    completed_lem =
        count_if-push-no is_done out.results (failed_result c F m operation size e) out.completed
          accounts.completed_lem refl;
    failed_lem =
        count_if-push-yes is_not_done out.results (failed_result c F m operation size e) out.failed
          accounts.failed_lem refl;
  }

  pub run_operations-Accounts :
      (run : SyncOperationRecord → Handler F TransferError TransferOperationResult)
      (size : SyncOperationRecord → Option ℕ) (operations : List SyncOperationRecord)
      (ids : List String) (out : ExecuteSyncQueueOutput) (d : Device F)
      → ReportsItself run
      → Accounts ids out
      → Accounts
          (ids ++ operation_ids operations)
          (run_operations c F m run size operations out d).1
  unfolding run_operations
  run_operations-Accounts run size [] ids out d reports accounts =
      subst (λ all. Accounts all out) (sym (append_nil ids)) accounts
  run_operations-Accounts run size (operation ∷ operations) ids out d reports accounts =
      let started = record d {
        database = mark_sync_operation_started m.unix_now operation.id d.database;
      } in
      let next = record_outcome c F m operation (size operation) out (run operation started) in
      subst (λ all. Accounts all (run_operations c F m run size operations next.1 next.0).1)
        (append_assoc ids (operation.id ∷ []) (operation_ids operations))
        (run_operations-Accounts run size operations (ids ++ operation.id ∷ []) next.1 next.0
          reports
          (record_outcome-Accounts ids operation (size operation) out (run operation started)
            accounts (λ d' result same. reports operation started d' result same)))
