-- ===== src/Core/Limits.antt =====
-- crates/syncer-core/src/limits.rs: the size limit of a folder and the transfers that fit in it.
pub mod Order
pub mod Fit
pub mod Warning
use syncer.Prelude.{
  ℕ, ◌*◌, ◌/◌, ◌^◌, Bool, not, ◌&&◌, List, [], ◌∷◌, ◌++◌, ok, err, leb, ltb, ◌==◌, nat_eq,
  if◌then◌else◌,
}
use syncer.Prelude.Words.{saturating_add, saturating_sub, saturating_mul}
use syncer.Core.Error.{CoreResult, invalid_folder_limit, invalid_warning_threshold}
use syncer.Core.Manifest.{RelativePath}

abbrev pub default_folder_size_limit_bytes : ℕ
default_folder_size_limit_bytes = 10 * 1024 * 1024 * 1024

pub record FolderSizeLimit : Type 0 where
  pub max_bytes : ℕ
  pub warning_threshold_percent : ℕ

abbrev pub default_limit : FolderSizeLimit
default_limit = record {
  max_bytes = default_folder_size_limit_bytes;
  warning_threshold_percent = 80;
}

unfoldable pub new_limit : ℕ → ℕ → CoreResult FolderSizeLimit
new_limit max_bytes warning_threshold_percent =
    if max_bytes == 0
    then err invalid_folder_limit
    else if not (leb 1 warning_threshold_percent && leb warning_threshold_percent 100)
    then err invalid_warning_threshold
    else ok
        (record { max_bytes = max_bytes; warning_threshold_percent = warning_threshold_percent })

unfoldable pub remaining_bytes : FolderSizeLimit → ℕ → ℕ
remaining_bytes limit used_bytes = saturating_sub limit.max_bytes used_bytes

unfoldable pub is_warning_reached : FolderSizeLimit → ℕ → Bool
is_warning_reached limit used_bytes =
    let threshold = saturating_mul limit.max_bytes limit.warning_threshold_percent / 100 in
    leb threshold used_bytes

pub record PendingTransfer : Type 0 where
  pub operation_id : ℕ
  pub path : RelativePath
  pub size_bytes : ℕ
  pub queued_at : ℕ

pub record FolderLimitPlan : Type 0 where
  pub accepted : List PendingTransfer
  pub skipped : List PendingTransfer
  pub final_used_bytes : ℕ
  pub warning_reached : Bool

-- A stable sort by `queued_at`, as `sort_by_key` is: a transfer goes before those that are
-- queued later or at the same time and stood behind it.
unfoldable pub insert_by_queued_at : PendingTransfer → List PendingTransfer → List PendingTransfer
insert_by_queued_at t [] = t ∷ []
insert_by_queued_at t (u ∷ rest) =
    let later = insert_by_queued_at t rest in
    if leb t.queued_at u.queued_at then t ∷ u ∷ rest else u ∷ later

unfoldable pub sort_by_queued_at : List PendingTransfer → List PendingTransfer
unfolding insert_by_queued_at
sort_by_queued_at [] = []
sort_by_queued_at (t ∷ rest) = insert_by_queued_at t (sort_by_queued_at rest)

pub record Budget : Type 0 where
  pub used : ℕ
  pub accepted : List PendingTransfer
  pub skipped : List PendingTransfer

-- One round of the loop.
unfoldable pub plan_transfer : FolderSizeLimit → Budget → PendingTransfer → Budget
unfolding remaining_bytes
plan_transfer limit b transfer =
    if leb transfer.size_bytes (remaining_bytes limit b.used)
    then record b {
      used = saturating_add b.used transfer.size_bytes;
      accepted = b.accepted ++ transfer ∷ [];
    }
    else record b { skipped = b.skipped ++ transfer ∷ [] }

unfoldable pub plan_loop : FolderSizeLimit → List PendingTransfer → Budget → Budget
plan_loop limit [] b = b
plan_loop limit (transfer ∷ rest) b = plan_loop limit rest (plan_transfer limit b transfer)

unfoldable pub plan_transfers : FolderSizeLimit → ℕ → List PendingTransfer → FolderLimitPlan
unfolding sort_by_queued_at plan_transfer plan_loop is_warning_reached
plan_transfers limit used_bytes pending =
    let b =
      plan_loop limit (sort_by_queued_at pending)
        (record { used = used_bytes; accepted = []; skipped = [] }) in
    record {
      accepted = b.accepted;
      skipped = b.skipped;
      final_used_bytes = b.used;
      warning_reached = is_warning_reached limit b.used;
    }
