-- ===== src/Core/Planning/Summary.antt =====
-- The summary of a plan, beside its entries.
use syncer.Prelude.{
  ℕ, ◌≡◌, refl, List, [], ◌∷◌, ◌++◌, arith, ◌==◌, nat_eq, if◌then◌else◌, count_if, count_if-append,
  min,
}
use syncer.Prelude.Words.{u64_max, saturating_add}
use syncer.Prelude.Texts.{Text}
use syncer.Prelude.BTreeMap
use syncer.Prelude.BTreeMap.{BTreeMap}
use syncer.Crates.{Crates}
use syncer.Core.Model.{FolderMode}
use syncer.Core.StateDb.Records.{FileRecord, FolderManifest}
use syncer.Core.Planning.{
  SyncAction, upload_to_remote, download_from_remote, local_missing_unsynchronized,
  remote_missing_unsynchronized, mode_blocked, SyncPlanEntry, SyncPlanSummary, SyncPlan,
  files_by_path, all_paths, increment_summary, plan_entry, plan_loop, plan_manifest_sync_for_mode,
  new_plan,
}

tag : SyncAction → ℕ
tag SyncAction.in_sync = 0
tag upload_to_remote = 1
tag download_from_remote = 2
tag SyncAction.conflict = 3
tag local_missing_unsynchronized = 4
tag remote_missing_unsynchronized = 5
tag mode_blocked = 6

-- How many entries have the action, in a saturating `u64`.
pub tally : SyncAction → List SyncPlanEntry → ℕ
unfolding tag
tally a entries = min (count_if (λ e. tag e.action == tag a) entries) u64_max

abbrev pub summary_of : List SyncPlanEntry → SyncPlanSummary
summary_of entries = record {
  in_sync = tally SyncAction.in_sync entries;
  upload_to_remote = tally upload_to_remote entries;
  download_from_remote = tally download_from_remote entries;
  conflicts = tally SyncAction.conflict entries;
  local_missing_unsynchronized = tally local_missing_unsynchronized entries;
  remote_missing_unsynchronized = tally remote_missing_unsynchronized entries;
  mode_blocked = tally mode_blocked entries;
}

tally-append :
    (a : SyncAction) (entries : List SyncPlanEntry) (e : SyncPlanEntry)
    → tally a (entries ++ e ∷ [])
      ≡ (if tag e.action == tag a then saturating_add (tally a entries) 1 else tally a entries)
unfolding tally
tally-append a entries e =
    ground (arith, count_if-append (λ e. tag e.action == tag a) entries (e ∷ []))

increment_summary-append :
    (entries : List SyncPlanEntry) (e : SyncPlanEntry) (a : SyncAction)
    → e.action ≡ a
    → increment_summary (summary_of entries) a ≡ summary_of (entries ++ e ∷ [])
unfolding increment_summary tag
increment_summary-append entries e SyncAction.in_sync h = ground (
  arith,
  tally-append SyncAction.in_sync entries e,
  tally-append upload_to_remote entries e,
  tally-append download_from_remote entries e,
  tally-append SyncAction.conflict entries e,
  tally-append local_missing_unsynchronized entries e,
  tally-append remote_missing_unsynchronized entries e,
  tally-append mode_blocked entries e,
)
increment_summary-append entries e a h = ground (
  arith,
  tally-append SyncAction.in_sync entries e,
  tally-append upload_to_remote entries e,
  tally-append download_from_remote entries e,
  tally-append SyncAction.conflict entries e,
  tally-append local_missing_unsynchronized entries e,
  tally-append remote_missing_unsynchronized entries e,
  tally-append mode_blocked entries e,
)

plan_loop-summary :
    (here there : BTreeMap FileRecord) (mode : FolderMode) (paths : List Text) (plan : SyncPlan)
    → plan.summary ≡ summary_of plan.entries
    → (plan_loop here there mode paths plan).summary
      ≡ summary_of (plan_loop here there mode paths plan).entries
unfolding plan_loop
plan_loop-summary here there mode [] plan h = h
plan_loop-summary here there mode (path ∷ paths) plan h =
    plan_loop-summary here there mode paths _ (step (plan_entry here there mode path))
  where
    step :
        (e : SyncPlanEntry)
        → increment_summary plan.summary e.action ≡ summary_of (plan.entries ++ e ∷ [])
    step e = rw h (increment_summary-append plan.entries e e.action refl)

module _ (c : Crates) (here there : FolderManifest) (mode : FolderMode) where
  -- Each of the seven numbers of the summary is the number of entries with that action, up to the
  -- largest `u64`.
  pub summary-plan :
      (plan_manifest_sync_for_mode c here there mode).summary
      ≡ summary_of (plan_manifest_sync_for_mode c here there mode).entries
  unfolding plan_manifest_sync_for_mode tally
  summary-plan =
      plan_loop-summary (files_by_path here.files) (files_by_path there.files) mode
        (all_paths (BTreeMap.keys (files_by_path here.files))
          (BTreeMap.keys (files_by_path there.files)))
        (new_plan c here there) refl
