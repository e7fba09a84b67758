-- ===== src/Core/Planning.antt =====
-- crates/syncer-core/src/planning.rs: what to do about each path that two manifests name.
pub mod Classify
pub mod Decide
pub mod Coverage
pub mod Summary
use syncer.Prelude.{
  ℕ, String, ◌≡◌, Bool, true, false, not, ◌&&◌, Option, none, some, List, [], ◌∷◌, ◌++◌, map, ok,
  err, ◌==◌, nat_eq, option_string_eq, if◌then◌else◌,
}
use mathlib.Core.List.{foldl}
use syncer.Prelude.Words.{saturating_add}
use syncer.Prelude.Texts.{Text}
use syncer.Prelude.BTreeMap
use syncer.Prelude.BTreeMap.{BTreeMap}
use syncer.Crates.{Crates}
use syncer.Core.Manifest.{FileEntry}
use syncer.Core.Model.{FolderMode, bidirectional, upload_only, download_only}
use syncer.Core.StateDb.Records.{FileRecord, FolderManifest, is_missing}

pub data FilePresence : Type 0 where
  present : FileEntry → FilePresence
  missing_known : FilePresence
  unknown : FilePresence

pub data ChangeClassification : Type 0 where
  in_sync : ChangeClassification
  local_only_delete : ChangeClassification
  remote_only_delete : ChangeClassification
  local_needs_download : ChangeClassification
  remote_needs_upload : ChangeClassification
  conflict : ChangeClassification
  unknown : ChangeClassification

-- `match (local_changed, remote_changed)`
unfoldable pub classify_changes : Bool → Bool → ChangeClassification
classify_changes true true = conflict
classify_changes true false = remote_needs_upload
classify_changes false true = local_needs_download
classify_changes false false = in_sync

unfoldable pub classify_against : FileEntry → FileEntry → Option FileEntry → ChangeClassification
unfolding classify_changes
classify_against left right none = conflict
classify_against left right (some base) =
    classify_changes (not (left.content_hash == base.content_hash))
      (not (right.content_hash == base.content_hash))

unfoldable pub classify_file_presence :
    FilePresence → FilePresence → Option FileEntry → ChangeClassification
unfolding classify_against
classify_file_presence (present left) (present right) common_base =
    if (left.content_hash == right.content_hash) && (left.size_bytes == right.size_bytes)
    then in_sync
    else classify_against left right common_base
classify_file_presence missing_known (present right) common_base = local_only_delete
classify_file_presence (present left) missing_known common_base = remote_only_delete
classify_file_presence unknown remote common_base = unknown
classify_file_presence (present left) unknown common_base = unknown
classify_file_presence missing_known unknown common_base = unknown
classify_file_presence missing_known missing_known common_base = in_sync

pub data SyncAction : Type 0 where
  in_sync : SyncAction
  upload_to_remote : SyncAction
  download_from_remote : SyncAction
  conflict : SyncAction
  local_missing_unsynchronized : SyncAction
  remote_missing_unsynchronized : SyncAction
  mode_blocked : SyncAction

pub record SyncPlanEntry : Type 0 where
  pub path : Text
  pub action : SyncAction
  pub local_size_bytes : Option ℕ
  pub remote_size_bytes : Option ℕ
  pub local_content_hash : Option String
  pub remote_content_hash : Option String
  pub reason : String

pub record SyncPlanSummary : Type 0 where
  pub in_sync : ℕ
  pub upload_to_remote : ℕ
  pub download_from_remote : ℕ
  pub conflicts : ℕ
  pub local_missing_unsynchronized : ℕ
  pub remote_missing_unsynchronized : ℕ
  pub mode_blocked : ℕ

abbrev pub empty_summary : SyncPlanSummary
empty_summary = record {
  in_sync = 0;
  upload_to_remote = 0;
  download_from_remote = 0;
  conflicts = 0;
  local_missing_unsynchronized = 0;
  remote_missing_unsynchronized = 0;
  mode_blocked = 0;
}

pub record SyncPlan : Type 0 where
  pub local_device_id : String
  pub remote_device_id : String
  pub entries : List SyncPlanEntry
  pub summary : SyncPlanSummary

abbrev pub entry :
    Text → SyncAction → Option ℕ → Option ℕ → Option String → Option String → String → SyncPlanEntry
entry path action local_size remote_size local_hash remote_hash reason = record {
  path = path;
  action = action;
  local_size_bytes = local_size;
  remote_size_bytes = remote_size;
  local_content_hash = local_hash;
  remote_content_hash = remote_hash;
  reason = reason;
}

unfoldable pub plan_existing_path : Text → FileRecord → FileRecord → SyncPlanEntry
unfolding is_missing
plan_existing_path path here there =
    if is_missing here.sync_state
    then entry path local_missing_unsynchronized (some here.size_bytes) (some there.size_bytes)
        here.content_hash there.content_hash "local side is missing a previously known file"
    else if is_missing there.sync_state
    then entry path remote_missing_unsynchronized (some here.size_bytes) (some there.size_bytes)
        here.content_hash there.content_hash "remote side is missing a previously known file"
    else if (here.content_hash == there.content_hash) && (here.size_bytes == there.size_bytes)
    then entry path SyncAction.in_sync (some here.size_bytes) (some there.size_bytes)
        here.content_hash there.content_hash "content hash and size match"
    else entry path SyncAction.conflict (some here.size_bytes) (some there.size_bytes)
        here.content_hash there.content_hash
        "both sides have different content and no common base version is known"

unfoldable pub plan_path : Text → Option FileRecord → Option FileRecord → SyncPlanEntry
unfolding plan_existing_path is_missing
plan_path path (some here) (some there) = plan_existing_path path here there
plan_path path (some here) none =
    if is_missing here.sync_state
    then entry path local_missing_unsynchronized (some here.size_bytes) none here.content_hash none
        "local side is missing a previously known file"
    else entry path upload_to_remote (some here.size_bytes) none here.content_hash none
        "remote side does not have this file"
plan_path path none (some there) =
    if is_missing there.sync_state
    then entry path remote_missing_unsynchronized none (some there.size_bytes) none
        there.content_hash "remote side is missing a previously known file"
    else entry path download_from_remote none (some there.size_bytes) none there.content_hash
        "local side does not have this file"
plan_path path none none =
    entry path SyncAction.in_sync none none none none "file absent on both sides"

-- The pair of mode and action decides; `none` leaves the entry as it is.
unfoldable pub blocked_reason : FolderMode → SyncAction → Option String
blocked_reason upload_only download_from_remote = some "folder is upload-only"
blocked_reason download_only upload_to_remote = some "folder is download-only"
blocked_reason _ _ = none

unfoldable pub block_entry : SyncPlanEntry → Option String → SyncPlanEntry
block_entry e none = e
block_entry e (some reason) = record e { action = mode_blocked; reason = reason }

unfoldable pub apply_folder_mode : SyncPlanEntry → FolderMode → SyncPlanEntry
unfolding blocked_reason block_entry
apply_folder_mode e mode = block_entry e (blocked_reason mode e.action)

unfoldable pub files_by_path : List FileRecord → BTreeMap FileRecord
unfolding BTreeMap.collect_onto BTreeMap.insert
files_by_path files = BTreeMap.collect_onto (map (λ file. (file.path, file)) files) []

-- The keys of both maps as a `BTreeSet`.
unfoldable pub all_paths : List Text → List Text → List Text
unfolding BTreeMap.collect_onto BTreeMap.insert
all_paths here there = BTreeMap.keys (
    BTreeMap.collect_onto (map (λ path. (path, tt)) (here ++ there))
      (let m : BTreeMap (Unit {0}) = [] in m))

unfoldable pub increment_summary : SyncPlanSummary → SyncAction → SyncPlanSummary
increment_summary s SyncAction.in_sync = record s { in_sync = saturating_add s.in_sync 1 }
increment_summary s upload_to_remote = record s {
  upload_to_remote = saturating_add s.upload_to_remote 1;
}
increment_summary s download_from_remote = record s {
  download_from_remote = saturating_add s.download_from_remote 1;
}
increment_summary s SyncAction.conflict = record s { conflicts = saturating_add s.conflicts 1 }
increment_summary s local_missing_unsynchronized = record s {
  local_missing_unsynchronized = saturating_add s.local_missing_unsynchronized 1;
}
increment_summary s remote_missing_unsynchronized = record s {
  remote_missing_unsynchronized = saturating_add s.remote_missing_unsynchronized 1;
}
increment_summary s mode_blocked = record s { mode_blocked = saturating_add s.mode_blocked 1 }

-- The entry of one round of the loop over the paths.
unfoldable pub plan_entry :
    BTreeMap FileRecord → BTreeMap FileRecord → FolderMode → Text → SyncPlanEntry
unfolding apply_folder_mode plan_path BTreeMap.get
plan_entry here there mode path =
    apply_folder_mode (plan_path path (BTreeMap.get path here) (BTreeMap.get path there)) mode

-- The loop: the summary counts the entry, and the entry goes to the end of the list.
unfoldable pub plan_loop :
    BTreeMap FileRecord → BTreeMap FileRecord → FolderMode → List Text → SyncPlan → SyncPlan
unfolding plan_entry increment_summary
plan_loop here there mode [] plan = plan
plan_loop here there mode (path ∷ paths) plan =
    let e = plan_entry here there mode path in
    plan_loop here there mode paths (record plan {
      entries = plan.entries ++ e ∷ [];
      summary = increment_summary plan.summary e.action;
    })

module _ (c : Crates) where
  abbrev pub new_plan : FolderManifest → FolderManifest → SyncPlan
  new_plan here there = record {
    local_device_id = c.uuid_to_string here.device_id;
    remote_device_id = c.uuid_to_string there.device_id;
    entries = [];
    summary = empty_summary;
  }

  unfoldable pub plan_manifest_sync_for_mode :
      FolderManifest → FolderManifest → FolderMode → SyncPlan
  unfolding files_by_path all_paths plan_loop
  plan_manifest_sync_for_mode here there mode =
      let local_by_path = files_by_path here.files in
      let remote_by_path = files_by_path there.files in
      plan_loop local_by_path remote_by_path mode
        (all_paths (BTreeMap.keys local_by_path) (BTreeMap.keys remote_by_path))
        (new_plan here there)

  unfoldable pub plan_manifest_sync : FolderManifest → FolderManifest → SyncPlan
  unfolding plan_manifest_sync_for_mode
  plan_manifest_sync here there = plan_manifest_sync_for_mode here there bidirectional
