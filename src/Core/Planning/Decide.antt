-- ===== src/Core/Planning/Decide.antt =====
-- What the plan decides about one path, from the two sides' records of it.
use syncer.Prelude.{
  ◌≡◌, ◌≢◌, ◌↔◌, ◌⊎◌, refl, true, false, Option, none, some, arith, inl, inr, Bool-cases, nat_eq,
  option_string_eq, option_string_beq_iff,
}
use syncer.Prelude.Texts.{Text}
use syncer.Prelude.BTreeMap
use syncer.Prelude.BTreeMap.{BTreeMap}
use syncer.Core.Model.{FolderMode, bidirectional, upload_only, download_only}
use syncer.Core.StateDb.Records.{FileRecord, is_missing}
use syncer.Core.Planning.{
  SyncAction, upload_to_remote, download_from_remote, local_missing_unsynchronized,
  remote_missing_unsynchronized, mode_blocked, plan_path, apply_folder_mode, plan_entry,
}

-- A file that its side has, so that it can be sent.
abbrev pub IsAvailable : Option FileRecord → Type 0
IsAvailable o = (f : FileRecord) × (o ≡ some f) × (is_missing f.sync_state ≡ false)

abbrev action_of : Text → Option FileRecord → Option FileRecord → FolderMode → SyncAction
action_of path a b mode = (apply_folder_mode (plan_path path a b) mode).action

upload_iff :
    (path : Text) (a b : Option FileRecord) (mode : FolderMode)
    → (action_of path a b mode ≡ upload_to_remote)
      ↔ (IsAvailable a × (b ≡ none) × (mode ≢ download_only))
unfolding apply_folder_mode plan_path
upload_iff path none none mode = ground arith
upload_iff path none (some g) mode = ground arith
upload_iff path (some f) none mode =
    (λ h. ((f, refl, ground arith), refl, ground arith), λ h. ground arith)
upload_iff path (some f) (some g) mode = ground arith

download_iff :
    (path : Text) (a b : Option FileRecord) (mode : FolderMode)
    → (action_of path a b mode ≡ download_from_remote)
      ↔ (IsAvailable b × (a ≡ none) × (mode ≢ upload_only))
unfolding apply_folder_mode plan_path
download_iff path none none mode = ground arith
download_iff path none (some g) mode =
    (λ h. ((g, refl, ground arith), refl, ground arith), λ h. ground arith)
download_iff path (some f) none mode = ground arith
download_iff path (some f) (some g) mode = ground arith

-- Two available files that differ in hash or size.
abbrev pub Differ : Option FileRecord → Option FileRecord → Type 0
Differ a b =
    (f : FileRecord) × (g : FileRecord) × (a ≡ some f)
    × (b ≡ some g)
    × (is_missing f.sync_state ≡ false)
    × (is_missing g.sync_state ≡ false)
    × ((f.content_hash ≢ g.content_hash) ⊎ (f.size_bytes ≢ g.size_bytes))

conflict_iff :
    (path : Text) (a b : Option FileRecord) (mode : FolderMode)
    → (action_of path a b mode ≡ SyncAction.conflict) ↔ Differ a b
unfolding apply_folder_mode plan_path
conflict_iff path none none mode = ground arith
conflict_iff path none (some g) mode = ground arith
conflict_iff path (some f) none mode = ground arith
conflict_iff path (some f) (some g) mode = (
  λ h. (
    f,
    g,
    refl,
    refl,
    ground arith,
    ground arith,
    ground (arith, option_string_beq_iff f.content_hash g.content_hash),
  ),
  λ h. ground (arith, option_string_beq_iff f.content_hash g.content_hash),
)

module _ (here there : BTreeMap FileRecord) (mode : FolderMode) (path : Text) where
  -- The plan uploads a path exactly if the local side has it, the remote side does not list it at
  -- all, and the folder is not download-only: an upload never replaces anything.
  pub plan_entry-upload_iff : ((plan_entry here there mode path).action ≡ upload_to_remote) ↔ (
      IsAvailable (BTreeMap.get path here)
      × (BTreeMap.get path there ≡ none)
      × (mode ≢ download_only))
  unfolding plan_entry
  plan_entry-upload_iff = upload_iff path (BTreeMap.get path here) (BTreeMap.get path there) mode

  -- The plan downloads a path exactly if the remote side has it, the local side does not list it
  -- at all, and the folder is not upload-only.
  pub plan_entry-download_iff :
      ((plan_entry here there mode path).action ≡ download_from_remote) ↔ (
        IsAvailable (BTreeMap.get path there)
        × (BTreeMap.get path here ≡ none)
        × (mode ≢ upload_only))
  unfolding plan_entry
  plan_entry-download_iff =
      download_iff path (BTreeMap.get path here) (BTreeMap.get path there) mode

  -- The plan reports a conflict exactly for two available files that differ in hash or size.
  pub plan_entry-conflict_iff :
      ((plan_entry here there mode path).action ≡ SyncAction.conflict)
      ↔ Differ (BTreeMap.get path here) (BTreeMap.get path there)
  unfolding plan_entry
  plan_entry-conflict_iff =
      conflict_iff path (BTreeMap.get path here) (BTreeMap.get path there) mode

-- The action that the other device sees.
abbrev pub mirror : SyncAction → SyncAction
mirror SyncAction.in_sync = SyncAction.in_sync
mirror upload_to_remote = download_from_remote
mirror download_from_remote = upload_to_remote
mirror SyncAction.conflict = SyncAction.conflict
mirror local_missing_unsynchronized = remote_missing_unsynchronized
mirror remote_missing_unsynchronized = local_missing_unsynchronized
mirror mode_blocked = mode_blocked

abbrev pub mirror_mode : FolderMode → FolderMode
mirror_mode bidirectional = bidirectional
mirror_mode upload_only = download_only
mirror_mode download_only = upload_only

abbrev pub BothMissing : Option FileRecord → Option FileRecord → Type 0
BothMissing a b =
    (f : FileRecord) × (g : FileRecord) × (a ≡ some f)
    × (b ≡ some g)
    × (is_missing f.sync_state ≡ true)
    × (is_missing g.sync_state ≡ true)

one_there :
    (f g : FileRecord)
    → ¬ BothMissing (some f) (some g)
    → (is_missing f.sync_state ≡ false) ⊎ (is_missing g.sync_state ≡ false)
one_there f g h = elim (Bool-cases (is_missing f.sync_state)) [
  | inl m ↦ elim (Bool-cases (is_missing g.sync_state)) [
    | inl n ↦ absurd (h (f, g, refl, refl, m, n))
    | inr n ↦ inr n
  ]
  | inr m ↦ inl m
]

mirror_of :
    (path : Text) (a b : Option FileRecord) (mode : FolderMode)
    → ¬ BothMissing a b
    → action_of path b a (mirror_mode mode) ≡ mirror (action_of path a b mode)
unfolding apply_folder_mode plan_path
mirror_of path none none mode h = ground arith
mirror_of path none (some g) mode h = ground arith
mirror_of path (some f) none mode h = ground arith
mirror_of path (some f) (some g) mode h = ground (
  arith,
  one_there f g h,
  option_string_beq_iff f.content_hash g.content_hash,
  option_string_beq_iff g.content_hash f.content_hash,
)

-- Unless both sides are missing the file, the other device plans the mirrored action, if its
-- folder has the mirrored mode.
pub plan_entry-mirror :
    (here there : BTreeMap FileRecord) (mode : FolderMode) (path : Text)
    → ¬ BothMissing (BTreeMap.get path here) (BTreeMap.get path there)
    → (plan_entry there here (mirror_mode mode) path).action
      ≡ mirror (plan_entry here there mode path).action
unfolding plan_entry
plan_entry-mirror here there mode path h =
    mirror_of path (BTreeMap.get path here) (BTreeMap.get path there) mode h
