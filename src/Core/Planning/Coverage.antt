-- ===== src/Core/Planning/Coverage.antt =====
-- The plan as a whole (crates/syncer-core/src/planning.rs): its entries, their paths, its summary.
use syncer.Prelude.{
  ◌≡◌, refl, sym, ap, ◌∙◌, Bool, true, false, ◌||◌, Option, none, some, List, [], ◌∷◌, ◌++◌, map,
  arith, ◌==◌, if◌then◌else◌,
}
use mathlib.Core.List.{append_assoc, append-nil}
use mathlib.Core.Path.{ap₂}
use syncer.Prelude.Texts.{Text, text_eq, text_eq_iff}
use syncer.Prelude.BTreeMap
use syncer.Prelude.BTreeMap.{BTreeMap}
use syncer.Prelude.BTreeMap.Laws.{IsAscending, get-insert, collect_onto-IsAscending}
use syncer.Crates.{Crates}
use syncer.Core.Model.{FolderMode}
use syncer.Core.StateDb.Records.{FileRecord, FolderManifest}
use syncer.Core.Planning.{
  SyncPlanEntry, SyncPlan, files_by_path, all_paths, plan_entry, plan_loop,
  plan_manifest_sync_for_mode, new_plan, plan_path, apply_folder_mode,
}

plan_loop-entries :
    (here there : BTreeMap FileRecord) (mode : FolderMode) (paths : List Text) (plan : SyncPlan)
    → (plan_loop here there mode paths plan).entries
      ≡ plan.entries ++ map (plan_entry here there mode) paths
unfolding plan_loop
plan_loop-entries here there mode [] plan = sym (append-nil plan.entries)
plan_loop-entries here there mode (path ∷ paths) plan =
    plan_loop-entries here there mode paths _ ∙ append_assoc plan.entries _ _

-- The record that counts for a path: the last one of the manifest.
abbrev pub last_with : Text → List FileRecord → Option FileRecord
last_with path [] = none
last_with path (f ∷ files) = elim (last_with path files) [
  | some g ↦ some g
  | none ↦ if path == f.path then some f else none
]

abbrev or_before : Option FileRecord → Option FileRecord → Option FileRecord
or_before (some g) old = some g
or_before none old = old

get-collect :
    (path : Text) (files : List FileRecord) (m : BTreeMap FileRecord)
    → BTreeMap.get path (BTreeMap.collect_onto (map (λ file. (file.path, file)) files) m)
      ≡ or_before (last_with path files) (BTreeMap.get path m)
unfolding BTreeMap.collect_onto
get-collect path [] m = refl
get-collect path (f ∷ files) m =
    get-collect path files (BTreeMap.insert f.path f m) ∙ ground (arith, get-insert f.path path f m)

pub get-files_by_path :
    (path : Text) (files : List FileRecord)
    → BTreeMap.get path (files_by_path files) ≡ last_with path files
unfolding files_by_path BTreeMap.get
get-files_by_path path files = get-collect path files [] ∙ ground arith

abbrev contains : Text → List Text → Bool
contains p [] = false
contains p (q ∷ paths) = let rest = contains p paths in if p == q then true else rest

abbrev is_known : Option FileRecord → Bool
is_known none = false
is_known (some f) = true

contains-keys :
    (p : Text) (m : BTreeMap FileRecord)
    → contains p (BTreeMap.keys m) ≡ is_known (BTreeMap.get p m)
unfolding BTreeMap.get
contains-keys p [] = refl
contains-keys p ((k, f) ∷ m) = ground (arith, contains-keys p m)

contains-insert :
    (p k : Text) (m : BTreeMap (Unit {0}))
    → contains p (BTreeMap.keys (BTreeMap.insert k tt m))
      ≡ (if p == k then true else contains p (BTreeMap.keys m))
unfolding BTreeMap.insert
contains-insert p k [] = refl
contains-insert p k ((j, w) ∷ m) =
    ground (arith, text_eq_iff k j, text_eq_iff p j, text_eq_iff p k, contains-insert p k m)

contains-collect :
    (p : Text) (paths : List Text) (m : BTreeMap (Unit {0}))
    → contains p (BTreeMap.keys (BTreeMap.collect_onto (map (λ path. (path, tt)) paths) m))
      ≡ contains p paths || contains p (BTreeMap.keys m)
unfolding BTreeMap.collect_onto
contains-collect p [] m = refl
contains-collect p (k ∷ paths) m =
    contains-collect p paths (BTreeMap.insert k tt m) ∙ ground (arith, contains-insert p k m)

contains-append : (p : Text) (a b : List Text) → contains p (a ++ b) ≡ contains p a || contains p b
contains-append p [] b = refl
contains-append p (k ∷ a) b = ground (arith, contains-append p a b)

contains-all_paths :
    (p : Text) (a b : List Text) → contains p (all_paths a b) ≡ contains p a || contains p b
unfolding all_paths
contains-all_paths p a b = contains-collect p (a ++ b) [] ∙ ground (arith, contains-append p a b)

-- The first entry for the path.
abbrev pub find_entry : Text → List SyncPlanEntry → Option SyncPlanEntry
find_entry p [] = none
find_entry p (e ∷ entries) = let rest = find_entry p entries in if p == e.path then some e else rest

path-plan_entry :
    (here there : BTreeMap FileRecord) (mode : FolderMode) (p : Text)
    → (plan_entry here there mode p).path ≡ p
unfolding plan_entry
path-plan_entry here there mode p = ground arith

find_entry-map :
    (here there : BTreeMap FileRecord) (mode : FolderMode) (p : Text) (paths : List Text)
    → find_entry p (map (plan_entry here there mode) paths)
      ≡ (if contains p paths then some (plan_entry here there mode p) else none)
find_entry-map here there mode p [] = refl
find_entry-map here there mode p (q ∷ paths) = ground (
  arith,
  find_entry-map here there mode p paths,
  path-plan_entry here there mode q,
  text_eq_iff p q,
)

-- The entry for a path from the records that the two sides have of it.
abbrev pub planned :
    Text → FolderMode → Option FileRecord → Option FileRecord → Option SyncPlanEntry
planned path mode none none = none
planned path mode (some f) b = some (apply_folder_mode (plan_path path (some f) b) mode)
planned path mode none (some g) = some (apply_folder_mode (plan_path path none (some g)) mode)

planned-eq :
    (path : Text) (mode : FolderMode) (a b : Option FileRecord)
    → (if is_known a || is_known b
        then some (apply_folder_mode (plan_path path a b) mode)
        else none)
      ≡ planned path mode a b
planned-eq path mode none none = refl
planned-eq path mode none (some g) = refl
planned-eq path mode (some f) b = refl

map-path_plan_entry :
    (here there : BTreeMap FileRecord) (mode : FolderMode) (paths : List Text)
    → map (λ e. e.path) (map (plan_entry here there mode) paths) ≡ paths
map-path_plan_entry here there mode [] = refl
map-path_plan_entry here there mode (p ∷ paths) =
    ground (arith, path-plan_entry here there mode p, map-path_plan_entry here there mode paths)

all_paths-IsAscending : (a b : List Text) → IsAscending (all_paths a b)
unfolding all_paths
all_paths-IsAscending a b = collect_onto-IsAscending (map (λ path. (path, tt)) (a ++ b)) [] tt

planned_of_known :
    (path : Text) (mode : FolderMode) (a b : BTreeMap FileRecord)
    → (if contains path (all_paths (BTreeMap.keys a) (BTreeMap.keys b))
        then some (plan_entry a b mode path)
        else none)
      ≡ planned path mode (BTreeMap.get path a) (BTreeMap.get path b)
unfolding plan_entry
planned_of_known path mode a b =
    rw (contains-all_paths, contains-keys, contains-keys)
      (planned-eq path mode (BTreeMap.get path a) (BTreeMap.get path b))

module _ (c : Crates) (here there : FolderManifest) (mode : FolderMode) where
  pub entries-plan :
      (plan_manifest_sync_for_mode c here there mode).entries
      ≡ map (plan_entry (files_by_path here.files) (files_by_path there.files) mode) (
          all_paths
            (BTreeMap.keys (files_by_path here.files))
            (BTreeMap.keys (files_by_path there.files)))
  unfolding plan_manifest_sync_for_mode
  entries-plan =
      plan_loop-entries (files_by_path here.files) (files_by_path there.files) mode
        (all_paths (BTreeMap.keys (files_by_path here.files))
          (BTreeMap.keys (files_by_path there.files)))
        (new_plan c here there)

  -- The plan has an entry for exactly the paths that a manifest lists, and it is the one that the
  -- last records of the path on the two sides and the mode of the folder decide.
  pub find_entry-plan :
      (path : Text)
      → find_entry path (plan_manifest_sync_for_mode c here there mode).entries
        ≡ planned path mode (last_with path here.files) (last_with path there.files)
  find_entry-plan path =
      ap (find_entry path) entries-plan
      ∙ find_entry-map (files_by_path here.files) (files_by_path there.files) mode path _
      ∙ planned_of_known path mode (files_by_path here.files) (files_by_path there.files)
      ∙ ap₂ (planned path mode) (get-files_by_path path here.files)
          (get-files_by_path path there.files)

  -- The paths of the entries grow strictly, so none is planned twice.
  pub plan-IsAscending :
      IsAscending (map (λ e. e.path) (plan_manifest_sync_for_mode c here there mode).entries)
  plan-IsAscending = rw (entries-plan, map-path_plan_entry) (all_paths-IsAscending _ _)
