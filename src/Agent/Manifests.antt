-- ===== src/Agent/Manifests.antt =====
-- What crates/syncer-agent looks up in manifests and lists of file records.
pub mod Laws
use syncer.Prelude.{
  ℕ, String, Bool, true, false, Option, none, some, List, [], ◌∷◌, ◌==◌, if◌then◌else◌, codes,
}
use syncer.Prelude.Paths.{same_path}
use syncer.Prelude.Texts.{Text, text_eq}
use syncer.Core.Manifest.{RelativePath, FileKind, file, directory}
use syncer.Core.StateDb.Records.{
  FileRecord, FileSyncState, local_available, unsynchronized_local_missing, pending_upload,
  pending_download, skipped_folder_limit,
}

-- `iter().find(|file| file.path == path)`
unfoldable pub find_record : RelativePath → List FileRecord → Option FileRecord
unfolding same_path
find_record path [] = none
find_record path (found ∷ records) =
    let rest = find_record path records in if same_path found.path path then some found else rest

unfoldable pub is_file : FileKind → Bool
is_file file = true
is_file directory = false

unfoldable pub is_local_available : FileSyncState → Bool
is_local_available local_available = true
is_local_available unsynchronized_local_missing = false
is_local_available pending_upload = false
is_local_available pending_download = false
is_local_available skipped_folder_limit = false

-- `hash.as_deref() == Some(expected)`
unfoldable pub hash_is : Option String → Text → Bool
hash_is none expected = false
hash_is (some hash) expected = codes hash == expected
