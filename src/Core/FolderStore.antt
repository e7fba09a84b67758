-- ===== src/Core/FolderStore.antt =====
-- crates/syncer-core/src/folder_store.rs: the folder's configuration in `.syncer/folder.json`.
pub mod Laws
use syncer.Prelude.{
  ℕ, String, Option, none, some, List, Result, ok, err, ◌>>=◌, ◌==◌, nat_eq, not, if◌then◌else◌,
}
use syncer.Prelude.Texts.{Text, codes}
use syncer.Crates.{Crates}
use syncer.Core.Error.{CoreResult, CoreError, unsupported_folder_schema, filesystem, json}
use syncer.Core.Limits.{FolderSizeLimit}
use syncer.Core.Model.{
  FolderConfig, FolderMode, FolderPeer, StorageRoot, native_path, default_retention,
}
use syncer.Core.JsonFile.{
  JsonFile, absent, unreadable, malformed, holds, not_found, JsonDisk, Writing, succeeds,
  no_directory, not_serialized, not_written, not_renamed,
}

abbrev pub current_folder_schema_version : ℕ
current_folder_schema_version = 1

pub record FolderDocument : Type 0 where
  pub schema_version : ℕ
  pub folder : FolderConfig

unfoldable pub new_document : FolderConfig → FolderDocument
new_document folder = record { schema_version = current_folder_schema_version; folder = folder }

unfoldable pub validate_document : FolderDocument → CoreResult (Unit {0})
validate_document document =
    if not (document.schema_version == current_folder_schema_version)
    then err (unsupported_folder_schema document.schema_version)
    else ok tt

module _ (c : Crates) (root : Text) where
  unfoldable pub syncer_dir : Text
  syncer_dir = c.push root (codes ".syncer")

  unfoldable pub folder_json_path : Text
  unfolding syncer_dir
  folder_json_path = c.push syncer_dir (codes "folder.json")

  unfoldable pub state_db_path : Text
  unfolding syncer_dir
  state_db_path = c.push syncer_dir (codes "state.db")

  abbrev failed : Text → String → CoreError
  failed path message = filesystem (c.display path) message

  unfoldable pub parse_folder_json : JsonFile FolderDocument → CoreResult FolderDocument
  unfolding folder_json_path
  parse_folder_json absent = err (failed folder_json_path not_found)
  parse_folder_json (unreadable message) = err (failed folder_json_path message)
  parse_folder_json (malformed message) = err (json message)
  parse_folder_json (holds document) = ok document

  unfoldable pub read : JsonDisk FolderDocument → CoreResult FolderDocument
  unfolding parse_folder_json validate_document
  read disk = do
    document ← parse_folder_json disk.target
    validated ← validate_document document
    ok document

  -- The steps behind the validation.
  unfoldable pub write_steps :
      FolderDocument
      → Writing FolderDocument
      → JsonDisk FolderDocument
      → JsonDisk FolderDocument × CoreResult (Unit {0})
  unfolding folder_json_path syncer_dir
  write_steps document (no_directory message) disk = (disk, err (failed syncer_dir message))
  write_steps document (not_serialized message) disk = (disk, err (json message))
  write_steps document (not_written message left) disk = (
    record disk { temporary = left },
    err (failed (c.push syncer_dir (codes "folder.json.tmp")) message),
  )
  write_steps document (not_renamed message) disk =
      (record disk { temporary = holds document }, err (failed folder_json_path message))
  write_steps document succeeds disk =
      (record { target = holds document; temporary = absent }, ok tt)

  unfoldable pub write :
      FolderDocument
      → Writing FolderDocument
      → JsonDisk FolderDocument
      → JsonDisk FolderDocument × CoreResult (Unit {0})
  unfolding write_steps validate_document
  write document writing disk = elim (validate_document document) [
    | err e ↦ (disk, err e)
    | ok validated ↦ write_steps document writing disk
  ]

  -- `id` is the new id of the folder.
  unfoldable pub initialize :
      ℕ
      → String
      → FolderMode
      → FolderSizeLimit
      → List FolderPeer
      → Writing FolderDocument
      → JsonDisk FolderDocument
      → JsonDisk FolderDocument × CoreResult FolderDocument
  unfolding write new_document
  initialize id display_name mode size_limit peers writing disk =
      let document = new_document (record {
        id = id;
        display_name = display_name;
        root = native_path root;
        mode = mode;
        interval_seconds = 900;
        size_limit = size_limit;
        retention = default_retention;
        peers = peers;
      }) in
      let (disk', written) = write document writing disk in (disk', do done ← written; ok document)
