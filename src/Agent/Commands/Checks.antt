-- ===== src/Agent/Commands/Checks.antt =====
-- crates/syncer-agent/src/main.rs: the checks of an operation against the manifests.
pub mod Laws
use syncer.Prelude.{
  ℕ, String, Bool, true, false, not, ◌&&◌, ◌||◌, Option, none, some, List, [], ◌∷◌, Result, ok, err,
  ◌>>=◌, ◌>>◌, guard, ok_or, ◌==◌, nat_eq, string_eq, option_string_eq, option_nat_eq,
  if◌then◌else◌, codes,
}
use syncer.Prelude.Paths.{same_path}
use syncer.Prelude.Texts.{text_eq}
use syncer.Core.StateDb.Records.{FileRecord, FolderManifest, SyncOperationRecord}
use syncer.Agent.Manifests.{find_record, is_file, is_local_available}
use syncer.Agent.PeerClient.{UploadFileResponse, DeleteFileResponse}
use syncer.Agent.Commands.{
  TransferError, remote_file_missing, remote_path_is_not_file, remote_hash_missing,
  remote_file_changed, local_file_missing, local_path_is_not_file, local_hash_missing,
  local_file_changed, remote_target_exists,
}

-- `a.as_deref().or(b.as_deref())`
unfoldable pub or_else : Option String → Option String → Option String
or_else none other = other
or_else (some hash) other = some hash

-- `size.is_some_and(|size| size != actual)` does not hold.
unfoldable pub agrees : Option ℕ → ℕ → Bool
agrees none actual = true
agrees (some size) actual = size == actual

-- The first checks of `download_operation`: the remote file and its hash.
unfoldable pub remote_file_of :
    FolderManifest → SyncOperationRecord → Result TransferError (FileRecord × String)
unfolding find_record is_file or_else agrees
remote_file_of remote_manifest operation = do
  remote_file ← ok_or remote_file_missing (find_record operation.path remote_manifest.files)
  guard (is_file remote_file.kind) remote_path_is_not_file
  expected_hash ←
      ok_or remote_hash_missing (or_else operation.remote_content_hash remote_file.content_hash)
  guard (remote_file.content_hash == some expected_hash) remote_file_changed
  guard (agrees operation.remote_size_bytes remote_file.size_bytes) remote_file_changed
  ok (remote_file, expected_hash)

-- Whether a file of the database is the one that the operation was queued for.
unfoldable pub any_known : SyncOperationRecord → List FileRecord → Bool
unfolding same_path
any_known operation [] = false
any_known operation (found ∷ files) =
    let rest = any_known operation files in
    if same_path found.path operation.path
      && ((operation.local_content_hash == found.content_hash)
          && (operation.local_size_bytes == some found.size_bytes))
    then true
    else rest

-- The first checks of `upload_operation`: the local file and its hash.
unfoldable pub local_file_of :
    List FileRecord → SyncOperationRecord → Result TransferError (FileRecord × String)
unfolding find_record is_file or_else agrees
local_file_of files operation = do
  local_file ← ok_or local_file_missing (find_record operation.path files)
  guard (is_file local_file.kind) local_path_is_not_file
  expected_hash ←
      ok_or local_hash_missing (or_else operation.local_content_hash local_file.content_hash)
  guard (local_file.content_hash == some expected_hash) local_file_changed
  guard (agrees operation.local_size_bytes local_file.size_bytes) local_file_changed
  ok (local_file, expected_hash)

-- The first available file of the remote at the path.
unfoldable pub find_available : SyncOperationRecord → List FileRecord → Option FileRecord
unfolding is_local_available same_path
find_available operation [] = none
find_available operation (found ∷ files) =
    let rest = find_available operation files in
    if same_path found.path operation.path && is_local_available found.sync_state
    then some found
    else rest

-- The remote file is the one that the operation was queued for, and its hash is known.
unfoldable pub replaced_hash : SyncOperationRecord → FileRecord → Result TransferError String
replaced_hash operation remote_target = do
  guard
      ((operation.remote_content_hash == remote_target.content_hash)
        && (operation.remote_size_bytes == some remote_target.size_bytes))
      remote_target_exists
  ok_or remote_hash_missing remote_target.content_hash

-- The peer has confirmed what it was asked for.
unfoldable pub confirms_delete : SyncOperationRecord → FileRecord → DeleteFileResponse → Bool
unfolding same_path
confirms_delete operation remote_target response =
    response.accepted
    && (same_path response.path operation.path
        && ((response.size_bytes == remote_target.size_bytes)
            && (some response.content_hash == remote_target.content_hash)))

unfoldable pub confirms_upload :
    SyncOperationRecord → FileRecord → String → UploadFileResponse → Bool
unfolding same_path
confirms_upload operation local_file expected_hash response =
    response.accepted
    && (same_path response.path operation.path
        && ((response.size_bytes == local_file.size_bytes)
            && (response.content_hash == expected_hash)))
