-- ===== src/Agent/Commands/Download.antt =====
-- crates/syncer-agent/src/main.rs: the download of a file that the queue asks for.
pub mod Laws
pub mod Steps
pub mod Fetched
pub mod Downloaded
use syncer.Prelude.{
  ℕ, ◌++◌, String, Bool, true, false, not, ◌&&◌, Option, none, some, List, [], ◌∷◌, Result, ok, err,
  map_err, leb, ◌==◌, nat_eq, string_eq, if◌then◌else◌,
}
use syncer.Prelude.Texts.{Text, codes}
use syncer.Core.FolderStore.{FolderDocument, syncer_dir, read}
use syncer.Core.Limits.{remaining_bytes, PendingTransfer}
use syncer.Core.Manifest.{RelativePath, FileEntry, file}
use syncer.Core.StateDb.Files.{upsert_file, record_skipped_folder_limit}
use syncer.Core.StateDb.Files.Reads.{folder_status, list_files}
use syncer.Core.StateDb.Queue.Update.{mark_sync_operation_done}
use syncer.Core.StateDb.Records.{FileRecord, FolderManifest, SyncOperationRecord}
use syncer.Agent.FileSystem.{FileSystem}
use syncer.Agent.Handler.{
  Device, Handler, ◌>>=◌, ◌>>◌, pure, fail, lift, ask, require, with_files, put_files, put_database,
}
use syncer.Agent.PeerClient.{Peer, TransferredFile}
use syncer.Agent.PeerClient.Fetch.{fetch_file_to_path}
use syncer.Agent.PeerServer.{Moment}
use syncer.Agent.Commands.{
  TransferError, local_target_exists, size_mismatch, hash_mismatch, folder_limit_exceeded,
  filesystem, peer_client, core, TransferOperationResult, done, CommandCrates,
}
use syncer.Agent.Commands.Checks.{remote_file_of, any_known}

-- `root` is the folder's path, and `device_id` the profile's.
module _ (c : CommandCrates) (F : FileSystem) (root : Text) (device_id : ℕ) (m : Moment)
    (operation_id : ℕ) where
  abbrev pub Transfer : Type 0 → Type 0
  Transfer A = Handler F TransferError A

  abbrev pub target : RelativePath → Text
  target path = c.agent.core.push root path

  -- The download does not fit: it is recorded as skipped.
  unfoldable pub skip_download : RelativePath → ℕ → ℕ → Transfer (Unit {0})
  unfolding record_skipped_folder_limit
  skip_download path size_bytes remaining = do
    database ← ask λ d. map_err core (
        record_skipped_folder_limit c.agent.core m.unix_now
          (record {
            operation_id = operation_id;
            path = path;
            size_bytes = size_bytes;
            queued_at = m.now;
          })
          d.database)
    put_database database
    fail (folder_limit_exceeded remaining size_bytes)

  unfoldable pub enforce_local_download_limit : RelativePath → ℕ → Transfer (Unit {0})
  unfolding read folder_status remaining_bytes skip_download
  enforce_local_download_limit path size_bytes = do
    folder ← ask λ d. map_err core (read c.agent.core root d.folder_json)
    status ← ask λ d. map_err core (folder_status c.agent.core d.database)
    let remaining = remaining_bytes folder.folder.size_limit status.indexed_bytes
    if leb size_bytes remaining then pure tt else skip_download path size_bytes remaining

  unfoldable pub known_target : SyncOperationRecord → Transfer Bool
  unfolding list_files any_known
  known_target operation = do
    files ← ask λ d. map_err core (list_files c.agent.core d.database)
    require (any_known operation files) local_target_exists
    pure true

  -- Whether a file at the target is to be replaced; another file there is an error.
  unfoldable pub may_replace : SyncOperationRecord → Transfer Bool
  unfolding known_target
  may_replace operation = do
    target_exists ← ask λ d.
        map_err (filesystem (target operation.path)) (F.try_exists d.files (target operation.path))
    if target_exists then known_target operation else pure false

  unfoldable pub download_dir : Text
  download_dir =
      c.agent.core.push (c.agent.core.push (syncer_dir c.agent.core root) (codes "tmp"))
        (codes "downloads")

  unfoldable pub download_path : String → Text
  unfolding download_dir
  download_path operation_id = c.agent.core.push download_dir (codes operation_id ++ codes ".part")

  -- `encrypted_download_path`
  unfoldable pub encrypted_download_path : Text → Text
  encrypted_download_path path =
      c.with_extension path (codes "syncer-download-" ++ (m.fresh ++ codes ".enc"))

  -- The files when a client has written the encrypted file and the destination and has removed the
  -- encrypted file.
  unfoldable pub received : Text → List ℕ → List ℕ → F.State → F.State
  unfolding encrypted_download_path
  received destination ciphertext contents s =
      let encrypted = encrypted_download_path destination in
      (F.remove_file (F.store (F.store s encrypted ciphertext) destination contents) encrypted).0

  -- The file from the peer, in the temporary file.
  unfoldable pub fetch : Peer → SyncOperationRecord → ℕ → String → Transfer TransferredFile
  unfolding download_path download_dir encrypted_download_path fetch_file_to_path received
  fetch peer operation size_bytes expected_hash = do
    with_files (λ s. F.create_dir_all s download_dir) (filesystem download_dir)
    let temporary = download_path operation.id
    (transferred, (ciphertext, contents)) ← ask λ d. map_err peer_client (
        fetch_file_to_path c.agent (F.output d.files (encrypted_download_path temporary))
          (F.output d.files temporary) peer operation.path size_bytes)
    λ d. put_files (received temporary ciphertext contents d.files) d
    require (transferred.size_bytes == size_bytes) (size_mismatch size_bytes transferred.size_bytes)
    require (transferred.content_hash == expected_hash) hash_mismatch
    pure transferred

  unfoldable pub remove_replaced : Bool → RelativePath → Transfer (Unit {0})
  remove_replaced false path = pure tt
  remove_replaced true path =
      with_files (λ s. F.remove_file s (target path)) (filesystem (target path))

  unfoldable pub publish_download : RelativePath → Text → Transfer (Unit {0})
  publish_download path temporary = do
    with_files (λ s. F.create_dir_all s (c.parent (target path)))
        (filesystem (c.parent (target path)))
    with_files (λ s. F.rename s temporary (target path)) (filesystem (target path))

  unfoldable pub downloaded_entry : RelativePath → FileRecord → TransferredFile → FileEntry
  downloaded_entry path remote_file transferred = record {
    path = path;
    kind = file;
    size_bytes = transferred.size_bytes;
    modified_at = m.now;
    content_hash = some transferred.content_hash;
    block_hashes = [];
    version = record { generation = remote_file.generation; device_id = device_id };
  }

  -- What the database keeps of the download, and the result.
  unfoldable pub finish_download :
      SyncOperationRecord → FileRecord → TransferredFile → Transfer TransferOperationResult
  unfolding upsert_file downloaded_entry mark_sync_operation_done
  finish_download operation remote_file transferred = do
    database ← ask λ d. map_err core (
        upsert_file c.agent.core m.unix_now
          (downloaded_entry operation.path remote_file transferred) d.database)
    put_database (mark_sync_operation_done m.unix_now operation.id database)
    pure (record {
      operation_id = operation.id;
      path = operation.path;
      status = done;
      size_bytes = transferred.size_bytes;
      error = none;
    })

  unfoldable pub download_operation :
      Peer → FolderManifest → SyncOperationRecord → Transfer TransferOperationResult
  unfolding remote_file_of enforce_local_download_limit may_replace fetch remove_replaced
      publish_download finish_download
  download_operation peer remote_manifest operation = do
    (remote_file, expected_hash) ← lift (remote_file_of remote_manifest operation)
    enforce_local_download_limit operation.path remote_file.size_bytes
    replace_existing ← may_replace operation
    transferred ← fetch peer operation remote_file.size_bytes expected_hash
    remove_replaced replace_existing operation.path
    publish_download operation.path (download_path operation.id)
    finish_download operation remote_file transferred
