-- ===== src/Agent/Commands/Upload.antt =====
-- crates/syncer-agent/src/main.rs: the upload of a file that the queue asks for.
pub mod Laws
use syncer.Prelude.{ℕ, String, Option, none, some, List, Result, ok, err, map_err, if◌then◌else◌}
use syncer.Prelude.Texts.{Text}
use syncer.Core.StateDb.Files.Reads.{list_files}
use syncer.Core.StateDb.Queue.Update.{mark_sync_operation_done}
use syncer.Core.StateDb.Records.{FileRecord, FolderManifest, SyncOperationRecord}
use syncer.Agent.FileSystem.{FileSystem}
use syncer.Agent.Handler.{Device, Handler, ◌>>=◌, ◌>>◌, pure, lift, ask, require, put_database}
use syncer.Agent.PeerClient.{Peer}
use syncer.Agent.PeerServer.{Moment}
use syncer.Agent.Commands.{
  TransferError, remote_delete_rejected, upload_rejected, peer_client, core,
  TransferOperationResult, done, CommandCrates,
}
use syncer.Agent.Commands.Checks.{
  local_file_of, find_available, replaced_hash, confirms_delete, confirms_upload,
}

module _ (c : CommandCrates) (F : FileSystem) (m : Moment) where
  -- A file of the remote that is to be replaced is deleted there first.
  unfoldable pub replace_remote :
      Peer → SyncOperationRecord → Option FileRecord → Handler F TransferError (Unit {0})
  unfolding replaced_hash confirms_delete
  replace_remote peer operation none = pure tt
  replace_remote peer operation (some remote_target) = do
    hash ← lift (replaced_hash operation remote_target)
    response ←
        lift (map_err peer_client (peer.delete_file operation.path hash remote_target.size_bytes))
    require (confirms_delete operation remote_target response) remote_delete_rejected

  unfoldable pub upload_operation :
      Peer → FolderManifest → SyncOperationRecord → Handler F TransferError TransferOperationResult
  unfolding list_files local_file_of find_available replace_remote confirms_upload
      mark_sync_operation_done
  upload_operation peer remote_manifest operation = do
    files ← ask λ d. map_err core (list_files c.agent.core d.database)
    (local_file, expected_hash) ← lift (local_file_of files operation)
    replace_remote peer operation (find_available operation remote_manifest.files)
    response ← lift (
        map_err peer_client
          (peer.put_file_from_path operation.path expected_hash local_file.size_bytes))
    require (confirms_upload operation local_file expected_hash response) upload_rejected
    λ d. put_database (mark_sync_operation_done m.unix_now operation.id d.database) d
    pure (record {
      operation_id = operation.id;
      path = operation.path;
      status = done;
      size_bytes = local_file.size_bytes;
      error = none;
    })
