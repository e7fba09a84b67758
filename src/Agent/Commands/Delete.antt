-- ===== src/Agent/Commands/Delete.antt =====
-- crates/syncer-agent/src/main.rs: the deletion of a file here, and at the peer where the user asks for it.
pub mod Laws
use syncer.Prelude.{
  ℕ, String, Bool, true, false, ◌&&◌, Option, none, some, List, Result, ok, err, map_err, ok_or,
  ◌==◌, nat_eq, string_eq, if◌then◌else◌,
}
use syncer.Prelude.Paths.{same_path}
use syncer.Prelude.Texts.{Text, text_eq}
use syncer.Core.JsonFile.{JsonFile}
use syncer.Core.Manifest.{RelativePath, parse}
use syncer.Core.Model.{DeleteScope, local_only, propagate_to_peers}
use syncer.Core.StateDb.Files.{mark_file_deleted_locally, forget_file}
use syncer.Core.StateDb.Files.Reads.{list_files}
use syncer.Core.StateDb.Records.{FileRecord}
use syncer.Agent.FileSystem.{FileSystem}
use syncer.Agent.Handler.{
  Device, Handler, ◌>>=◌, ◌>>◌, pure, lift, ask, require, with_files, put_database,
}
use syncer.Agent.Manifests.{find_record}
use syncer.Agent.PeerClient.{Peer, DeleteFileResponse}
use syncer.Agent.PeerServer.{Moment}
use syncer.Agent.Profile
use syncer.Agent.Profile.{LocalDeviceProfile}
use syncer.Agent.Commands.{
  TransferError, local_file_missing, local_hash_missing, upload_rejected, filesystem, CommandCrates,
}
use syncer.Agent.Commands.Errors.{
  AgentError, core, profile_read, peer_client, transfer, missing_delete_peer_config,
}

pub record DeleteFileOutput : Type 0 where
  pub path : RelativePath
  pub scope : DeleteScope
  pub local_deleted : Bool
  pub remote_deleted : Bool

-- The peer has confirmed that it deleted the file.
unfoldable pub confirms : RelativePath → FileRecord → String → DeleteFileResponse → Bool
unfolding same_path
confirms path existing expected_hash response =
    response.accepted
    && (same_path response.path path
        && ((response.size_bytes == existing.size_bytes)
            && (response.content_hash == expected_hash)))

-- `peer` is the peer for an endpoint and a secret.
module _ (c : CommandCrates) (F : FileSystem) (m : Moment) (root device_config : Text)
    (profile_file : JsonFile LocalDeviceProfile) (peer : Text → Text → Peer) where
  abbrev pub Run : Type 0 → Type 0
  Run A = Handler F AgentError A

  abbrev target : RelativePath → Text
  target path = c.agent.core.push root path

  abbrev transfer_filesystem : Text → String → AgentError
  transfer_filesystem path message = transfer (filesystem path message)

  unfoldable pub remove_existing : RelativePath → Bool → Run (Unit {0})
  remove_existing path true =
      with_files (λ s. F.remove_file s (target path)) (transfer_filesystem (target path))
  remove_existing path false = pure tt

  -- The part of `delete_file` before its `match`.
  unfoldable pub delete_local : RelativePath → Run FileRecord
  unfolding list_files find_record remove_existing
  delete_local path = do
    files ← ask λ d. map_err core (list_files c.agent.core d.database)
    existing ← lift (ok_or (transfer local_file_missing) (find_record path files))
    exists ←
        ask λ d. map_err (transfer_filesystem (target path)) (F.try_exists d.files (target path))
    remove_existing path exists
    pure existing

  -- The two arms of the `match`.
  unfoldable pub finish_delete :
      RelativePath → FileRecord → DeleteScope → Option Text → Option Text → Run DeleteFileOutput
  unfolding mark_file_deleted_locally forget_file confirms
  finish_delete path existing local_only endpoint shared_secret = do
    λ d. put_database (mark_file_deleted_locally m.unix_now path d.database) d
    pure (record { path = path; scope = local_only; local_deleted = true; remote_deleted = false })
  finish_delete path existing propagate_to_peers endpoint shared_secret = do
    endpoint ← lift (ok_or missing_delete_peer_config endpoint)
    shared_secret ← lift (ok_or missing_delete_peer_config shared_secret)
    profile ← lift (map_err profile_read (Profile.read device_config profile_file))
    expected_hash ← lift (ok_or (transfer local_hash_missing) existing.content_hash)
    response ← lift (
        map_err peer_client
          ((peer endpoint shared_secret).delete_file path expected_hash existing.size_bytes))
    require (confirms path existing expected_hash response) (transfer upload_rejected)
    λ d. put_database (forget_file path d.database) d
    pure (record {
      path = path;
      scope = propagate_to_peers;
      local_deleted = true;
      remote_deleted = true;
    })

  unfoldable pub delete_file : Text → DeleteScope → Option Text → Option Text → Run DeleteFileOutput
  unfolding parse delete_local finish_delete
  delete_file file scope endpoint shared_secret = do
    path ← lift (map_err core (parse c.agent.core file))
    existing ← delete_local path
    finish_delete path existing scope endpoint shared_secret
