-- ===== src/Agent/Commands/Delete/Laws.antt =====
-- What a deletion does to the files, of crates/syncer-agent/src/main.rs.
use syncer.Prelude.{◌≡◌, refl, true, Option, none, some, List, ok, err}
use syncer.Prelude.Texts.{Text}
use syncer.Core.JsonFile.{JsonFile}
use syncer.Core.Manifest.{RelativePath, parse}
use syncer.Core.Model.{propagate_to_peers}
use syncer.Core.StateDb.Files.Reads.{list_files}
use syncer.Core.StateDb.Records.{FileRecord}
use syncer.Agent.FileSystem.{FileSystem}
use syncer.Agent.Handler.{Device}
use syncer.Agent.Manifests.{find_record}
use syncer.Agent.PeerClient.{Peer}
use syncer.Agent.PeerServer.{Moment}
use syncer.Agent.Profile.{LocalDeviceProfile}
use syncer.Agent.Commands.{CommandCrates}
use syncer.Agent.Commands.Errors.{missing_delete_peer_config}
use syncer.Agent.Commands.Delete.{delete_local, finish_delete, delete_file, remove_existing}

module _ (c : CommandCrates) (F : FileSystem) (m : Moment) (root device_config : Text)
    (profile_file : JsonFile LocalDeviceProfile) (peer : Text → Text → Peer) where
  delete_local_lem :
      (path : RelativePath) (files : List FileRecord) (existing : FileRecord) (d : Device F)
      → list_files c.agent.core d.database ≡ ok files
      → find_record path files ≡ some existing
      → F.try_exists d.files (c.agent.core.push root path) ≡ ok true
      → (F.remove_file d.files (c.agent.core.push root path)).1 ≡ ok tt
      → delete_local c F m root device_config profile_file peer path d ≡ (
        record d { files = (F.remove_file d.files (c.agent.core.push root path)).0 },
        ok existing,
      )
  unfolding delete_local remove_existing
  delete_local_lem path files existing d listed found exists removed =
      rw (listed, found, exists, removed) refl

  -- A deletion at the peers too, without an endpoint: where the file is listed and there, it is removed
  -- from the folder before the missing endpoint is noticed, so the command fails with the file gone and
  -- the database as it was.
  pub delete_file-lost :
      (file : Text) (path : RelativePath) (files : List FileRecord) (existing : FileRecord)
      (shared_secret : Option Text) (d : Device F)
      → parse c.agent.core file ≡ ok path
      → list_files c.agent.core d.database ≡ ok files
      → find_record path files ≡ some existing
      → F.try_exists d.files (c.agent.core.push root path) ≡ ok true
      → (F.remove_file d.files (c.agent.core.push root path)).1 ≡ ok tt
      → delete_file c F m root device_config profile_file peer file propagate_to_peers none
          shared_secret d
        ≡ (
          record d { files = (F.remove_file d.files (c.agent.core.push root path)).0 },
          err missing_delete_peer_config,
        )
  unfolding delete_file finish_delete
  delete_file-lost file path files existing shared_secret d parsed listed found exists removed =
      rw (parsed, delete_local_lem path files existing d listed found exists removed) refl
