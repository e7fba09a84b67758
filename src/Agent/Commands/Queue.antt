-- ===== src/Agent/Commands/Queue.antt =====
-- crates/syncer-agent/src/main.rs: the run of the queue, and the plan before it.
pub mod Accounts
pub mod Once
pub mod Run
use syncer.Prelude.{
  ℕ, ◌++◌, String, Option, none, some, List, [], ◌∷◌, Result, ok, err, map_err, length,
  if◌then◌else◌,
}
use syncer.Prelude.Words.{saturating_add, saturating_sub}
use syncer.Prelude.Texts.{Text}
use syncer.Core.FolderStore.{FolderDocument, read}
use syncer.Core.JsonFile.{JsonFile}
use syncer.Core.Planning.{SyncPlan, plan_manifest_sync_for_mode}
use syncer.Core.Scanner.{ScanSummary}
use syncer.Core.StateDb.Files.Reads.{export_manifest}
use syncer.Core.StateDb.Queue.{list_pending_download_operations, list_pending_upload_operations}
use syncer.Core.StateDb.Queue.Update.{mark_sync_operation_started, mark_sync_operation_failed}
use syncer.Core.StateDb.Records.{FolderManifest, SyncOperationRecord}
use syncer.Agent.FileSystem.{FileSystem}
use syncer.Agent.Handler.{Device, Handler, ◌>>=◌, ◌>>◌, pure, lift, ask, scan_device}
use syncer.Agent.PeerClient.{Peer}
use syncer.Agent.PeerServer.{Moment}
use syncer.Agent.Profile
use syncer.Agent.Profile.{LocalDeviceProfile}
use syncer.Agent.Commands.{TransferError, TransferOperationResult, failed, CommandCrates}
use syncer.Agent.Commands.Download.{download_operation}
use syncer.Agent.Commands.Errors.{AgentError, core, profile_read, peer_client}
use syncer.Agent.Commands.Upload.{upload_operation}

pub record ExecuteSyncQueueOutput : Type 0 where
  pub completed : ℕ
  pub failed : ℕ
  pub results : List TransferOperationResult

abbrev pub empty_output : ExecuteSyncQueueOutput
empty_output = record { completed = 0; failed = 0; results = [] }

abbrev pub unwrap_or_zero : Option ℕ → ℕ
unwrap_or_zero none = 0
unwrap_or_zero (some n) = n

module _ (c : CommandCrates) (F : FileSystem) (m : Moment) where
  unfoldable pub failed_result :
      SyncOperationRecord → Option ℕ → TransferError → TransferOperationResult
  failed_result operation size_bytes e = record {
    operation_id = operation.id;
    path = operation.path;
    status = failed;
    size_bytes = unwrap_or_zero size_bytes;
    error = some (c.error_text e);
  }

  -- The two arms behind an operation: a failure is noted in the database and in the results.
  unfoldable pub record_outcome :
      SyncOperationRecord
      → Option ℕ
      → ExecuteSyncQueueOutput
      → Device F × Result TransferError TransferOperationResult
      → Device F × ExecuteSyncQueueOutput
  unfolding failed_result mark_sync_operation_failed
  record_outcome operation size_bytes out (d, ok result) = (
    d,
    record out { completed = saturating_add out.completed 1; results = out.results ++ result ∷ [] },
  )
  record_outcome operation size_bytes out (d, err e) = (
    record d {
      database = mark_sync_operation_failed m.unix_now operation.id (c.error_text e) d.database;
    },
    record out {
      failed = saturating_add out.failed 1;
      results = out.results ++ failed_result operation size_bytes e ∷ [];
    },
  )

  -- The loop over the downloads, and the one over the uploads.
  unfoldable pub run_operations :
      (SyncOperationRecord → Handler F TransferError TransferOperationResult)
      → (SyncOperationRecord → Option ℕ)
      → List SyncOperationRecord
      → ExecuteSyncQueueOutput
      → Device F
      → Device F × ExecuteSyncQueueOutput
  unfolding record_outcome mark_sync_operation_started
  run_operations run size_bytes [] out d = (d, out)
  run_operations run size_bytes (operation ∷ operations) out d =
      let started = record d {
        database = mark_sync_operation_started m.unix_now operation.id d.database;
      } in
      let next = record_outcome operation (size_bytes operation) out (run operation started) in
      run_operations run size_bytes operations next.1 next.0

  -- `device_config` is the path of the profile and `operation_id` a new id.
  module _ (root device_config : Text) (profile_file : JsonFile LocalDeviceProfile)
      (operation_id : ℕ) (peer : Peer) where
    -- The two loops of `run_sync_queue`.
    unfoldable pub run_both :
        LocalDeviceProfile
        → FolderManifest
        → List SyncOperationRecord
        → List SyncOperationRecord
        → Device F
        → Device F × ExecuteSyncQueueOutput
    unfolding run_operations download_operation upload_operation
    run_both profile remote_manifest downloads uploads d =
        let first =
          run_operations
            (download_operation c F root profile.device_id m operation_id peer remote_manifest)
            (λ operation. operation.remote_size_bytes) downloads empty_output d in
        run_operations (upload_operation c F m peer remote_manifest)
          (λ operation. operation.local_size_bytes) uploads first.1 first.0

    unfoldable pub scan_folder : LocalDeviceProfile → Handler F AgentError ScanSummary
    unfolding scan_device
    scan_folder profile d =
        let (d', summary) = scan_device c.agent.core root profile.device_id m.now m.unix_now d in
        (d', map_err core summary)

    unfoldable pub run_sync_queue : ℕ → Handler F AgentError ExecuteSyncQueueOutput
    unfolding scan_folder list_pending_download_operations list_pending_upload_operations run_both
    run_sync_queue limit = do
      profile ← lift (map_err profile_read (Profile.read device_config profile_file))
      summary ← scan_folder profile
      remote_manifest ← lift (map_err peer_client peer.fetch_manifest)
      let remote_device_id = c.agent.core.uuid_to_string remote_manifest.device_id
      downloads ← ask λ d.
          map_err core
            (list_pending_download_operations c.agent.core remote_device_id limit d.database)
      uploads ← ask λ d. map_err core (
          list_pending_upload_operations c.agent.core remote_device_id
            (saturating_sub limit (length downloads)) d.database)
      λ d. let (d', out) = run_both profile remote_manifest downloads uploads d in (d', ok out)

    unfoldable pub build_sync_plan : Handler F AgentError SyncPlan
    unfolding scan_folder read export_manifest plan_manifest_sync_for_mode
    build_sync_plan = do
      profile ← lift (map_err profile_read (Profile.read device_config profile_file))
      summary ← scan_folder profile
      folder ← ask λ d. map_err core (read c.agent.core root d.folder_json)
      local_manifest ← ask λ d.
          map_err core
            (export_manifest c.agent.core m.now folder.folder.id profile.device_id d.database)
      remote_manifest ← lift (map_err peer_client peer.fetch_manifest)
      pure (
          plan_manifest_sync_for_mode c.agent.core local_manifest remote_manifest
            folder.folder.mode)
