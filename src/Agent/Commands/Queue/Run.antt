-- ===== src/Agent/Commands/Queue/Run.antt =====
-- A whole run of the queue, of crates/syncer-agent/src/main.rs.
use syncer.Prelude.{
  ℕ, ◌≡◌, refl, ap, ◌∙◌, List, [], ◌++◌, Result, ok, map_err, map_err-eq-ok, length,
}
use std.Path.{subst}
use syncer.Prelude.Words.{saturating_sub}
use syncer.Prelude.Texts.{Text}
use syncer.Core.JsonFile.{JsonFile}
use syncer.Core.Scanner.{ScanSummary}
use syncer.Core.StateDb.Queue.{list_pending_download_operations, list_pending_upload_operations}
use syncer.Core.StateDb.Records.{FolderManifest, SyncOperationRecord}
use syncer.Agent.FileSystem.{FileSystem}
use syncer.Agent.Handler.{Device, lift, ask}
use syncer.Agent.Handler.Laws.{and_then-elim, ask-eq-ok}
use syncer.Agent.PeerClient.{Peer}
use syncer.Agent.PeerServer.{Moment}
use syncer.Agent.Profile
use syncer.Agent.Profile.{LocalDeviceProfile}
use syncer.Agent.Commands.{CommandCrates}
use syncer.Agent.Commands.Download.{download_operation}
use syncer.Agent.Commands.Download.Downloaded.{download_operation-reports}
use syncer.Agent.Commands.Errors.{AgentError, core, profile_read, peer_client}
use syncer.Agent.Commands.Queue.{
  ExecuteSyncQueueOutput, empty_output, run_operations, run_both, scan_folder, run_sync_queue,
}
use syncer.Agent.Commands.Queue.Accounts.{Accounts, operation_ids, run_operations-Accounts}
use syncer.Agent.Commands.Upload.{upload_operation}
use syncer.Agent.Commands.Upload.Laws.{upload_operation-reports}

module _ (c : CommandCrates) (F : FileSystem) (m : Moment) (root device_config : Text)
    (profile_file : JsonFile LocalDeviceProfile) (operation_id : ℕ) (peer : Peer) where
  output_injective :
      (a b : ExecuteSyncQueueOutput)
      → (let r : Result AgentError ExecuteSyncQueueOutput = ok a in r ≡ ok b)
      → a ≡ b
  output_injective a b same = cc

  run_both-Accounts :
      (profile : LocalDeviceProfile) (remote_manifest : FolderManifest)
      (downloads uploads : List SyncOperationRecord) (d : Device F)
      → Accounts
          (operation_ids downloads ++ operation_ids uploads)
          (run_both c F m root device_config profile_file operation_id peer profile remote_manifest
            downloads uploads d).1
  unfolding run_both
  run_both-Accounts profile remote_manifest downloads uploads d =
      let download =
        download_operation c F root profile.device_id m operation_id peer remote_manifest in
      let first =
        run_operations c F m download
          (λ (operation : SyncOperationRecord). operation.remote_size_bytes) downloads empty_output
          d in
      run_operations-Accounts c F m (upload_operation c F m peer remote_manifest)
        (λ operation. operation.local_size_bytes) uploads (operation_ids downloads) first.1 first.0
        (upload_operation-reports c F m peer remote_manifest)
        (run_operations-Accounts c F m download (λ operation. operation.remote_size_bytes) downloads
          [] empty_output d
          (download_operation-reports c F root profile.device_id m operation_id peer
            remote_manifest)
          (record { in_order = refl; completed_lem = refl; failed_lem = refl }))

  -- The operations that a run takes: those that the queue lists after the scan, downloads first, and as
  -- many uploads as the limit leaves.
  pub record IsRun (limit : ℕ) (d : Device F) (out : ExecuteSyncQueueOutput) : Type 0 where
    pub remote_manifest : FolderManifest
    pub profile : LocalDeviceProfile
    pub summary : ScanSummary
    pub scanned : Device F
    pub downloads : List SyncOperationRecord
    pub uploads : List SyncOperationRecord
    pub profile_lem : Profile.read device_config profile_file ≡ ok profile
    pub scanned_lem :
        scan_folder c F m root device_config profile_file operation_id peer profile d
        ≡ (scanned, ok summary)
    pub fetched : peer.fetch_manifest ≡ ok remote_manifest
    pub downloads_lem :
        list_pending_download_operations c.agent.core
          (c.agent.core.uuid_to_string remote_manifest.device_id)
          limit
          scanned.database
        ≡ ok downloads
    pub uploads_lem :
        list_pending_upload_operations c.agent.core
          (c.agent.core.uuid_to_string remote_manifest.device_id)
          (saturating_sub limit (length downloads))
          scanned.database
        ≡ ok uploads
    pub accounts : Accounts (operation_ids downloads ++ operation_ids uploads) out

  -- A run that ends with a report has gone through every operation that it took, whether one of them
  -- fails or not: the results are those of the operations in order, and the counters count the results
  -- that are done and those that have failed, up to 2^64 - 1.
  pub run_sync_queue-IsRun :
      (limit : ℕ) (d : Device F) {d' : Device F} {out : ExecuteSyncQueueOutput}
      → run_sync_queue c F m root device_config profile_file operation_id peer limit d
        ≡ (d', ok out)
      → IsRun limit d out
  unfolding run_sync_queue
  run_sync_queue-IsRun limit d {d'} {out} same =
      and_then-elim (lift (map_err profile_read (Profile.read device_config profile_file)) d) _ same
        λ d1 profile at1 r1.
          and_then-elim
            (scan_folder c F m root device_config profile_file operation_id peer profile d1) _ r1
            λ d2 summary at2 r2.
              and_then-elim (lift (map_err peer_client peer.fetch_manifest) d2) _ r2
                λ d3 remote_manifest at3 r3.
                  let remote_device_id = c.agent.core.uuid_to_string remote_manifest.device_id in
                  let listing : Device F → Result AgentError (List SyncOperationRecord) = λ s.
                    map_err core (
                      list_pending_download_operations c.agent.core remote_device_id limit
                        s.database) in
                  and_then-elim (ask listing d3) _ r3 λ d4 downloads at4 r4.
                    let listing' : Device F → Result AgentError (List SyncOperationRecord) = λ s.
                      map_err core (
                        list_pending_upload_operations c.agent.core remote_device_id
                          (saturating_sub limit (length downloads)) s.database) in
                    and_then-elim (ask listing' d4) _ r4 λ d5 uploads at5 r5.
                      let (s4, downloading) = ask-eq-ok listing d3 at4 in
                      let (s5, uploading) = ask-eq-ok listing' d4 at5 in
                      record {
                        remote_manifest = remote_manifest;
                        profile = profile;
                        summary = summary;
                        scanned = d2;
                        profile_lem = map_err-eq-ok profile_read _ (ap (λ r. r.1) at1);
                        scanned_lem =
                            ap
                              (scan_folder c F m root device_config profile_file operation_id peer
                                profile)
                              (ap (λ r. r.0) at1)
                            ∙ at2;
                        downloads = downloads;
                        uploads = uploads;
                        fetched = map_err-eq-ok peer_client _ (ap (λ r. r.1) at3);
                        downloads_lem =
                            ap
                              (λ (s : Device F).
                                list_pending_download_operations c.agent.core remote_device_id limit
                                  s.database)
                              (ap (λ r. r.0) at3)
                            ∙ map_err-eq-ok core _ downloading;
                        uploads_lem =
                            ap
                              (λ (s : Device F).
                                list_pending_upload_operations c.agent.core remote_device_id
                                  (saturating_sub limit (length downloads)) s.database)
                              (ap (λ r. r.0) at3 ∙ s4)
                            ∙ map_err-eq-ok core _ uploading;
                        accounts =
                            subst (Accounts (operation_ids downloads ++ operation_ids uploads))
                              (output_injective _ out (ap (λ r. r.1) r5))
                              (run_both-Accounts profile remote_manifest downloads uploads d5);
                      }
