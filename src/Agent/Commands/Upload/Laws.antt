-- ===== src/Agent/Commands/Upload/Laws.antt =====
-- What an upload reports, and when it deletes at the peer, of crates/syncer-agent/src/main.rs.
use syncer.Prelude.{◌≡◌, sym, ap, true, List, Result, ok, map_err}
use syncer.Core.StateDb.Files.Reads.{list_files}
use syncer.Core.StateDb.Records.{FileRecord, FolderManifest, SyncOperationRecord}
use syncer.Agent.FileSystem.{FileSystem}
use syncer.Agent.Handler.{Device, lift, ask, require}
use syncer.Agent.Handler.Laws.{and_then-elim}
use syncer.Agent.PeerClient.{Peer}
use syncer.Agent.PeerServer.{Moment}
use syncer.Agent.Commands.{
  TransferError, upload_rejected, peer_client, core, TransferOperationResult, CommandCrates,
}
use syncer.Agent.Commands.Checks.{local_file_of, find_available, confirms_upload}
use syncer.Agent.Commands.Queue.Accounts.{is_done}
use syncer.Agent.Commands.Upload.{replace_remote, upload_operation}

module _ (c : CommandCrates) (F : FileSystem) (m : Moment) where
  result_injective :
      (a b : TransferOperationResult)
      → (let r : Result TransferError TransferOperationResult = ok a in r ≡ ok b)
      → a ≡ b
  result_injective a b same = cc

  -- An upload that succeeds reports its operation as done.
  pub upload_operation-reports :
      (peer : Peer) (remote_manifest : FolderManifest) (operation : SyncOperationRecord)
      (d d' : Device F) (result : TransferOperationResult)
      → upload_operation c F m peer remote_manifest operation d ≡ (d', ok result)
      → (result.operation_id ≡ operation.id) × (is_done result ≡ true)
  unfolding upload_operation
  upload_operation-reports peer remote_manifest operation d d' result same =
      let query : Device F → Result TransferError (List FileRecord) =
        λ s. map_err core (list_files c.agent.core s.database) in
      and_then-elim (ask query d) _ same λ d1 files at1 r1.
        and_then-elim (lift (local_file_of files operation) d1) _ r1 λ d2 pair at2 r2.
          and_then-elim
            (replace_remote c F m peer operation (find_available operation remote_manifest.files)
              d2)
            _ r2
            λ d3 x3 at3 r3.
              and_then-elim
                (lift
                  (map_err peer_client
                    (peer.put_file_from_path operation.path pair.1 pair.0.size_bytes))
                  d3)
                _ r3
                λ d4 response at4 r4.
                  and_then-elim
                    (require (confirms_upload operation pair.0 pair.1 response) upload_rejected d4)
                    _ r4
                    λ d5 x5 at5 r5.
                      let reported = result_injective _ result (ap (λ r. r.1) r5) in
                      (
                        sym (ap (λ (r : TransferOperationResult). r.operation_id) reported),
                        sym (ap is_done reported),
                      )
