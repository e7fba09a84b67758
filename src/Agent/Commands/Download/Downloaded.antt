-- ===== src/Agent/Commands/Download/Downloaded.antt =====
-- What an accepted download leaves, of crates/syncer-agent/src/main.rs.
use syncer.Prelude.{
  ℕ, ◌≡◌, ◌≢◌, sym, ap, ◌∙◌, String, Bool, true, List, ok, nat_eq, string_eq, length,
}
use std.Path.{subst}
use syncer.Prelude.Texts.{Text}
use syncer.Core.StateDb.Files.{upsert_file}
use syncer.Core.StateDb.Queue.Update.{mark_sync_operation_done}
use syncer.Core.StateDb.Records.{FileRecord, FolderManifest, SyncOperationRecord}
use syncer.Core.StateDb.Tables.{StateDatabase}
use syncer.Agent.Crates.{HasAead}
use syncer.Agent.FileSystem.{FileSystem, IsPosix}
use syncer.Agent.Handler.{Device, lift}
use syncer.Agent.Handler.Laws.{and_then-elim}
use syncer.Agent.PeerClient.{Peer, TransferredFile}
use syncer.Agent.PeerServer.{Moment}
use syncer.Agent.Commands.{TransferOperationResult, CommandCrates}
use syncer.Agent.Commands.Checks.{remote_file_of}
use syncer.Agent.Commands.Download.{
  enforce_local_download_limit, may_replace, download_dir, download_path, encrypted_download_path,
  fetch, remove_replaced, publish_download, downloaded_entry, download_operation,
}
use syncer.Agent.Commands.Download.Laws.{Fits, MayReplace, enforce-Fits, may_replace_lem}
use syncer.Agent.Commands.Checks.Laws.{IsExpected, remote_file_of-IsExpected}
use syncer.Agent.Commands.Queue.Accounts.{is_done}
use syncer.Agent.Commands.Download.Steps.{temporary, remove_lem, publish_lem, finish_lem, to}
use syncer.Agent.Commands.Download.Fetched.{client_answer, fetch-Fetches, contents_of_Fetches}

module _ (c : CommandCrates) (F : FileSystem) (root : Text) (device_id : ℕ) (m : Moment)
    (operation_id : ℕ) where
  -- What holds once a download has succeeded.
  pub record IsDownloaded (peer : Peer) (remote_manifest : FolderManifest)
      (operation : SyncOperationRecord) (d d' : Device F) : Type 0 where
    pub remote_file : FileRecord
    pub hash : String
    pub replace : Bool
    pub transferred : TransferredFile
    pub files : F.State
    pub ciphertext : List ℕ
    pub contents : List ℕ
    pub indexed : StateDatabase
    pub expected :
        IsExpected operation.path operation.remote_content_hash operation.remote_size_bytes
          remote_manifest.files remote_file hash
    pub fits : Fits c F root device_id m operation_id remote_file.size_bytes d
    pub may_replace_lem : MayReplace c F root device_id m operation_id operation d replace
    pub fetched_lem :
        client_answer c F root device_id m operation_id peer operation remote_file.size_bytes files
        ≡ ok (transferred, (ciphertext, contents))
    pub reported_size : transferred.size_bytes ≡ remote_file.size_bytes
    pub reported_hash : transferred.content_hash ≡ hash
    pub size_lem : length contents ≡ remote_file.size_bytes
    pub hash_lem : c.agent.core.blake3_hex contents ≡ hash
    pub in_place :
        F.contents d'.files (to c F root device_id m operation_id operation.path) ≡ ok contents
    pub indexed_lem :
        upsert_file c.agent.core m.unix_now
          (downloaded_entry c F root device_id m operation_id operation.path remote_file
            transferred)
          d.database
        ≡ ok indexed
    pub marked : d'.database ≡ mark_sync_operation_done m.unix_now operation.id indexed

  -- Where a download succeeds, the remote manifest lists a file at the path with the hash and the size that
  -- the operation was queued for, it fits what is left of the folder's limit, there was no file at the path
  -- or the one that the operation knows, and the decrypted contents have that size and that BLAKE3 hash;
  -- they are in place, in the database, and the operation is done. The temporary file is not the target
  -- itself nor the encrypted file beside it.
  pub download_operation-IsDownloaded :
      IsPosix F
      → HasAead c.agent
      → (peer : Peer) (remote_manifest : FolderManifest) (operation : SyncOperationRecord)
        (d : Device F) {d' : Device F} {result : TransferOperationResult}
      → download_path c F root device_id m operation_id operation.id
        ≢ c.agent.core.push root operation.path
      → download_path c F root device_id m operation_id operation.id
        ≢ encrypted_download_path c F root device_id m operation_id
            (download_path c F root device_id m operation_id operation.id)
      → download_operation c F root device_id m operation_id peer remote_manifest operation d
        ≡ (d', ok result)
      → IsDownloaded peer remote_manifest operation d d'
  unfolding download_operation
  download_operation-IsDownloaded posix aead peer remote_manifest operation d {d'} {result} differ
        differ' same =
      and_then-elim (lift (remote_file_of remote_manifest operation) d) _ same λ d1 pair at1 r1.
        and_then-elim
          (enforce_local_download_limit c F root device_id m operation_id operation.path
            pair.0.size_bytes d1)
          _ r1
          λ d2 x2 at2 r2.
            and_then-elim (may_replace c F root device_id m operation_id operation d2) _ r2
              λ d3 replace at3 r3.
                and_then-elim
                  (fetch c F root device_id m operation_id peer operation pair.0.size_bytes pair.1
                    d3)
                  _ r3
                  λ d4 transferred at4 r4.
                    and_then-elim
                      (remove_replaced c F root device_id m operation_id replace operation.path d4)
                      _ r4
                      λ d5 x5 at5 r5.
                        and_then-elim
                          (publish_download c F root device_id m operation_id operation.path
                            (download_path c F root device_id m operation_id operation.id) d5)
                          _ r5
                          λ d6 x6 at6 r6.
                            let s1 : d ≡ d1 = ap (λ r. r.0) at1 in
                            let (s2, fitting) =
                              enforce-Fits c F root device_id m operation_id operation.path
                                pair.0.size_bytes d1 at2 in
                            let (s3, may) =
                              may_replace_lem c F root device_id m operation_id operation d2 at3 in
                            let f =
                              fetch-Fetches c F root device_id m operation_id peer operation
                                pair.0.size_bytes pair.1 d3 at4 in
                            let (stored_file, sized, hashed, s4) =
                              contents_of_Fetches c F root device_id m operation_id posix aead peer
                                operation pair.0.size_bytes pair.1 d3 d4 transferred differ' f in
                            let (kept_file, kept) =
                              remove_lem c F root device_id m operation_id posix replace
                                operation.path
                                (temporary c F root device_id m operation_id operation) d4 differ
                                at5 in
                            let (placed, kept') =
                              publish_lem c F root device_id m operation_id posix operation.path
                                (temporary c F root device_id m operation_id operation) d5 at6 in
                            let (indexed, stored, untouched, marked, named, is_done_lem) =
                              finish_lem c F root device_id m operation_id operation pair.0
                                transferred d6 r6 in
                            let same_database : d.database ≡ d6.database =
                              ap (λ (s : Device F). s.database) (s1 ∙ s2 ∙ s3)
                              ∙ s4
                              ∙ kept
                              ∙ kept' in
                            record {
                              remote_file = pair.0;
                              hash = pair.1;
                              replace = replace;
                              transferred = transferred;
                              files =
                                  (F.create_dir_all d3.files
                                    (download_dir c F root device_id m operation_id)).0;
                              ciphertext = f.files.0;
                              contents = f.files.1;
                              indexed = indexed;
                              expected =
                                  remote_file_of-IsExpected remote_manifest operation
                                    (ap (λ r. r.1) at1);
                              fits =
                                  subst
                                    (λ s.
                                      Fits c F root device_id m operation_id pair.0.size_bytes s)
                                    (sym s1) fitting;
                              may_replace_lem =
                                  subst
                                    (λ s.
                                      MayReplace c F root device_id m operation_id operation s
                                        replace)
                                    (sym (s1 ∙ s2)) may;
                              fetched_lem = f.answered;
                              reported_size = f.reported_size;
                              reported_hash = f.reported_hash;
                              size_lem = sized;
                              hash_lem = hashed;
                              in_place =
                                  ap
                                    (λ s.
                                      F.contents s
                                        (to c F root device_id m operation_id operation.path))
                                    (sym untouched)
                                  ∙ placed
                                  ∙ kept_file
                                  ∙ stored_file;
                              indexed_lem =
                                  ap
                                    (λ s.
                                      upsert_file c.agent.core m.unix_now
                                        (downloaded_entry c F root device_id m operation_id
                                          operation.path pair.0 transferred)
                                        s)
                                    same_database
                                  ∙ stored;
                              marked = sym marked;
                            }

  -- A download that succeeds reports its operation as done.
  pub download_operation-reports :
      (peer : Peer) (remote_manifest : FolderManifest) (operation : SyncOperationRecord)
      (d d' : Device F) (result : TransferOperationResult)
      → download_operation c F root device_id m operation_id peer remote_manifest operation d
        ≡ (d', ok result)
      → (result.operation_id ≡ operation.id) × (is_done result ≡ true)
  unfolding download_operation
  download_operation-reports peer remote_manifest operation d d' result same =
      and_then-elim (lift (remote_file_of remote_manifest operation) d) _ same λ d1 pair at1 r1.
        and_then-elim
          (enforce_local_download_limit c F root device_id m operation_id operation.path
            pair.0.size_bytes d1)
          _ r1
          λ d2 x2 at2 r2.
            and_then-elim (may_replace c F root device_id m operation_id operation d2) _ r2
              λ d3 replace at3 r3.
                and_then-elim
                  (fetch c F root device_id m operation_id peer operation pair.0.size_bytes pair.1
                    d3)
                  _ r3
                  λ d4 transferred at4 r4.
                    and_then-elim
                      (remove_replaced c F root device_id m operation_id replace operation.path d4)
                      _ r4
                      λ d5 x5 at5 r5.
                        and_then-elim
                          (publish_download c F root device_id m operation_id operation.path
                            (download_path c F root device_id m operation_id operation.id) d5)
                          _ r5
                          λ d6 x6 at6 r6.
                            let (indexed, stored, untouched, marked, named, is_done_lem) =
                              finish_lem c F root device_id m operation_id operation pair.0
                                transferred d6 r6 in
                            (named, is_done_lem)
