-- ===== src/Agent/Commands/Download/Fetched.antt =====
-- What a fetch leaves, of crates/syncer-agent/src/main.rs.
use syncer.Prelude.{
  ℕ, ◌≡◌, ◌≢◌, sym, ap, ◌∙◌, String, List, Result, ok, map_err, map_err-eq-ok, ◌==◌, nat_eq,
  string_eq, beq→eq, length,
}
use syncer.Prelude.Texts.{Text}
use syncer.Core.StateDb.Records.{SyncOperationRecord}
use syncer.Agent.FileSystem.{FileSystem, IsPosix}
use syncer.Agent.Handler.{Device, ◌>>◌, pure, ask, require, with_files, put_files}
use syncer.Agent.Handler.Laws.{and_then-elim, require-eq-ok, ask-eq-ok, with_files-eq-ok}
use syncer.Agent.Crates.{HasAead}
use syncer.Agent.PeerClient.{PeerClientError, Peer, TransferredFile}
use syncer.Agent.PeerClient.Fetch.{fetch_file_to_path}
use syncer.Agent.PeerClient.Fetch.Laws.{fetch_file_to_path-IsFetched}
use syncer.Agent.PeerServer.{Moment}
use syncer.Agent.Commands.{
  TransferError, size_mismatch, hash_mismatch, filesystem, peer_client, CommandCrates,
}
use syncer.Agent.Commands.Download.{download_dir, encrypted_download_path, received, fetch}
use syncer.Agent.Commands.Download.Steps.{temporary}

module _ (c : CommandCrates) (F : FileSystem) (root : Text) (device_id : ℕ) (m : Moment)
    (operation_id : ℕ) where
  abbrev made : F.State → F.State
  made s = (F.create_dir_all s (download_dir c F root device_id m operation_id)).0

  abbrev encrypted : SyncOperationRecord → Text
  encrypted operation =
      encrypted_download_path c F root device_id m operation_id
        (temporary c F root device_id m operation_id operation)

  -- What the client gives, with the files as they are.
  abbrev pub client_answer :
      Peer
      → SyncOperationRecord
      → ℕ
      → F.State
      → Result PeerClientError (TransferredFile × (List ℕ × List ℕ))
  client_answer peer operation size s =
      fetch_file_to_path c.agent (F.output s (encrypted operation))
        (F.output s (temporary c F root device_id m operation_id operation)) peer operation.path
        size

  abbrev stored : SyncOperationRecord → List ℕ × List ℕ → Device F → Device F
  stored operation files d = record d {
    files =
        received c F root device_id m operation_id
          (temporary c F root device_id m operation_id operation) files.0 files.1 d.files;
  }

  -- The device when the fetched file is in the temporary file and nothing else has happened.
  abbrev pub fetched : SyncOperationRecord → Device F → List ℕ × List ℕ → Device F
  fetched operation d files = stored operation files (record d { files = made d.files })

  file_injective :
      (a b : TransferredFile)
      → (let r : Result TransferError TransferredFile = ok a in r ≡ ok b)
      → a ≡ b
  file_injective a b same = cc

  -- A fetch that succeeds from the device `d` to `d'`.
  pub record Fetches (peer : Peer) (operation : SyncOperationRecord) (size : ℕ) (hash : String)
      (d d' : Device F) (transferred : TransferredFile) : Type 0 where
    pub files : List ℕ × List ℕ
    pub answered : client_answer peer operation size (made d.files) ≡ ok (transferred, files)
    pub reported_size : transferred.size_bytes ≡ size
    pub reported_hash : transferred.content_hash ≡ hash
    pub after_lem : fetched operation d files ≡ d'

  fetched_pair :
      (peer : Peer) (operation : SyncOperationRecord) (size : ℕ) (hash : String)
      (d d1 d2 : Device F) (pair : TransferredFile × (List ℕ × List ℕ)) {d' : Device F}
      {transferred : TransferredFile}
      → record d { files = made d.files } ≡ d1
      → d1 ≡ d2
      → client_answer peer operation size d1.files ≡ ok pair
      → (put_files (stored operation pair.1 d2).files
            >> (require (pair.0.size_bytes == size) (size_mismatch size pair.0.size_bytes)
                >> (require (pair.0.content_hash == hash) hash_mismatch >> pure pair.0)))
          d2
        ≡ (d', ok transferred)
      → Fetches peer operation size hash d d' transferred
  fetched_pair peer operation size hash d d1 d2 (found, files) {d'} {transferred} s1 s2 answered
        same =
      let after : Device F = stored operation files d2 in
      and_then-elim (require (found.size_bytes == size) (size_mismatch size found.size_bytes) after)
        _ same
        λ d3 x3 at3 r3.
          and_then-elim (require (found.content_hash == hash) hash_mismatch d3) _ r3 λ d4 x4 at4 r4.
            let (sized, s3) =
              require-eq-ok (found.size_bytes == size) (size_mismatch size found.size_bytes) after
                at3 in
            let (hashed, s4) = require-eq-ok (found.content_hash == hash) hash_mismatch d3 at4 in
            let named : found ≡ transferred = file_injective found transferred (ap (λ r. r.1) r4) in
            record {
              files = files;
              answered =
                  ap (λ (s : Device F). client_answer peer operation size s.files) s1
                  ∙ answered
                  ∙ ap (λ f. ok (f, files)) named;
              reported_size =
                  ap (λ (f : TransferredFile). f.size_bytes) (sym named)
                  ∙ beq→eq found.size_bytes size sized;
              reported_hash =
                  ap (λ (f : TransferredFile). f.content_hash) (sym named)
                  ∙ beq→eq found.content_hash hash hashed;
              after_lem = ap (stored operation files) (s1 ∙ s2) ∙ s3 ∙ s4 ∙ ap (λ r. r.0) r4;
            }

  pub fetch-Fetches :
      (peer : Peer) (operation : SyncOperationRecord) (size : ℕ) (hash : String) (d : Device F)
      {d' : Device F} {transferred : TransferredFile}
      → fetch c F root device_id m operation_id peer operation size hash d ≡ (d', ok transferred)
      → Fetches peer operation size hash d d' transferred
  unfolding fetch
  fetch-Fetches peer operation size hash d {d'} {transferred} same =
      let dir = download_dir c F root device_id m operation_id in
      let query : Device F → Result TransferError (TransferredFile × (List ℕ × List ℕ)) =
        λ s. map_err peer_client (client_answer peer operation size s.files) in
      and_then-elim (with_files (λ s. F.create_dir_all s dir) (filesystem dir) d) _ same
        λ d1 x1 at1 r1. and_then-elim (ask query d1) _ r1 λ d2 pair at2 r2.
          let (s2, answered) = ask-eq-ok query d1 at2 in
          fetched_pair peer operation size hash d d1 d2 pair
            (with_files-eq-ok (λ s. F.create_dir_all s dir) (filesystem dir) d at1).0 s2
            (map_err-eq-ok peer_client _ answered) r2

  -- The contents of the temporary file, and what the client reports of them.
  pub contents_of_Fetches :
      IsPosix F
      → HasAead c.agent
      → (peer : Peer) (operation : SyncOperationRecord) (size : ℕ) (hash : String) (d d' : Device F)
        (transferred : TransferredFile)
      → temporary c F root device_id m operation_id operation ≢ encrypted operation
      → (f : Fetches peer operation size hash d d' transferred)
      → (F.contents d'.files (temporary c F root device_id m operation_id operation) ≡ ok f.files.1)
        × (length f.files.1 ≡ size)
        × (c.agent.core.blake3_hex f.files.1 ≡ hash)
        × (d.database ≡ d'.database)
  unfolding received
  contents_of_Fetches posix aead peer operation size hash d d' transferred differ f =
      let written =
        fetch_file_to_path-IsFetched c.agent (F.output (made d.files) (encrypted operation))
          (F.output (made d.files) (temporary c F root device_id m operation_id operation)) peer
          operation.path size aead f.answered in
      let part = temporary c F root device_id m operation_id operation in
      (
        ap (λ (s : Device F). F.contents s.files part) (sym f.after_lem)
            ∙ posix.contents-remove_file
                (F.store (F.store (made d.files) (encrypted operation) f.files.0) part f.files.1)
                part (encrypted operation) differ
            ∙ posix.contents-store (F.store (made d.files) (encrypted operation) f.files.0) part
                f.files.1,
        written.size_lem,
        sym written.hash_lem ∙ f.reported_hash,
        ap (λ (s : Device F). s.database) f.after_lem,
      )
