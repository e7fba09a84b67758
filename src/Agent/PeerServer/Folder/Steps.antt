-- ===== src/Agent/PeerServer/Folder/Steps.antt =====
-- What the steps of an upload have checked and done, of crates/syncer-agent/src/peer_server.rs.
use syncer.Prelude.{
  ℕ, ◌≤◌, ◌≡◌, refl, sym, ap, ◌∙◌, Bool, true, false, not, List, Result, ok_injective, ok, map_err,
  map_err-eq-ok, leb, ◌==◌, nat_eq, beq→eq, codes, arith,
}
use std.Path.{subst}
use syncer.Prelude.Texts.{Text, text_eq}
use syncer.Core.FolderStore.{FolderDocument, read}
use syncer.Core.Limits.{remaining_bytes}
use syncer.Core.Manifest.{RelativePath}
use syncer.Core.StateDb.Files.{upsert_file}
use syncer.Core.StateDb.Files.Reads.{folder_status}
use syncer.Core.StateDb.Records.{FolderStatus}
use syncer.Core.StateDb.Tables.{StateDatabase}
use syncer.Agent.FileSystem.{FileSystem, IsPosix}
use syncer.Agent.Handler.{Device, ask, require, with_files}
use syncer.Agent.Handler.Laws.{
  and_then-eq-ok, and_then-elim, require-eq-ok, ask-eq-ok, with_files-eq-ok,
}
use syncer.Agent.PeerCrypto.{CryptographicFile, FileCipherContext, decrypt_file_to_path}
use syncer.Agent.PeerServer.{
  PeerServerError, filesystem, core, conflict, hash_mismatch, folder_limit_exceeded, peer_crypto,
  FileBody, UploadEncryption, UploadFileResponse, PeerServerConfig, ServerCrates, Moment,
}
use syncer.Agent.PeerServer.Folder.{
  enforce_folder_limit, publish_uploaded_file, plaintext_path, decrypt_body, uploaded_entry,
  check_upload, index_upload,
}

module _ (c : ServerCrates) (F : FileSystem) (config : PeerServerConfig) (m : Moment) where
  abbrev pub target : RelativePath → Text
  target path = c.agent.core.push config.folder_path path

  -- The incoming file fits what is left of the folder's limit.
  abbrev pub Fits : ℕ → Device F → Type 0
  Fits size d =
      (folder : FolderDocument) × (status : FolderStatus) × (read c.agent.core config.folder_path
          d.folder_json
        ≡ ok folder)
      × (folder_status c.agent.core d.database ≡ ok status)
      × (size ≤ remaining_bytes folder.folder.size_limit status.indexed_bytes)

  le_of_leb : (a b : ℕ) → leb a b ≡ true → a ≤ b
  le_of_leb a b h = ground arith

  enforce-Fits :
      (size : ℕ) (d : Device F) {d' : Device F} {done : Unit {0}}
      → enforce_folder_limit c F config m size d ≡ (d', ok done)
      → (d ≡ d') × Fits size d
  unfolding enforce_folder_limit
  enforce-Fits size d same =
      let (d1, folder, at1, r1) =
        and_then-eq-ok
          (ask (λ s. map_err core (read c.agent.core config.folder_path s.folder_json)) d) _ same in
      let (s1, found) =
        ask-eq-ok (λ s. map_err core (read c.agent.core config.folder_path s.folder_json)) d at1 in
      let (d2, status, at2, r2) =
        and_then-eq-ok (ask (λ s. map_err core (folder_status c.agent.core s.database)) d1) _ r1 in
      let (s2, counted) =
        ask-eq-ok (λ s. map_err core (folder_status c.agent.core s.database)) d1 at2 in
      let remaining = remaining_bytes folder.folder.size_limit status.indexed_bytes in
      let (fits, s3) =
        require-eq-ok (leb size remaining) (folder_limit_exceeded remaining size) d2 r2 in
      (
        s1 ∙ s2 ∙ s3,
        (
          folder,
          status,
          map_err-eq-ok core _ found,
          ap (λ (s : Device F). folder_status c.agent.core s.database) s1
              ∙ map_err-eq-ok core _ counted,
          le_of_leb size remaining fits,
        ),
      )

  pub publish-contents :
      IsPosix F
      → (path : RelativePath) (temporary : Text) (d : Device F) {d' : Device F} {done : Unit {0}}
      → publish_uploaded_file c F config m path temporary d ≡ (d', ok done)
      → (F.contents d'.files (target path) ≡ F.contents d.files temporary)
        × (d.database ≡ d'.database)
        × (d.folder_json ≡ d'.folder_json)
  unfolding publish_uploaded_file
  publish-contents posix path temporary d same =
      let parent = c.parent (target path) in
      let (d1, made, at1, r1) =
        and_then-eq-ok (with_files (λ s. F.create_dir_all s parent) (filesystem parent) d) _ same in
      let (s1, created) =
        with_files-eq-ok (λ s. F.create_dir_all s parent) (filesystem parent) d at1 in
      let (s2, renamed) =
        with_files-eq-ok (λ s. F.rename s temporary (target path)) (filesystem (target path)) d1
          r1 in
      (
        ap (λ (s : Device F). F.contents s.files (target path)) (sym s2)
            ∙ posix.contents-rename d1.files temporary (target path) renamed
            ∙ ap (λ (s : Device F). F.contents s.files temporary) (sym s1)
            ∙ posix.contents-create_dir_all d.files temporary parent,
        ap (λ (s : Device F). s.database) s1 ∙ ap (λ (s : Device F). s.database) s2,
        ap (λ (s : Device F). s.folder_json) s1 ∙ ap (λ (s : Device F). s.folder_json) s2,
      )

  abbrev pub context : RelativePath → ℕ → Text → FileCipherContext
  context path size hash = record {
    direction = codes "upload";
    path = path;
    content_hash = hash;
    plaintext_size = size;
  }

  abbrev pub store_plaintext : Device F → List ℕ → Device F
  store_plaintext d plaintext = record d {
    files = F.store d.files (plaintext_path c F config m) plaintext;
  }

  stored :
      (path : RelativePath) (size : ℕ) (hash : Text) (encryption : UploadEncryption)
      (body : FileBody) (d d1 : Device F) (pair : CryptographicFile × List ℕ) {d' : Device F}
      {file : CryptographicFile}
      → map_err peer_crypto (
          decrypt_file_to_path c.agent
            (ok body.contents)
            (F.output d.files (plaintext_path c F config m))
            encryption.shared_secret_hex
            encryption.nonce_hex
            (context path size hash))
        ≡ ok pair
      → d ≡ d1
      → (let r : Device F × Result PeerServerError CryptographicFile =
            (store_plaintext d1 pair.1, ok pair.0) in
          r ≡ (d', ok file))
      → (plaintext : List ℕ) × (decrypt_file_to_path c.agent
            (ok body.contents)
            (F.output d.files (plaintext_path c F config m))
            encryption.shared_secret_hex
            encryption.nonce_hex
            (context path size hash)
          ≡ ok (file, plaintext))
        × (store_plaintext d plaintext ≡ d')
  stored path size hash encryption body d d1 (found, plaintext) {d'} {file} decrypted at_d same =
      let named : found ≡ file = ok_injective found file (ap (λ r. r.1) same) in
      (
        plaintext,
        map_err-eq-ok peer_crypto _ decrypted ∙ ap (λ f. ok (f, plaintext)) named,
        ap (λ s. store_plaintext s plaintext) at_d ∙ ap (λ r. r.0) same,
      )

  pub decrypt_body-store :
      (path : RelativePath) (size : ℕ) (hash : Text) (encryption : UploadEncryption)
      (body : FileBody) (d : Device F) {d' : Device F} {file : CryptographicFile}
      → decrypt_body c F config m path size hash encryption body d ≡ (d', ok file)
      → (plaintext : List ℕ) × (decrypt_file_to_path c.agent
            (ok body.contents)
            (F.output d.files (plaintext_path c F config m))
            encryption.shared_secret_hex
            encryption.nonce_hex
            (context path size hash)
          ≡ ok (file, plaintext))
        × (store_plaintext d plaintext ≡ d')
  unfolding decrypt_body
  decrypt_body-store path size hash encryption body d same =
      let query : Device F → Result PeerServerError (CryptographicFile × List ℕ) = λ s.
        map_err peer_crypto (
          decrypt_file_to_path c.agent (ok body.contents)
            (F.output s.files (plaintext_path c F config m)) encryption.shared_secret_hex
            encryption.nonce_hex (context path size hash)) in
      let (d1, pair, at1, r1) = and_then-eq-ok (ask query d) _ same in
      let (s1, decrypted) = ask-eq-ok query d at1 in
      stored path size hash encryption body d d1 pair decrypted s1 r1

  not_true_lem : not true ≡ true → ⊥
  not_true_lem same = cc

  not_exists : (exists : Bool) → not exists ≡ true → exists ≡ false
  not_exists true absent = absurd (not_true_lem absent)
  not_exists false absent = refl

  abbrev looked : RelativePath → Device F → Result PeerServerError Bool
  looked path s = map_err (filesystem (target path)) (F.try_exists s.files (target path))

  abbrev reading : Device F → Result PeerServerError FolderDocument
  reading s = map_err core (read c.agent.core config.folder_path s.folder_json)

  abbrev upserted :
      RelativePath → ℕ → CryptographicFile → Device F → Result PeerServerError StateDatabase
  upserted path size file s = map_err core (
      upsert_file c.agent.core m.unix_now (uploaded_entry c F config m path size file.content_hash)
        s.database)

  pub check_upload-passed :
      (path : RelativePath) (size : ℕ) (hash : Text) (file : CryptographicFile) (d : Device F)
      {d' : Device F} {done : Unit {0}}
      → check_upload c F config m path size hash file d ≡ (d', ok done)
      → (d ≡ d')
        × (codes file.content_hash ≡ hash)
        × Fits size d
        × (F.try_exists d.files (target path) ≡ ok false)
  unfolding check_upload
  check_upload-passed path size hash file d same =
      and_then-elim (require (codes file.content_hash == hash) hash_mismatch d) _ same
        λ d1 x1 at1 r1.
          and_then-elim (enforce_folder_limit c F config m size d1) _ r1 λ d2 x2 at2 r2.
            and_then-elim (ask (looked path) d2) _ r2 λ d3 exists at3 r3.
              let (hashed, s1) =
                require-eq-ok (codes file.content_hash == hash) hash_mismatch d at1 in
              let (s2, fitting) = enforce-Fits size d1 at2 in
              let (s3, found) = ask-eq-ok (looked path) d2 at3 in
              let (absent, s4) = require-eq-ok (not exists) conflict d3 r3 in
              let unchanged : d ≡ d2 = s1 ∙ s2 in
              (
                unchanged ∙ s3 ∙ s4,
                beq→eq (codes file.content_hash) hash hashed,
                subst (λ s. Fits size s) (sym s1) fitting,
                ap (λ (s : Device F). F.try_exists s.files (target path)) unchanged
                    ∙ map_err-eq-ok (filesystem (target path)) _ found
                    ∙ ap ok (not_exists exists absent),
              )

  pub index_upload-indexed :
      (path : RelativePath) (size : ℕ) (hash : Text) (file : CryptographicFile) (d : Device F)
      {d' : Device F} {response : UploadFileResponse}
      → index_upload c F config m path size hash file d ≡ (d', ok response)
      → (d.files ≡ d'.files)
        × (upsert_file c.agent.core m.unix_now
              (uploaded_entry c F config m path size file.content_hash)
              d.database
            ≡ ok d'.database)
  unfolding index_upload
  index_upload-indexed path size hash file d {d'} same =
      and_then-elim (ask reading d) _ same λ d1 folder at1 r1.
        and_then-elim (ask (upserted path size file) d1) _ r1 λ d2 database at2 r2.
          let (s1, known) = ask-eq-ok reading d at1 in
          let (s2, stored) = ask-eq-ok (upserted path size file) d1 at2 in
          let end : record d2 { database = database } ≡ d' = ap (λ r. r.0) r2 in
          (
            ap (λ (s : Device F). s.files) (s1 ∙ s2) ∙ ap (λ (s : Device F). s.files) end,
            ap
                  (λ (s : Device F).
                    upsert_file c.agent.core m.unix_now
                      (uploaded_entry c F config m path size file.content_hash) s.database)
                  s1
                ∙ map_err-eq-ok core _ stored
                ∙ ap (λ (s : Device F). ok s.database) end,
          )
