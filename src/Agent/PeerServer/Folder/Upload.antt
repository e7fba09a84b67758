-- ===== src/Agent/PeerServer/Folder/Upload.antt =====
-- Uploads, of crates/syncer-agent/src/peer_server.rs.
use syncer.Prelude.{ℕ, ◌≤◌, ◌≡◌, sym, ap, ◌∙◌, false, List, ok, ◌==◌, nat_eq, beq→eq, codes, length}
use syncer.Prelude.Words.{u64_max}
use syncer.Prelude.Texts.{Text, text_eq}
use syncer.Core.Manifest.{RelativePath}
use syncer.Core.StateDb.Files.{upsert_file}
use syncer.Agent.Crates.{HasAead}
use syncer.Agent.FileSystem.{FileSystem, IsPosix}
use syncer.Agent.Handler.{Device, require, with_files}
use syncer.Agent.Handler.Laws.{and_then-elim, require-eq-ok, with_files-eq-ok}
use syncer.Agent.PeerCrypto.{Output, CryptographicFile, encrypted_len, decrypt_file_to_path}
use syncer.Agent.PeerCrypto.Hashes.{decrypt_file-hash}
use syncer.Agent.PeerCrypto.Sizes.{decrypt_file-sizes}
use syncer.Agent.PeerServer.{
  filesystem, invalid_request, FileBody, UploadEncryption, UploadFileResponse, PeerServerConfig,
  ServerCrates, Moment,
}
use syncer.Agent.PeerServer.Folder.{
  publish_uploaded_file, plaintext_dir, plaintext_path, decrypt_body, uploaded_entry,
  write_uploaded_file, check_upload,
}
use syncer.Agent.PeerServer.Folder.Steps.{
  target, Fits, store_plaintext, context, decrypt_body-store, check_upload-passed, publish-contents,
  index_upload-indexed,
}

module _ (c : ServerCrates) (F : FileSystem) (config : PeerServerConfig) (m : Moment) where
  -- The device when the decrypted file has been stored and nothing else has happened.
  abbrev pub prepared : Device F → List ℕ → Device F
  prepared d plaintext =
      store_plaintext c F config m
        (record d { files = (F.create_dir_all d.files (plaintext_dir c F config m)).0 }) plaintext

  -- What holds once an upload has been accepted: the checks were made in the state `before` the file was
  -- put into place.
  pub record IsUploaded (path : RelativePath) (size : ℕ) (hash : Text)
      (encryption : UploadEncryption) (body : FileBody) (d d' : Device F) : Type 0 where
    pub before : Device F
    pub plaintext : List ℕ
    pub decrypted :
        (output : Output) × (found : CryptographicFile) × (decrypt_file_to_path c.agent
            (ok body.contents)
            output
            encryption.shared_secret_hex
            encryption.nonce_hex
            (context c F config m path size hash)
          ≡ ok (found, plaintext))
    pub before_lem : before ≡ prepared d plaintext
    pub body_size : body.size_bytes ≡ encrypted_len size
    pub plaintext_size : length plaintext ≡ size
    pub plaintext_hash : codes (c.agent.core.blake3_hex plaintext) ≡ hash
    pub was_absent : F.try_exists before.files (target c F config m path) ≡ ok false
    pub fits : Fits c F config m size before
    pub in_place : F.contents d'.files (target c F config m path) ≡ ok plaintext
    pub indexed :
        upsert_file c.agent.core m.unix_now
          (uploaded_entry c F config m path size (c.agent.core.blake3_hex plaintext))
          before.database
        ≡ ok d'.database

  -- Where an upload is accepted, its body is the ciphertext of a file of the size and the hash that the
  -- request states, the file fits what is left of the folder's limit, and no file was at its path; then
  -- that file is in place and in the database. The body is one of fewer than 2^64 bytes.
  pub write_uploaded_file-IsUploaded :
      HasAead c.agent
      → IsPosix F
      → (path : RelativePath) (size : ℕ) (hash : Text) (encryption : UploadEncryption)
        (body : FileBody) (d : Device F) {d' : Device F} {response : UploadFileResponse}
      → length body.contents ≤ u64_max
      → write_uploaded_file c F config m path size hash encryption body d ≡ (d', ok response)
      → IsUploaded path size hash encryption body d d'
  unfolding write_uploaded_file
  write_uploaded_file-IsUploaded aead posix path size hash encryption body d {d'} real same =
      let dir = plaintext_dir c F config m in
      let temporary = plaintext_path c F config m in
      and_then-elim (require (body.size_bytes == encrypted_len size) invalid_request d) _ same
        λ d1 x1 at1 r1.
          and_then-elim (with_files (λ s. F.create_dir_all s dir) (filesystem dir) d1) _ r1
            λ d2 x2 at2 r2.
              and_then-elim (decrypt_body c F config m path size hash encryption body d2) _ r2
                λ d3 file at3 r3.
                  and_then-elim (check_upload c F config m path size hash file d3) _ r3
                    λ d4 x4 at4 r4.
                      and_then-elim (publish_uploaded_file c F config m path temporary d4) _ r4
                        λ d5 x5 at5 r5.
                          let (sized, s1) =
                            require-eq-ok (body.size_bytes == encrypted_len size) invalid_request d
                              at1 in
                          let (s2, created) =
                            with_files-eq-ok (λ s. F.create_dir_all s dir) (filesystem dir) d1
                              at2 in
                          let (plaintext, decrypted, s3) =
                            decrypt_body-store c F config m path size hash encryption body d2 at3 in
                          let (s4, hashed, fitting, absent) =
                            check_upload-passed c F config m path size hash file d3 at4 in
                          let (placed, kept, kept_json) =
                            publish-contents c F config m posix path temporary d4 at5 in
                          let (untouched, stored) =
                            index_upload-indexed c F config m path size hash file d5 r5 in
                          let (long, reported, whole) =
                            decrypt_file-sizes c.agent body.contents (F.output d2.files temporary)
                              encryption.shared_secret_hex encryption.nonce_hex
                              (context c F config m path size hash) aead real decrypted in
                          let digest =
                            decrypt_file-hash c.agent body.contents (F.output d2.files temporary)
                              encryption.shared_secret_hex encryption.nonce_hex
                              (context c F config m path size hash) decrypted in
                          record {
                            before = d3;
                            plaintext = plaintext;
                            body_size = beq→eq body.size_bytes (encrypted_len size) sized;
                            plaintext_size = long;
                            plaintext_hash = ap codes (sym digest) ∙ hashed;
                            was_absent = absent;
                            fits = fitting;
                            decrypted = (F.output d2.files temporary, file, decrypted);
                            before_lem = sym (
                                ap (λ (s : Device F). prepared s plaintext) s1
                                ∙ ap (λ (s : Device F). store_plaintext c F config m s plaintext) s2
                                ∙ s3);
                            in_place =
                                ap (λ s. F.contents s (target c F config m path)) (sym untouched)
                                ∙ placed
                                ∙ ap (λ (s : Device F). F.contents s.files temporary)
                                    (sym (s3 ∙ s4))
                                ∙ posix.contents-store d2.files temporary plaintext;
                            indexed =
                                ap
                                  (λ h.
                                    upsert_file c.agent.core m.unix_now
                                      (uploaded_entry c F config m path size h) d3.database)
                                  (sym digest)
                                ∙ ap
                                    (λ s.
                                      upsert_file c.agent.core m.unix_now
                                        (uploaded_entry c F config m path size file.content_hash) s)
                                    (ap (λ (s : Device F). s.database) s4 ∙ kept)
                                ∙ stored;
                          }
