-- ===== src/Agent/PeerServer/Folder.antt =====
-- crates/syncer-agent/src/peer_server.rs: what a request does to the shared folder.
pub mod Delete
pub mod Steps
pub mod Upload
use syncer.Prelude.{
  ℕ, ◌∷◌, ◌++◌, String, Bool, true, false, not, ◌&&◌, ◌||◌, Option, none, some, List, [], Result,
  ok, err, ok_or, map_err, leb, ◌==◌, nat_eq, if◌then◌else◌,
}
use syncer.Prelude.Texts.{Text, text_eq, codes}
use syncer.Core.FolderStore.{FolderDocument, syncer_dir, read}
use syncer.Core.Limits.{remaining_bytes}
use syncer.Core.Manifest.{RelativePath, FileEntry, file}
use syncer.Core.StateDb.Files.{upsert_file, forget_file}
use syncer.Core.StateDb.Files.Reads.{folder_status, export_manifest}
use syncer.Core.StateDb.Records.{FileRecord, FolderManifest}
use syncer.Agent.FileSystem.{FileSystem}
use syncer.Agent.Handler.{
  Device, Handler, ◌>>=◌, ◌>>◌, pure, fail, lift, ask, require, with_files, put_files, put_database,
  scan_device,
}
use syncer.Agent.Manifests.{find_record, is_file, is_local_available, hash_is}
use syncer.Agent.PeerCrypto.{CryptographicFile, encrypted_len, decrypt_file_to_path}
use syncer.Agent.PeerServer.{
  PeerServerError, filesystem, core, invalid_request, not_found, conflict, hash_mismatch,
  folder_limit_exceeded, peer_crypto, FileBody, SharedFile, UploadEncryption, UploadFileResponse,
  DeleteFileResponse, PeerServerConfig, ServerCrates, Moment,
}

module _ (c : ServerCrates) (F : FileSystem) (config : PeerServerConfig) (m : Moment) where
  abbrev pub Serve : Type 0 → Type 0
  Serve A = Handler F PeerServerError A

  abbrev pub join : RelativePath → Text
  join path = c.agent.core.push config.folder_path path

  -- `export_manifest`: a scan, and the records of the database.
  unfoldable pub export_folder : Serve FolderManifest
  unfolding read scan_device export_manifest
  export_folder = do
    folder ← ask λ d. map_err core (read c.agent.core config.folder_path d.folder_json)
    scanned ← λ d.
        let (d', summary) =
          scan_device c.agent.core config.folder_path config.profile.device_id m.now m.unix_now d in
        (d', map_err core summary)
    ask λ d.
        map_err core
          (export_manifest c.agent.core m.now folder.folder.id config.profile.device_id d.database)

  -- The file of a path that may be sent or deleted.
  unfoldable pub find_shared : RelativePath → Serve FileRecord
  unfolding export_folder find_record is_file is_local_available
  find_shared path = do
    manifest ← export_folder
    found ← lift (ok_or not_found (find_record path manifest.files))
    require (is_file found.kind && is_local_available found.sync_state) not_found
    pure found

  unfoldable pub shared_file : RelativePath → Serve SharedFile
  unfolding find_shared
  shared_file path = do
    found ← find_shared path
    content_hash ← lift (ok_or invalid_request found.content_hash)
    pure (record { path = join path; size_bytes = found.size_bytes; content_hash = content_hash })

  unfoldable pub enforce_folder_limit : ℕ → Serve (Unit {0})
  unfolding read folder_status remaining_bytes
  enforce_folder_limit incoming_size = do
    folder ← ask λ d. map_err core (read c.agent.core config.folder_path d.folder_json)
    status ← ask λ d. map_err core (folder_status c.agent.core d.database)
    let remaining = remaining_bytes folder.folder.size_limit status.indexed_bytes
    require (leb incoming_size remaining) (folder_limit_exceeded remaining incoming_size)

  unfoldable pub publish_uploaded_file : RelativePath → Text → Serve (Unit {0})
  publish_uploaded_file path temporary = do
    with_files (λ s. F.create_dir_all s (c.parent (join path))) (filesystem (c.parent (join path)))
    with_files (λ s. F.rename s temporary (join path)) (filesystem (join path))

  unfoldable pub plaintext_dir : Text
  plaintext_dir =
      c.agent.core.push
        (c.agent.core.push (syncer_dir c.agent.core config.folder_path) (codes "tmp"))
        (codes "requests")

  unfoldable pub plaintext_path : Text
  plaintext_path = c.agent.core.push plaintext_dir (m.fresh ++ codes ".plain")

  -- `decrypt_file_to_path` into the temporary file.
  unfoldable pub decrypt_body :
      RelativePath → ℕ → Text → UploadEncryption → FileBody → Serve CryptographicFile
  decrypt_body path expected_size expected_hash encryption body = do
    (decrypted, plaintext) ← ask λ d. map_err peer_crypto (
        decrypt_file_to_path c.agent (ok body.contents) (F.output d.files plaintext_path)
          encryption.shared_secret_hex encryption.nonce_hex
          (record {
            direction = codes "upload";
            path = path;
            content_hash = expected_hash;
            plaintext_size = expected_size;
          }))
    λ d. put_files (F.store d.files plaintext_path plaintext) d
    pure decrypted

  unfoldable pub uploaded_entry : RelativePath → ℕ → String → FileEntry
  uploaded_entry path size content_hash = record {
    path = path;
    kind = file;
    size_bytes = size;
    modified_at = m.now;
    content_hash = some content_hash;
    block_hashes = [];
    version = record { generation = 1; device_id = config.profile.device_id };
  }

  -- The checks between decryption and publication.
  unfoldable pub check_upload : RelativePath → ℕ → Text → CryptographicFile → Serve (Unit {0})
  unfolding enforce_folder_limit
  check_upload path expected_size expected_hash decrypted = do
    require (codes decrypted.content_hash == expected_hash) hash_mismatch
    enforce_folder_limit expected_size
    exists ← ask λ d. map_err (filesystem (join path)) (F.try_exists d.files (join path))
    require (not exists) conflict

  -- The new record and the answer, once the file is in place.
  unfoldable pub index_upload :
      RelativePath → ℕ → Text → CryptographicFile → Serve UploadFileResponse
  unfolding read upsert_file uploaded_entry
  index_upload path expected_size expected_hash decrypted = do
    folder ← ask λ d. map_err core (read c.agent.core config.folder_path d.folder_json)
    database ← ask λ d. map_err core (
        upsert_file c.agent.core m.unix_now
          (uploaded_entry path expected_size decrypted.content_hash) d.database)
    put_database database
    pure (record {
      accepted = true;
      path = path;
      size_bytes = expected_size;
      content_hash = expected_hash;
    })

  unfoldable pub write_uploaded_file :
      RelativePath → ℕ → Text → UploadEncryption → FileBody → Serve UploadFileResponse
  unfolding publish_uploaded_file decrypt_body check_upload index_upload encrypted_len
  write_uploaded_file path expected_size expected_hash encryption body = do
    require (body.size_bytes == encrypted_len expected_size) invalid_request
    with_files (λ s. F.create_dir_all s plaintext_dir) (filesystem plaintext_dir)
    decrypted ← decrypt_body path expected_size expected_hash encryption body
    check_upload path expected_size expected_hash decrypted
    publish_uploaded_file path plaintext_path
    index_upload path expected_size expected_hash decrypted

  -- What follows when the file has been found.
  unfoldable pub delete_found : RelativePath → ℕ → Text → FileRecord → Serve DeleteFileResponse
  unfolding hash_is forget_file
  delete_found path expected_size expected_hash found = do
    require ((found.size_bytes == expected_size) && hash_is found.content_hash expected_hash)
        conflict
    with_files (λ s. F.remove_file s (join path)) (filesystem (join path))
    λ d. put_database (forget_file path d.database) d
    pure (record {
      accepted = true;
      path = path;
      size_bytes = expected_size;
      content_hash = expected_hash;
    })

  unfoldable pub delete_shared_file : RelativePath → ℕ → Text → Serve DeleteFileResponse
  unfolding find_shared delete_found
  delete_shared_file path expected_size expected_hash = do
    found ← find_shared path
    delete_found path expected_size expected_hash found
