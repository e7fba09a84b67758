-- ===== src/Agent/PeerServer/Folder/Delete.antt =====
-- Deletion on request, of crates/syncer-agent/src/peer_server.rs.
use syncer.Prelude.{
  ℕ, ◌≡◌, ◌⊎◌, inl, inr, sym, ap, ◌∙◌, true, false, ◌&&◌, Bool-cases, Option, none, some, ok, ok_or,
  ◌==◌, nat_eq, arith,
}
use syncer.Prelude.Paths.Same.{IsSamePath}
use syncer.Prelude.Texts.{Text, text_eq}
use syncer.Core.Manifest.{RelativePath}
use syncer.Core.StateDb.Records.{FileRecord}
use syncer.Agent.FileSystem.{FileSystem}
use syncer.Agent.Handler.{Device, Handler, and_then, lift, require, pure, ◌>>◌, ◌>>=◌}
use syncer.Agent.Handler.Laws.{and_then-eq-ok, ending, scan_device-files}
use syncer.Agent.Manifests.{find_record, is_file, is_local_available, hash_is}
use syncer.Agent.Manifests.Laws.{find_record-path}
use syncer.Agent.PeerServer.{PeerServerError, PeerServerConfig, ServerCrates, Moment, not_found}
use syncer.Agent.PeerServer.Folder.{export_folder, find_shared, delete_found, delete_shared_file}
use syncer.Core.StateDb.Records.{FolderManifest}

module _ (c : ServerCrates) (F : FileSystem) (config : PeerServerConfig) (m : Moment) where
  pub export_folder-files : (d : Device F) → (export_folder c F config m d).0.files ≡ d.files
  unfolding export_folder
  export_folder-files d = ground (
    arith,
    scan_device-files c.agent.core config.folder_path config.profile.device_id m.now m.unix_now d,
  )

  pub find_shared-files :
      (path : RelativePath) (d : Device F) → (find_shared c F config m path d).0.files ≡ d.files
  unfolding find_shared
  find_shared-files path d = ground (arith, export_folder-files d)

  -- The first record at the path in the manifest that a scan of the device gives, of a file that is there.
  pub record IsShared (path : RelativePath) (d : Device F) (found : FileRecord) : Type 0 where
    pub scanned : Device F
    pub exported : FolderManifest
    pub manifest_lem : export_folder c F config m d ≡ (scanned, ok exported)
    pub listed : find_record path exported.files ≡ some found
    pub at_path : IsSamePath found.path path
    pub a_file : is_file found.kind ≡ true
    pub available : is_local_available found.sync_state ≡ true

  abbrev checked : FileRecord → Handler F PeerServerError FileRecord
  checked record' = do
    require (is_file record'.kind && is_local_available record'.sync_state) not_found
    pure record'

  checked_record :
      (o : Option FileRecord) (s : Device F) {d' : Device F} {found : FileRecord}
      → (lift (ok_or not_found o) >>= checked) s ≡ (d', ok found)
      → (o ≡ some found)
        × (is_file found.kind ≡ true)
        × (is_local_available found.sync_state ≡ true)
  checked_record none s {d'} {found} same = ground arith
  checked_record (some record') s {d'} {found} same = ground arith

  pub find_shared-IsShared :
      (path : RelativePath) (d : Device F) {d' : Device F} {found : FileRecord}
      → find_shared c F config m path d ≡ (d', ok found)
      → IsShared path d found
  unfolding find_shared
  find_shared-IsShared path d {d'} {found} same =
      let (s, manifest, exported, r1) = and_then-eq-ok (export_folder c F config m d) _ same in
      let (looked, a_file, available) = checked_record (find_record path manifest.files) s r1 in
      record {
        scanned = s;
        exported = manifest;
        manifest_lem = exported;
        listed = looked;
        at_path = find_record-path path manifest.files found looked;
        a_file = a_file;
        available = available;
      }

  delete_found-mismatch :
      (path : RelativePath) (size : ℕ) (hash : Text) (found : FileRecord) (s : Device F)
      → ((found.size_bytes == size) && hash_is found.content_hash hash) ≡ false
      → (delete_found c F config m path size hash found s).0.files ≡ s.files
  unfolding delete_found
  delete_found-mismatch path size hash found s other = ground arith

  delete_found-match :
      (path : RelativePath) (size : ℕ) (hash : Text) (found : FileRecord) (s : Device F)
      → ((found.size_bytes == size) && hash_is found.content_hash hash) ≡ true
      → (found.size_bytes ≡ size)
        × (hash_is found.content_hash hash ≡ true)
        × ((delete_found c F config m path size hash found s).0.files
            ≡ (F.remove_file s.files (c.agent.core.push config.folder_path path)).0)
  unfolding delete_found
  delete_found-match path size hash found s same = (ground arith, ground arith, ground arith)

  -- The files change only by the removal of the requested path, and only where the scan found a file
  -- there that is available and has exactly the size and the hash of the request; then they change by
  -- that removal, whether it succeeds or not.
  pub delete_shared_file-files :
      (path : RelativePath) (expected_size : ℕ) (expected_hash : Text) (d : Device F)
      → (let after = (delete_shared_file c F config m path expected_size expected_hash d).0 in
          (after.files ≡ d.files)
          ⊎ ((found : FileRecord) × IsShared path d found
              × (found.size_bytes ≡ expected_size)
              × (hash_is found.content_hash expected_hash ≡ true)
              × (after.files
                  ≡ (F.remove_file d.files (c.agent.core.push config.folder_path path)).0)))
  unfolding delete_shared_file
  delete_shared_file-files path expected_size expected_hash d =
      elim (ending (find_shared c F config m path d)) [
        | inl (s, e, failed) ↦ inl (
            ap
              (λ r.
                (and_then r (delete_found c F config m path expected_size expected_hash)).0.files)
              failed
            ∙ sym (ap (λ r. r.0.files) failed)
            ∙ find_shared-files path d)
        | inr (s, found, shared) ↦
            let same = sym (ap (λ r. r.0.files) shared) ∙ find_shared-files path d in
            let step =
              ap
                (λ r.
                  (and_then r (delete_found c F config m path expected_size expected_hash)).0.files)
                shared in
            elim (Bool-cases
              ((found.size_bytes == expected_size) && hash_is found.content_hash expected_hash)) [
                | inr other ↦ inl (
                    step
                    ∙ delete_found-mismatch path expected_size expected_hash found s other
                    ∙ same)
                | inl match ↦
                    let (size, hash, removed) =
                      delete_found-match path expected_size expected_hash found s match in
                    inr (
                      found,
                      find_shared-IsShared path d shared,
                      size,
                      hash,
                      step
                          ∙ removed
                          ∙ ap
                              (λ files.
                                (F.remove_file files (c.agent.core.push config.folder_path path)).0)
                              same,
                    )
              ]
      ]
