-- ===== src/Core/FolderStore/Laws.antt =====
-- Reading and writing `.syncer/folder.json`, of crates/syncer-core/src/folder_store.rs.
use syncer.Prelude.{
  ◌≡◌, ◌↔◌, ◌⊎◌, inl, inr, Bool-cases, true, false, refl, ok, err, ◌>>=◌, ◌==◌, nat_eq, arith,
}
use syncer.Prelude.Texts.{Text}
use syncer.Crates.{Crates}
use syncer.Core.Error.{CoreError, unsupported_folder_schema}
use syncer.Core.JsonFile.{
  JsonFile, absent, unreadable, malformed, holds, JsonDisk, Writing, succeeds, no_directory,
  not_serialized, not_written, not_renamed,
}
use syncer.Core.FolderStore.{
  FolderDocument, validate_document, parse_folder_json, read, write, write_steps,
}

module _ (c : Crates) (root : Text) where
  read_target_iff :
      (target : JsonFile FolderDocument) (document : FolderDocument)
      → ((do found ← parse_folder_json c root target; validated ← validate_document found; ok found)
          ≡ ok document)
        ↔ ((target ≡ holds document) × (document.schema_version ≡ 1))
  unfolding parse_folder_json validate_document
  read_target_iff absent document = (λ h. cc, λ h. cc (h.0))
  read_target_iff (unreadable message) document = (λ h. cc, λ h. cc (h.0))
  read_target_iff (malformed message) document = (λ h. cc, λ h. cc (h.0))
  read_target_iff (holds found) document = (λ h. ground arith, λ h. ground (arith, h.0, h.1))

  -- A document is read exactly when the file holds it and its schema version is 1.
  pub read_iff :
      (disk : JsonDisk FolderDocument) (document : FolderDocument)
      → (read c root disk ≡ ok document)
        ↔ ((disk.target ≡ holds document) × (document.schema_version ≡ 1))
  unfolding read
  read_iff disk document = read_target_iff disk.target document

  write_steps-target :
      (document : FolderDocument) (writing : Writing FolderDocument)
      (disk : JsonDisk FolderDocument)
      → (((write_steps c root document writing disk).1 ≡ ok tt)
          × ((write_steps c root document writing disk).0.target ≡ holds document))
        ⊎ ((e : CoreError) × ((write_steps c root document writing disk).1 ≡ err e)
            × ((write_steps c root document writing disk).0.target ≡ disk.target))
  unfolding write_steps
  write_steps-target document succeeds disk = inl (refl, refl)
  write_steps-target document (no_directory message) disk = inr (_, refl, refl)
  write_steps-target document (not_serialized message) disk = inr (_, refl, refl)
  write_steps-target document (not_written message left) disk = inr (_, refl, refl)
  write_steps-target document (not_renamed message) disk = inr (_, refl, refl)

  write-valid :
      (document : FolderDocument) (writing : Writing FolderDocument)
      (disk : JsonDisk FolderDocument)
      → (document.schema_version == 1) ≡ true
      → write c root document writing disk ≡ write_steps c root document writing disk
  unfolding write validate_document
  write-valid document writing disk same = rw (same, write) refl

  write-invalid :
      (document : FolderDocument) (writing : Writing FolderDocument)
      (disk : JsonDisk FolderDocument)
      → (document.schema_version == 1) ≡ false
      → write c root document writing disk
        ≡ (disk, err (unsupported_folder_schema document.schema_version))
  unfolding write validate_document
  write-invalid document writing disk other = rw (other, write) refl

  -- Writing a folder document either succeeds, and then the document is the one that is read next and
  -- its schema version is 1, or fails and leaves `folder.json` as it was, whichever step fails.
  pub write-read :
      (document : FolderDocument) (writing : Writing FolderDocument)
      (disk : JsonDisk FolderDocument)
      → (((write c root document writing disk).1 ≡ ok tt)
          × (read c root (write c root document writing disk).0 ≡ ok document)
          × (document.schema_version ≡ 1))
        ⊎ ((e : CoreError) × ((write c root document writing disk).1 ≡ err e)
            × ((write c root document writing disk).0.target ≡ disk.target))
  write-read document writing disk = elim (Bool-cases (document.schema_version == 1)) [
    | inr other ↦ rw (write-invalid document writing disk other) (inr (_, refl, refl))
    | inl same ↦
        let version : document.schema_version ≡ 1 = ground arith in
        rw (write-valid document writing disk same)
          (elim (write_steps-target document writing disk) [
            | inl (done, stored) ↦ inl (done, (read_iff _ document).1 (stored, version), version)
            | inr (e, failed, kept) ↦ inr (e, failed, kept)
          ])
  ]
