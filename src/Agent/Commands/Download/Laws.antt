-- ===== src/Agent/Commands/Download/Laws.antt =====
-- What a download has checked and done, of crates/syncer-agent/src/main.rs.
use syncer.Prelude.{
  ℕ, ◌≤◌, ◌≡◌, sym, ap, ◌∙◌, Bool, true, false, Bool-cases, inl, inr, List, Result, ok, err,
  map_err, map_err-eq-ok, leb, nat_eq, string_eq, if◌then◌else◌, arith,
}
use std.Path.{subst}
use syncer.Prelude.Texts.{Text}
use syncer.Core.FolderStore.{FolderDocument, read}
use syncer.Core.Limits.{remaining_bytes}
use syncer.Core.Manifest.{RelativePath}
use syncer.Core.StateDb.Files.{record_skipped_folder_limit}
use syncer.Core.StateDb.Files.Reads.{folder_status, list_files}
use syncer.Core.StateDb.Records.{FileRecord, FolderStatus, SyncOperationRecord}
use syncer.Core.StateDb.Tables.{StateDatabase}
use syncer.Agent.FileSystem.{FileSystem}
use syncer.Agent.Handler.{Device, pure, ask, require}
use syncer.Agent.Handler.Laws.{and_then-elim, require-eq-ok, ask-eq-ok}
use syncer.Agent.PeerServer.{Moment}
use syncer.Agent.Commands.{
  TransferError, local_target_exists, folder_limit_exceeded, filesystem, core, CommandCrates,
}
use syncer.Agent.Commands.Checks.{any_known}
use syncer.Agent.Commands.Download.{
  skip_download, enforce_local_download_limit, known_target, may_replace,
}

module _ (c : CommandCrates) (F : FileSystem) (root : Text) (device_id : ℕ) (m : Moment)
    (operation_id : ℕ) where
  abbrev to : RelativePath → Text
  to path = c.agent.core.push root path

  -- The incoming file fits what is left of the folder's limit.
  abbrev pub Fits : ℕ → Device F → Type 0
  Fits size d =
      (folder : FolderDocument) × (status : FolderStatus) × (read c.agent.core root d.folder_json
        ≡ ok folder)
      × (folder_status c.agent.core d.database ≡ ok status)
      × (size ≤ remaining_bytes folder.folder.size_limit status.indexed_bytes)

  le_of_leb : (a b : ℕ) → leb a b ≡ true → a ≤ b
  le_of_leb a b h = ground arith

  abbrev recorded : RelativePath → ℕ → Device F → Result TransferError StateDatabase
  recorded path size d = map_err core (
      record_skipped_folder_limit c.agent.core m.unix_now
        (record { operation_id = operation_id; path = path; size_bytes = size; queued_at = m.now })
        d.database)

  err-ne-ok :
      (e : TransferError) (done' : Unit {0})
      → (let r : Result TransferError (Unit {0}) = err e in r ≡ ok done')
      → ⊥
  err-ne-ok e done' same = cc

  skip_download-fails :
      (path : RelativePath) (size remaining : ℕ) (d : Device F) {d' : Device F} {tt' : Unit {0}}
      → skip_download c F root device_id m operation_id path size remaining d ≡ (d', ok tt')
      → ⊥
  unfolding skip_download
  skip_download-fails path size remaining d same =
      and_then-elim (ask (recorded path size) d) _ same
        λ d1 database at1 r1. err-ne-ok (folder_limit_exceeded remaining size) _ (ap (λ r. r.1) r1)

  limit_branch :
      (path : RelativePath) (size remaining : ℕ) (d : Device F) {d' : Device F} {tt' : Unit {0}}
      → (if leb size remaining
            then pure tt
            else skip_download c F root device_id m operation_id path size remaining)
          d
        ≡ (d', ok tt')
      → (d ≡ d') × (size ≤ remaining)
  limit_branch path size remaining d same = elim (Bool-cases (leb size remaining)) [
    | inl fits ↦ (ap (λ r. r.0) (rw fits at same), le_of_leb size remaining fits)
    | inr over ↦ absurd (skip_download-fails path size remaining d (rw over at same))
  ]

  pub enforce-Fits :
      (path : RelativePath) (size : ℕ) (d : Device F) {d' : Device F} {tt' : Unit {0}}
      → enforce_local_download_limit c F root device_id m operation_id path size d ≡ (d', ok tt')
      → (d ≡ d') × Fits size d
  unfolding enforce_local_download_limit
  enforce-Fits path size d same =
      and_then-elim (ask (λ s. map_err core (read c.agent.core root s.folder_json)) d) _ same
        λ d1 folder at1 r1.
          and_then-elim (ask (λ s. map_err core (folder_status c.agent.core s.database)) d1) _ r1
            λ d2 status at2 r2.
              let (s1, found) =
                ask-eq-ok (λ s. map_err core (read c.agent.core root s.folder_json)) d at1 in
              let (s2, counted) =
                ask-eq-ok (λ s. map_err core (folder_status c.agent.core s.database)) d1 at2 in
              let (s3, fits) =
                limit_branch path size
                  (remaining_bytes folder.folder.size_limit status.indexed_bytes) d2 r2 in
              (
                s1 ∙ s2 ∙ s3,
                (
                  folder,
                  status,
                  map_err-eq-ok core _ found,
                  ap (λ (s : Device F). folder_status c.agent.core s.database) s1
                      ∙ map_err-eq-ok core _ counted,
                  fits,
                ),
              )

  -- A file at the target is replaced only if the database has it as the operation knows it.
  abbrev pub MayReplace : SyncOperationRecord → Device F → Bool → Type 0
  MayReplace operation d false = F.try_exists d.files (to operation.path) ≡ ok false
  MayReplace operation d true =
      (files : List FileRecord) × (F.try_exists d.files (to operation.path) ≡ ok true)
      × (list_files c.agent.core d.database ≡ ok files)
      × (any_known operation files ≡ true)

  bool_injective :
      (replace : Bool)
      → (let r : Result TransferError Bool = ok true in r ≡ ok replace)
      → true ≡ replace
  bool_injective replace same = cc

  false_injective :
      (replace : Bool)
      → (let r : Result TransferError Bool = ok false in r ≡ ok replace)
      → false ≡ replace
  false_injective replace same = cc

  known_target_lem :
      (operation : SyncOperationRecord) (d : Device F) {d' : Device F} {replace : Bool}
      → F.try_exists d.files (to operation.path) ≡ ok true
      → known_target c F root device_id m operation_id operation d ≡ (d', ok replace)
      → (d ≡ d') × MayReplace operation d replace
  unfolding known_target
  known_target_lem operation d {d'} {replace} exists same =
      let query : Device F → Result TransferError (List FileRecord) =
        λ s. map_err core (list_files c.agent.core s.database) in
      and_then-elim (ask query d) _ same λ d1 files at1 r1.
        and_then-elim (require (any_known operation files) local_target_exists d1) _ r1
          λ d2 x2 at2 r2.
            let (s1, listed) = ask-eq-ok query d at1 in
            let (known, s2) =
              require-eq-ok (any_known operation files) local_target_exists d1 at2 in
            (
              s1 ∙ s2 ∙ ap (λ r. r.0) r2,
              subst (MayReplace operation d) (bool_injective replace (ap (λ r. r.1) r2))
                  (files, exists, map_err-eq-ok core _ listed, known),
            )

  exists_branch :
      (operation : SyncOperationRecord) (exists : Bool) (d : Device F) {d' : Device F}
      {replace : Bool}
      → F.try_exists d.files (to operation.path) ≡ ok exists
      → (if exists then known_target c F root device_id m operation_id operation else pure false) d
        ≡ (d', ok replace)
      → (d ≡ d') × MayReplace operation d replace
  exists_branch operation true d exists same = known_target_lem operation d exists same
  exists_branch operation false d {d'} {replace} exists same = (
    ap (λ r. r.0) same,
    subst (MayReplace operation d) (false_injective replace (ap (λ r. r.1) same)) exists,
  )

  pub may_replace_lem :
      (operation : SyncOperationRecord) (d : Device F) {d' : Device F} {replace : Bool}
      → may_replace c F root device_id m operation_id operation d ≡ (d', ok replace)
      → (d ≡ d') × MayReplace operation d replace
  unfolding may_replace
  may_replace_lem operation d {d'} {replace} same =
      let query : Device F → Result TransferError Bool =
        λ s. map_err (filesystem (to operation.path)) (F.try_exists s.files (to operation.path)) in
      and_then-elim (ask query d) _ same λ d1 exists at1 r1.
        let (s1, looked) = ask-eq-ok query d at1 in
        let found = map_err-eq-ok (filesystem (to operation.path)) _ looked in
        let (s2, may) =
          exists_branch operation exists d1
            (subst (λ (s : Device F). F.try_exists s.files (to operation.path) ≡ ok exists) s1
              found)
            r1 in
        (s1 ∙ s2, subst (λ s. MayReplace operation s replace) (sym s1) may)
