-- ===== src/Agent/Commands/Download/Steps.antt =====
-- What the steps of a download leave, of crates/syncer-agent/src/main.rs.
use syncer.Prelude.{
  ℕ, ◌≡◌, ◌≢◌, sym, ap, ◌∙◌, Bool, true, false, Result, ok, map_err, map_err-eq-ok, nat_eq,
  string_eq,
}
use syncer.Prelude.Texts.{Text}
use syncer.Core.Manifest.{RelativePath}
use syncer.Core.StateDb.Files.{upsert_file}
use syncer.Core.StateDb.Queue.Update.{mark_sync_operation_done}
use syncer.Core.StateDb.Records.{FileRecord, SyncOperationRecord}
use syncer.Core.StateDb.Tables.{StateDatabase}
use syncer.Agent.FileSystem.{FileSystem, IsPosix}
use syncer.Agent.Handler.{Device, ask, with_files}
use syncer.Agent.Handler.Laws.{and_then-elim, ask-eq-ok, with_files-eq-ok}
use syncer.Agent.PeerClient.{TransferredFile}
use syncer.Agent.PeerServer.{Moment}
use syncer.Agent.Commands.{TransferError, filesystem, core, TransferOperationResult, CommandCrates}
use syncer.Agent.Commands.Download.{
  download_path, remove_replaced, publish_download, downloaded_entry, finish_download,
}
use syncer.Agent.Commands.Queue.Accounts.{is_done}

module _ (c : CommandCrates) (F : FileSystem) (root : Text) (device_id : ℕ) (m : Moment)
    (operation_id : ℕ) where
  abbrev pub to : RelativePath → Text
  to path = c.agent.core.push root path

  abbrev pub temporary : SyncOperationRecord → Text
  temporary operation = download_path c F root device_id m operation_id operation.id

  result_injective :
      (a b : TransferOperationResult)
      → (let r : Result TransferError TransferOperationResult = ok a in r ≡ ok b)
      → a ≡ b
  result_injective a b same = cc

  pub publish_lem :
      IsPosix F
      → (path : RelativePath) (from : Text) (d : Device F) {d' : Device F} {tt' : Unit {0}}
      → publish_download c F root device_id m operation_id path from d ≡ (d', ok tt')
      → (F.contents d'.files (to path) ≡ F.contents d.files from) × (d.database ≡ d'.database)
  unfolding publish_download
  publish_lem posix path from d same =
      let parent = c.parent (to path) in
      and_then-elim (with_files (λ s. F.create_dir_all s parent) (filesystem parent) d) _ same
        λ d1 x1 at1 r1.
          let (s1, created) =
            with_files-eq-ok (λ s. F.create_dir_all s parent) (filesystem parent) d at1 in
          let (s2, renamed) =
            with_files-eq-ok (λ s. F.rename s from (to path)) (filesystem (to path)) d1 r1 in
          (
            ap (λ (s : Device F). F.contents s.files (to path)) (sym s2)
                ∙ posix.contents-rename d1.files from (to path) renamed
                ∙ ap (λ (s : Device F). F.contents s.files from) (sym s1)
                ∙ posix.contents-create_dir_all d.files from parent,
            ap (λ (s : Device F). s.database) s1 ∙ ap (λ (s : Device F). s.database) s2,
          )

  pub remove_lem :
      IsPosix F
      → (replace : Bool) (path : RelativePath) (other : Text) (d : Device F) {d' : Device F}
        {tt' : Unit {0}}
      → other ≢ to path
      → remove_replaced c F root device_id m operation_id replace path d ≡ (d', ok tt')
      → (F.contents d'.files other ≡ F.contents d.files other) × (d.database ≡ d'.database)
  unfolding remove_replaced
  remove_lem posix false path other d differ same =
      let end = ap (λ r. r.0) same in
      (
        ap (λ (s : Device F). F.contents s.files other) (sym end),
        ap (λ (s : Device F). s.database) end,
      )
  remove_lem posix true path other d differ same =
      let (end, removed) =
        with_files-eq-ok (λ s. F.remove_file s (to path)) (filesystem (to path)) d same in
      (
        ap (λ (s : Device F). F.contents s.files other) (sym end)
            ∙ posix.contents-remove_file d.files other (to path) differ,
        ap (λ (s : Device F). s.database) end,
      )

  pub finish_lem :
      (operation : SyncOperationRecord) (remote_file : FileRecord) (transferred : TransferredFile)
      (d : Device F) {d' : Device F} {result : TransferOperationResult}
      → finish_download c F root device_id m operation_id operation remote_file transferred d
        ≡ (d', ok result)
      → (indexed : StateDatabase) × (upsert_file c.agent.core m.unix_now
            (downloaded_entry c F root device_id m operation_id operation.path remote_file
              transferred)
            d.database
          ≡ ok indexed)
        × (d.files ≡ d'.files)
        × (mark_sync_operation_done m.unix_now operation.id indexed ≡ d'.database)
        × (result.operation_id ≡ operation.id)
        × (is_done result ≡ true)
  unfolding finish_download
  finish_lem operation remote_file transferred d {d'} {result} same =
      let query : Device F → Result TransferError StateDatabase = λ s. map_err core (
        upsert_file c.agent.core m.unix_now
          (downloaded_entry c F root device_id m operation_id operation.path remote_file
            transferred)
          s.database) in
      and_then-elim (ask query d) _ same λ d1 database at1 r1.
        let (s1, stored) = ask-eq-ok query d at1 in
        let end = ap (λ r. r.0) r1 in
        let reported = result_injective _ result (ap (λ r. r.1) r1) in
        (
          database,
          map_err-eq-ok core _ stored,
          ap (λ (s : Device F). s.files) s1 ∙ ap (λ (s : Device F). s.files) end,
          ap (λ (s : Device F). s.database) end,
          sym (ap (λ (r : TransferOperationResult). r.operation_id) reported),
          sym (ap is_done reported),
        )
