-- ===== src/Agent/Handler.antt =====
-- The state that the operations of crates/syncer-agent share, and operations on it that may fail. An
-- error ends an operation and leaves the state as it is then.
pub mod Laws
use syncer.Prelude.{
  ℕ, String, Bool, Option, none, some, List, Result, ok, err, if◌then◌else◌, map_err,
}
use syncer.Prelude.Texts.{Text}
use syncer.Core.Error.{CoreResult, CoreError, filesystem}
use syncer.Core.FolderStore.{FolderDocument}
use syncer.Core.JsonFile.{JsonFile, JsonDisk}
use syncer.Core.Scanner.{ScanSummary, scan_into}
use syncer.Core.Scanner.Fuel.{directories}
use syncer.Core.StateDb.Tables.{StateDatabase}
use syncer.Crates.{Crates}
use syncer.Agent.FileSystem.{FileSystem}
use syncer.Agent.PeerStore.{PeerStoreDocument}

-- The files below the folder, `.syncer/folder.json`, the list of trusted peers and the database.
pub record Device (F : FileSystem) : Type 0 where
  pub files : F.State
  pub folder_json : JsonDisk FolderDocument
  pub peers : JsonFile PeerStoreDocument
  pub database : StateDatabase

abbrev pub Handler : FileSystem → Type 0 → Type 0 → Type 0
Handler F E A = Device F → Device F × Result E A

abbrev pub and_then :
    {F : FileSystem} {E A B : Type 0}
    → Device F × Result E A
    → (A → Handler F E B)
    → Device F × Result E B
and_then (d, ok a) next = next a d
and_then (d, err e) next = (d, err e)

infixl 5 ◌>>=◌ ◌>>◌
abbrev pub ◌>>=◌ :
    {F : FileSystem} {E A B : Type 0} → Handler F E A → (A → Handler F E B) → Handler F E B
◌>>=◌ first next d = and_then (first d) next

abbrev pub ◌>>◌ :
    {F : FileSystem} {E B : Type 0} → Handler F E (Unit {0}) → Handler F E B → Handler F E B
first >> second = first >>= λ _. second

abbrev pub pure : {F : FileSystem} {E A : Type 0} → A → Handler F E A
pure a d = (d, ok a)

abbrev pub fail : {F : FileSystem} {E A : Type 0} → E → Handler F E A
fail e d = (d, err e)

-- A result that does not depend on the state.
abbrev pub lift : {F : FileSystem} {E A : Type 0} → Result E A → Handler F E A
lift r d = (d, r)

-- A result that reads the state.
abbrev pub ask : {F : FileSystem} {E A : Type 0} → (Device F → Result E A) → Handler F E A
ask query d = (d, query d)

abbrev pub require : {F : FileSystem} {E : Type 0} → Bool → E → Handler F E (Unit {0})
require test e d = (d, if test then ok tt else err e)

-- An operation on the files, with the error that its message becomes.
abbrev pub with_files :
    {F : FileSystem} {E : Type 0}
    → (F.State → F.State × Result String (Unit {0}))
    → (String → E)
    → Handler F E (Unit {0})
with_files op to_error d = let (s, r) = op d.files in (record d { files = s }, map_err to_error r)

abbrev pub put_files : {F : FileSystem} {E : Type 0} → F.State → Handler F E (Unit {0})
put_files s d = (record d { files = s }, ok tt)

abbrev pub put_database : {F : FileSystem} {E : Type 0} → StateDatabase → Handler F E (Unit {0})
put_database db d = (record d { database = db }, ok tt)

-- `scanner.scan_into(&database)`, with fuel for every directory: `none` does not happen
-- (`Core.Scanner.Fuel.scan_into-ends`).
unfoldable pub scan_device :
    Crates → {F : FileSystem} → Text → ℕ → ℕ → ℕ → Device F → Device F × CoreResult ScanSummary
unfolding scan_into directories
scan_device c {F} root device_id now unix_now d =
    let found = F.directory d.files in
    elim (scan_into c root device_id now unix_now (directories found) found d.database) [
      | none ↦ (d, err (filesystem "" "out of fuel"))
      | some (database, result) ↦ (record d { database = database }, result)
    ]
