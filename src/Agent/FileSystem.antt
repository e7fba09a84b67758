-- ===== src/Agent/FileSystem.antt =====
-- The file system under a shared folder, as crates/syncer-agent sees it: an interface, with what the
-- code relies on.
use syncer.Prelude.{ℕ, String, ◌≡◌, ◌≢◌, Bool, List, Result, ok}
use syncer.Prelude.Texts.{Text}
use syncer.Core.Scanner.{Directory}
use syncer.Agent.PeerCrypto.{Output}

pub record FileSystem : Type 1 where
  pub State : Type 0
  -- what a scan finds below the root of the folder
  pub directory : State → Directory
  -- the contents of a file, and the reads in which they arrive
  pub contents : State → Text → Result String (List ℕ)
  pub reads : State → Text → Result String (List (Result String (List ℕ)))
  -- how writing a file ends, and the state behind it
  pub output : State → Text → Output
  pub store : State → Text → List ℕ → State
  pub try_exists : State → Text → Result String Bool
  pub remove_file : State → Text → State × Result String (Unit {0})
  pub create_dir_all : State → Text → State × Result String (Unit {0})
  pub rename : State → Text → Text → State × Result String (Unit {0})

-- POSIX: what was stored is read and other files are as before, a rename that succeeds puts the contents at the new path, and the
-- removal of a file leaves the other files alone.
pub record IsPosix (F : FileSystem) : Type 0 where
  pub contents-store :
      (s : F.State) (path : Text) (bytes : List ℕ)
      → F.contents (F.store s path bytes) path ≡ ok bytes
  pub contents-store_other :
      (s : F.State) (path stored : Text) (bytes : List ℕ)
      → path ≢ stored
      → F.contents (F.store s stored bytes) path ≡ F.contents s path
  pub contents-create_dir_all :
      (s : F.State) (path dir : Text)
      → F.contents (F.create_dir_all s dir).0 path ≡ F.contents s path
  pub contents-rename :
      (s : F.State) (from to : Text)
      → (F.rename s from to).1 ≡ ok tt
      → F.contents (F.rename s from to).0 to ≡ F.contents s from
  pub contents-remove_file :
      (s : F.State) (path removed : Text)
      → path ≢ removed
      → F.contents (F.remove_file s removed).0 path ≡ F.contents s path
