-- ===== src/Examples.antt =====
-- Concrete inputs on which the theorems are tried: the crates as the standard library and simple
-- functions, two devices and their files, and a queue.
pub mod Names
pub mod Plans
pub mod Database
pub mod Queue
pub mod Scans
pub mod Requests
pub mod Agent
pub mod Transfers
pub mod Server
pub mod Peers
pub mod Commands
use syncer.Prelude.{
  ℕ, sym, ◌<◌, ◌≤◌, string_eq, beq→eq, Bool-cases, inl, inr, ◌∙◌, length, zero, suc, String, ◌≡◌,
  refl, ap, sym, ◌∙◌, length, true, false, Option, none, some, List, [], ◌∷◌, ok, ◌==◌, nat_eq,
  if◌then◌else◌, arith,
}
use syncer.Prelude.Words.{ℤ, pos, negsuc}
use syncer.Prelude.Texts.{Text, codes}
use syncer.Prelude.Paths
use syncer.Crates.{Crates, HasStdPaths}
use syncer.Core.Manifest.{FileEntry, file}
use syncer.Core.StateDb.Records.{FileRecord, FileSyncState, local_available, FolderManifest}

abbrev pub std_crates : Crates
std_crates = record {
  components = Paths.components;
  is_absolute = Paths.is_absolute;
  push = Paths.push;
  display = λ p. "a path";
  unix_timestamp = λ t. pos t;
  from_unix_timestamp = λ z. elim z [ pos t ↦ some t | negsuc t ↦ none ];
  component_range_message = "timestamp out of range";
  uuid_to_string = λ id. if id == 1 then "laptop" else "phone";
  blake3_hex = λ bytes. "digest";
  hashes_to_json = λ hashes. "[]";
  unique_violation = "UNIQUE constraint failed";
}

pub std_crates-HasStdPaths : HasStdPaths std_crates
std_crates-HasStdPaths = record {
  components_lem = λ p. refl;
  is_absolute_lem = λ p. refl;
  push_lem = λ p s. refl;
}

abbrev pub entry_of : Text → ℕ → String → FileEntry
entry_of path size hash = record {
  path = path;
  kind = file;
  size_bytes = size;
  modified_at = 100;
  content_hash = some hash;
  block_hashes = [];
  version = record { generation = 1; device_id = 1 };
}

abbrev pub record_of : Text → ℕ → String → FileSyncState → FileRecord
record_of path size hash state = record {
  path = path;
  kind = file;
  size_bytes = size;
  modified_at = 100;
  content_hash = some hash;
  generation = 1;
  device_id = "laptop";
  sync_state = state;
}

abbrev pub laptop : FolderManifest
laptop = record {
  folder_id = 7;
  device_id = 1;
  generated_at = 200;
  files =
      record_of (codes "a") 3 "ha" local_available
      ∷ record_of (codes "c") 5 "hc" local_available
      ∷ [];
}

abbrev pub phone : FolderManifest
phone = record {
  folder_id = 7;
  device_id = 2;
  generated_at = 201;
  files =
      record_of (codes "b") 4 "hb" local_available
      ∷ record_of (codes "c") 6 "hx" local_available
      ∷ [];
}

-- The ids "", "a", "aa" and so on.
unfoldable pub id_of : ℕ → String
id_of zero = String.[]
id_of (suc n) = String.◌∷◌ "a" (id_of n)

length-id_of : (n : ℕ) → length (codes (id_of n)) ≡ n
unfolding id_of
length-id_of zero = refl
length-id_of (suc n) = ap suc (length-id_of n)

pub id_of_distinct : (m n : ℕ) → id_of m ≡ id_of n → m ≡ n
id_of_distinct m n h = sym (length-id_of m) ∙ ap (λ id. length (codes id)) h ∙ length-id_of n

abbrev pub head : Text → ℕ
head [] = 0
head (c ∷ s) = c

head-id_of : (n : ℕ) → head (codes (id_of n)) ≤ 97
unfolding id_of
head-id_of zero = omega arith
head-id_of (suc n) = omega arith

-- None of the ids begins with a letter after "a".
pub id_of-other : (id : String) (n : ℕ) → 97 < head (codes id) → (id == id_of n) ≡ false
id_of-other id n h = elim (Bool-cases (id == id_of n)) [
  | inl same ↦
      absurd (omega (arith, h, head-id_of n, ap (λ i. head (codes i)) (beq→eq id (id_of n) same)))
  | inr other ↦ other
]
