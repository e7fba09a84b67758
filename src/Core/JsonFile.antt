-- ===== src/Core/JsonFile.antt =====
-- A JSON document on disk, and the ways in which writing it through a temporary file can fail, for
-- crates/syncer-core/src/folder_store.rs and crates/syncer-agent/src/peer_store.rs. What serde_json
-- makes of the bytes of a file is part of the file.
use syncer.Prelude.{String}

pub data JsonFile {ℓ} (D : Type ℓ) : Type ℓ where
  absent : JsonFile D
  unreadable : String → JsonFile D
  malformed : String → JsonFile D
  holds : D → JsonFile D

-- The message with which a missing file is not read.
abbrev pub not_found : String
not_found = "No such file or directory (os error 2)"

pub record JsonDisk {ℓ} (D : Type ℓ) : Type ℓ where
  pub target : JsonFile D
  pub temporary : JsonFile D

-- How a write ends: well, or at the first step that fails, with its message. A failing write of the
-- temporary file leaves something there.
pub data Writing {ℓ} (D : Type ℓ) : Type ℓ where
  succeeds : Writing D
  no_directory : String → Writing D
  not_serialized : String → Writing D
  not_written : String → JsonFile D → Writing D
  not_renamed : String → Writing D
