-- ===== src/Core/Scanner.antt =====
-- crates/syncer-core/src/scanner.rs: the walk over a folder that fills the state database. The file
-- system is a tree that does not change during the walk, and the stack holds, beside the path of a
-- directory relative to the root, what `read_dir` will find there.
pub mod Fuel
pub mod Upserts
use syncer.Prelude.{
  ℕ, zero, suc, ◌+◌, ◌%◌, ◌^◌, String, Bool, true, false, Option, none, some, List, [], ◌∷◌, ◌++◌,
  Result, ok, err, ◌>>=◌, if◌then◌else◌, length,
}
use syncer.Prelude.Words.{pos, saturating_add}
use syncer.Prelude.Texts.{Text}
use syncer.Prelude.Paths.{is_empty}
use syncer.Crates.{Crates}
use syncer.Core.Error.{CoreResult, CoreError, filesystem}
use syncer.Core.Manifest.{RelativePath, FileEntry, file, starts_with_syncer, parse, hash_of_bytes}
use syncer.Core.StateDb.Files.{fits_i64, mark_scan_started, upsert_file, finalize_scan}
use syncer.Core.StateDb.Files.Reads.{list_missing_after_scan}
use syncer.Core.StateDb.Tables.{StateDatabase}

mutual
  -- What `metadata` and `read` give for an entry; the messages are those of the errors. The time of
  -- a file is in seconds since the epoch, if there is one.
  pub data Node : Type 0 where
    no_metadata : String → Node
    plain_file : List ℕ → Option ℕ → Node
    unreadable_file : String → Node
    directory : Directory → Node
    unsupported : Node

  -- What `read_dir` gives.
  pub data Directory : Type 0 where
    readable : Listing → Directory
    unreadable : String → Directory

  -- What `next_entry` gives, one after the other. A name that is not UTF-8 has a lossy rendering.
  pub data Listing : Type 0 where
    finished : Listing
    broken : String → Listing
    entry : Text → Node → Listing → Listing
    not_utf8 : String → Listing → Listing

pub record ScanSummary : Type 0 where
  pub files_seen : ℕ
  pub directories_seen : ℕ
  pub bytes_seen : ℕ
  pub unsupported_entries : ℕ
  pub local_missing : ℕ

-- The database, and the variables of the loops: `summary`, and `stack` with its top first.
pub record Walk : Type 0 where
  pub database : StateDatabase
  pub summary : ScanSummary
  pub stack : List (Text × Directory)

-- A `?` that returns early leaves the database as it is then.
abbrev pub Step : Type 0
Step = Walk × CoreResult (Unit {0})

abbrev pub and_then : Step → (Walk → Step) → Step
and_then (w, ok done) next = next w
and_then (w, err e) next = (w, err e)

abbrev pub continue_with : Step → (Walk → Option Step) → Option Step
continue_with (w, ok done) next = next w
continue_with (w, err e) next = some (w, err e)

unfoldable pub saw_directory : ScanSummary → ScanSummary
saw_directory s = record s { directories_seen = saturating_add s.directories_seen 1 }

unfoldable pub saw_unsupported : ScanSummary → ScanSummary
saw_unsupported s = record s { unsupported_entries = saturating_add s.unsupported_entries 1 }

unfoldable pub saw_file : ℕ → ScanSummary → ScanSummary
saw_file size_bytes s = record s {
  files_seen = saturating_add s.files_seen 1;
  bytes_seen = saturating_add s.bytes_seen size_bytes;
}

abbrev pub empty_scan : ScanSummary
empty_scan = record {
  files_seen = 0;
  directories_seen = 0;
  bytes_seen = 0;
  unsupported_entries = 0;
  local_missing = 0;
}

module _ (c : Crates) (root : Text) (device_id now unix_now : ℕ) where
  -- The path that was read, for messages: the root itself, or below it.
  unfoldable pub full_path : Text → Text
  unfolding is_empty
  full_path raw = if is_empty raw then root else c.push root raw

  abbrev pub failed_at : Text → String → CoreError
  failed_at raw message = filesystem (c.display (full_path raw)) message

  unfoldable pub modified_or_now : Option ℕ → ℕ
  modified_or_now none = now
  modified_or_now (some seconds) =
      if fits_i64 seconds
      then elim (c.from_unix_timestamp (pos seconds)) [ some t ↦ t | none ↦ now ]
      else now

  unfoldable pub scanned_entry : RelativePath → List ℕ → Option ℕ → FileEntry
  unfolding hash_of_bytes modified_or_now
  scanned_entry relative bytes modified = record {
    path = relative;
    kind = file;
    size_bytes = length bytes;
    modified_at = modified_or_now modified;
    content_hash = some (hash_of_bytes c bytes);
    block_hashes = [];
    version = record { generation = 1; device_id = device_id };
  }

  unfoldable pub store_file : FileEntry → Walk → CoreResult StateDatabase → Step
  unfolding saw_file
  store_file e w (err error) = (w, err error)
  store_file e w (ok database) =
      (record w { database = database; summary = saw_file e.size_bytes w.summary }, ok tt)

  -- The round for an entry whose path has been parsed.
  unfoldable pub scan_node : Text → RelativePath → Node → Walk → Step
  unfolding saw_directory saw_unsupported scanned_entry store_file upsert_file
  scan_node raw relative (no_metadata message) w = (w, err (failed_at raw message))
  scan_node raw relative (directory found) w =
      (record w { stack = (raw, found) ∷ w.stack; summary = saw_directory w.summary }, ok tt)
  scan_node raw relative unsupported w = (record w { summary = saw_unsupported w.summary }, ok tt)
  scan_node raw relative (unreadable_file message) w = (w, err (failed_at raw message))
  scan_node raw relative (plain_file bytes modified) w =
      let e = scanned_entry relative bytes modified in
      store_file e w (upsert_file c unix_now e w.database)

  -- The round for an entry named `name` of the directory `parent`.
  unfoldable pub scan_entry : Text → Text → Node → Walk → Step
  unfolding scan_node starts_with_syncer parse
  scan_entry parent name node w =
      let raw = c.push parent name in
      if starts_with_syncer (c.components raw)
      then (w, ok tt)
      else elim (parse c raw) [ err e ↦ (w, err e) | ok relative ↦ scan_node raw relative node w ]

  unfoldable pub scan_listing : Text → Listing → Walk → Step
  unfolding scan_entry
  scan_listing parent finished w = (w, ok tt)
  scan_listing parent (broken message) w = (w, err (failed_at parent message))
  scan_listing parent (not_utf8 rendered rest) w =
      (w, err (filesystem rendered "path is not valid UTF-8"))
  scan_listing parent (entry name node rest) w =
      and_then (scan_entry parent name node w) (scan_listing parent rest)

  unfoldable pub scan_directory : Text → Directory → Walk → Step
  unfolding scan_listing
  scan_directory parent (unreadable message) w = (w, err (failed_at parent message))
  scan_directory parent (readable listing) w = scan_listing parent listing w

  -- `while let Some(directory) = stack.pop()`, on fuel, for the stack of the walk.
  unfoldable pub scan_stack : ℕ → List (Text × Directory) → Walk → Option Step
  unfolding scan_directory
  scan_stack fuel [] w = some (w, ok tt)
  scan_stack zero (top ∷ below) w = none
  scan_stack (suc fuel) (top ∷ below) w =
      continue_with (scan_directory top.0 top.1 (record w { stack = below }))
        λ w. scan_stack fuel w.stack w

  unfoldable pub finish_scan : Step → StateDatabase × CoreResult ScanSummary
  unfolding finalize_scan list_missing_after_scan
  finish_scan (w, err e) = (w.database, err e)
  finish_scan (w, ok done) =
      let database = finalize_scan unix_now w.database in
      (
        database,
        do
          missing ← list_missing_after_scan c database
          ok (record w.summary { local_missing = length missing }),
      )

  unfoldable pub scan_into :
      ℕ → Directory → StateDatabase → Option (StateDatabase × CoreResult ScanSummary)
  unfolding scan_stack finish_scan mark_scan_started
  scan_into fuel found database =
      elim (scan_stack fuel (([], found) ∷ []) (record {
        database = mark_scan_started database;
        summary = empty_scan;
        stack = ([], found) ∷ [];
      })) [ none ↦ none | some step ↦ some (finish_scan step) ]
