-- ===== src/Examples/Database.antt =====
-- Witnesses for the labels and the table `files` of the state database.
use syncer.Prelude.{◌≡◌, false, none, some, [], ◌∷◌, ok, arith, ◌==◌, if◌then◌else◌}
use syncer.Prelude.Words.{pos}
use syncer.Prelude.Texts.{Text, codes, text_eq}
use syncer.Core.Manifest.{file}
use syncer.Core.StateDb.Records.{local_available}
use syncer.Core.StateDb.Records.{FileRecord}
use syncer.Core.StateDb.Files.{
  mark_scan_started, finalize_scan, mark_file_deleted_locally, forget_file,
}
use syncer.Core.StateDb.Files.Keys.{find_file-deleted_forgotten, deleted_row}
use syncer.Core.StateDb.Files.Scan.{
  find_file, last_seen, seen_or, unseen, on_row, upsert_files, find_file-scan,
}
use syncer.Core.StateDb.Tables.{FileRow, StateDatabase}
use syncer.Examples.{std_crates, entry_of}

abbrev row_of : Text → FileRow
row_of path = record {
  path = path;
  kind = file;
  size_bytes = 3;
  modified_at_unix = pos 100;
  content_hash = some "h";
  block_hashes_json = "[]";
  generation = 1;
  device_id = "laptop";
  scan_missing = false;
  sync_state = local_available;
  updated_at_unix = 100;
}

abbrev two_files : StateDatabase
two_files = record {
  files = row_of (codes "b") ∷ row_of (codes "a") ∷ [];
  skipped_files = [];
  sync_operations = [];
}

abbrev file_of : Text → FileRecord
file_of path = record {
  path = path;
  kind = file;
  size_bytes = 3;
  modified_at = 100;
  content_hash = some "h";
  generation = 1;
  device_id = "laptop";
  sync_state = local_available;
}

find_file-scan_example :
    (after : StateDatabase) × (upsert_files std_crates 300
        (entry_of (codes "a") 9 "x" ∷ [])
        (mark_scan_started two_files)
      ≡ ok after)
    × ((path : Text)
        → find_file path (finalize_scan 300 after).files
          ≡ seen_or std_crates 300
              (on_row (unseen 300) (find_file path two_files.files))
              (last_seen path (entry_of (codes "a") 9 "x" ∷ [])))
find_file-scan_example =
    find_file-scan std_crates 300 (entry_of (codes "a") 9 "x" ∷ []) two_files
      ((omega arith, omega arith), tt)

find_file-deleted_forgotten_example :
    (find_file (codes "a") (mark_file_deleted_locally 300 (codes "a") two_files).files ≡ (
      if codes "a" == codes "a"
      then on_row (deleted_row 300) (find_file (codes "a") two_files.files)
      else find_file (codes "a") two_files.files))
    × (find_file (codes "a") (forget_file (codes "a") two_files).files
        ≡ (if codes "a" == codes "a" then none else find_file (codes "a") two_files.files))
find_file-deleted_forgotten_example =
    find_file-deleted_forgotten 300 (codes "a") (codes "a") two_files
