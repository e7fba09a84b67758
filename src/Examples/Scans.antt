-- ===== src/Examples/Scans.antt =====
-- Witnesses for the scan of a folder with two files, a directory and Syncer's own directory.
use syncer.Prelude.{
  ℕ, ◌≡◌, ◌≤◌, refl, min, Option, none, some, List, [], ◌∷◌, ok, arith, All, length,
}
use syncer.Prelude.Words.{u64_max}
use syncer.Prelude.Texts.{codes}
use syncer.Core.Error.{CoreResult}
use syncer.Core.Manifest.{FileEntry}
use syncer.Core.Manifest.Safety.{IsSafe}
use syncer.Core.Scanner.{
  plain_file, directory, Directory, readable, finished, entry, ScanSummary, scan_into,
}
use syncer.Core.Scanner.Fuel.{scan_into-ends}
use syncer.Core.Scanner.Upserts.{scan_into-Upserted}
use syncer.Core.StateDb.Files.{mark_scan_started, finalize_scan}
use syncer.Core.StateDb.Files.Scan.{upsert_files}
use syncer.Core.StateDb.Tables.{StateDatabase}
use syncer.Examples.{std_crates, std_crates-HasStdPaths}

abbrev tree : Directory
tree = readable (
    entry (codes "a") (plain_file (1 ∷ 2 ∷ []) (some 100)) (
      entry (codes "d")
        (directory (readable (entry (codes "b") (plain_file (3 ∷ []) none) finished)))
        (entry (codes ".syncer") (directory (readable finished)) finished)))

abbrev empty_database : StateDatabase
empty_database = record { files = []; skipped_files = []; sync_operations = [] }

scan_into-ends_example :
    (r : StateDatabase × CoreResult ScanSummary) × (scan_into std_crates
        (codes "/f")
        1
        500
        500
        3
        tree
        empty_database
      ≡ some r)
unfolding syncer.Core.Scanner.Fuel.directories
scan_into-ends_example =
    scan_into-ends std_crates (codes "/f") 1 500 500 3 tree empty_database (omega arith)

abbrev scanned : StateDatabase
scanned = elim (scan_into std_crates (codes "/f") 1 500 500 3 tree empty_database) [
  | none ↦ empty_database
  | some r ↦ r.0
]

scan_into-Upserted_example :
    (entries : List FileEntry) × (mid : StateDatabase) × (upsert_files std_crates 500 entries
        (mark_scan_started empty_database)
      ≡ ok mid)
    × (scanned ≡ finalize_scan 500 mid)
    × All (λ e. IsSafe e.path) entries
    × (2 ≡ min (length entries) u64_max)
unfolding scan_into syncer.Prelude.Paths.components syncer.Prelude.Paths.push
    syncer.Prelude.text_beq syncer.Prelude.Paths.is_whitespace
scan_into-Upserted_example =
    scan_into-Upserted std_crates std_crates-HasStdPaths (codes "/f") 1 500 500 3 tree
      empty_database scanned
      (record {
        files_seen = 2;
        directories_seen = 1;
        bytes_seen = 3;
        unsupported_entries = 0;
        local_missing = 0;
      })
      refl
