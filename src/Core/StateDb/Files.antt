-- ===== src/Core/StateDb/Files.antt =====
-- crates/syncer-core/src/state_db.rs: the statements that write to the tables `files` and
-- `skipped_files`. `now` is `unixepoch()`.
pub mod Scan
pub mod Keys
pub mod Listing
pub mod Reads
pub mod Status
use syncer.Prelude.{
  ℕ, ◌+◌, ◌%◌, ◌^◌, String, Bool, true, false, not, ◌||◌, Option, none, some, List, [], ◌∷◌, ◌++◌,
  map, ok, err, ◌>>=◌, ◌>>◌, guard, ok_or, try_map, leb, ◌==◌, if◌then◌else◌, keep, length,
}
use mathlib.Core.List.{foldl}
use syncer.Prelude.Words.{ℤ, pos, negsuc, i64_max, saturating_add}
use syncer.Prelude.Texts.{Text, text_eq, text_lt}
use syncer.Crates.{Crates}
use syncer.Core.Error.{CoreResult, file_size_overflow, state_database}
use syncer.Core.Manifest.{RelativePath, FileEntry, parse}
use syncer.Core.Limits.{PendingTransfer}
use syncer.Core.StateDb.Records.{
  FileSyncState, local_available, unsynchronized_local_missing, pending_upload, pending_download,
  skipped_folder_limit, is_missing, FileRecord, FolderManifest, FolderStatus, folder_limit,
  SkippedFileRecord,
}
use syncer.Core.StateDb.Tables.{FileRow, SkippedRow, StateDatabase}

-- `i64::try_from(value).map_err(|_| e)` for a `u64`.
abbrev pub fits_i64 : ℕ → Bool
fits_i64 value = leb value i64_max

-- ON CONFLICT(path) DO UPDATE
unfoldable pub overwrite : FileRow → FileRow → FileRow
overwrite excluded row = record row {
  kind = excluded.kind;
  size_bytes = excluded.size_bytes;
  modified_at_unix = excluded.modified_at_unix;
  content_hash = excluded.content_hash;
  block_hashes_json = excluded.block_hashes_json;
  generation = excluded.generation;
  device_id = excluded.device_id;
  scan_missing = false;
  sync_state = local_available;
  updated_at_unix = excluded.updated_at_unix;
}

-- INSERT, with the row that VALUES and the defaults make.
unfoldable pub upsert_file_row : FileRow → List FileRow → List FileRow
unfolding overwrite
upsert_file_row excluded [] = excluded ∷ []
upsert_file_row excluded (row ∷ rows) =
    let rest = upsert_file_row excluded rows in
    if row.path == excluded.path then overwrite excluded row ∷ rows else row ∷ rest

unfoldable pub is_skipped : FileSyncState → Bool
is_skipped skipped_folder_limit = true
is_skipped local_available = false
is_skipped unsynchronized_local_missing = false
is_skipped pending_upload = false
is_skipped pending_download = false

unfoldable pub mark_row_started : FileRow → FileRow
unfolding is_skipped
mark_row_started row =
    if not (is_skipped row.sync_state) then record row { scan_missing = true } else row

unfoldable pub mark_scan_started : StateDatabase → StateDatabase
unfolding mark_row_started
mark_scan_started db = record db { files = map mark_row_started db.files }

unfoldable pub finalize_row : ℕ → FileRow → FileRow
finalize_row now row =
    if row.scan_missing
    then record row { sync_state = unsynchronized_local_missing; updated_at_unix = now }
    else row

unfoldable pub finalize_scan : ℕ → StateDatabase → StateDatabase
unfolding finalize_row
finalize_scan now db = record db { files = map (finalize_row now) db.files }

unfoldable pub mark_row_deleted : ℕ → RelativePath → FileRow → FileRow
mark_row_deleted now path row =
    if row.path == path
    then record row { sync_state = unsynchronized_local_missing; modified_at_unix = pos now }
    else row

unfoldable pub mark_file_deleted_locally : ℕ → RelativePath → StateDatabase → StateDatabase
unfolding mark_row_deleted
mark_file_deleted_locally now path db = record db {
  files = map (mark_row_deleted now path) db.files;
}

unfoldable pub forget_file : RelativePath → StateDatabase → StateDatabase
forget_file path db = record db { files = keep (λ row. not (row.path == path)) db.files }

unfoldable pub upsert_skipped_row : SkippedRow → List SkippedRow → List SkippedRow
upsert_skipped_row excluded [] = excluded ∷ []
upsert_skipped_row excluded (row ∷ rows) =
    let rest = upsert_skipped_row excluded rows in
    if row.path == excluded.path
    then record row {
      reason = excluded.reason;
      size_bytes = excluded.size_bytes;
      queued_at_unix = excluded.queued_at_unix;
      updated_at_unix = excluded.updated_at_unix;
    }
      ∷ rows
    else row ∷ rest

module _ (c : Crates) where
  -- The row of the VALUES, with `scan_missing` and `updated_at_unix` at their defaults.
  unfoldable pub file_row : ℕ → FileEntry → FileRow
  file_row now entry = record {
    path = entry.path;
    kind = entry.kind;
    size_bytes = entry.size_bytes;
    modified_at_unix = c.unix_timestamp entry.modified_at;
    content_hash = entry.content_hash;
    block_hashes_json = c.hashes_to_json entry.block_hashes;
    generation = entry.version.generation;
    device_id = c.uuid_to_string entry.version.device_id;
    scan_missing = false;
    sync_state = local_available;
    updated_at_unix = now;
  }

  unfoldable pub upsert_file : ℕ → FileEntry → StateDatabase → CoreResult StateDatabase
  unfolding upsert_file_row file_row
  upsert_file now entry db = do
    guard (fits_i64 entry.size_bytes) file_size_overflow
    guard (fits_i64 entry.version.generation) (state_database "generation exceeded i64")
    ok (record db { files = upsert_file_row (file_row now entry) db.files })

  unfoldable pub record_skipped_folder_limit :
      ℕ → PendingTransfer → StateDatabase → CoreResult StateDatabase
  unfolding upsert_skipped_row
  record_skipped_folder_limit now transfer db = do
    guard (fits_i64 transfer.size_bytes) file_size_overflow
    ok (record db {
      skipped_files =
          upsert_skipped_row
            (record {
              path = transfer.path;
              reason = folder_limit;
              size_bytes = transfer.size_bytes;
              queued_at_unix = c.unix_timestamp transfer.queued_at;
              updated_at_unix = now;
            })
            db.skipped_files;
    })
