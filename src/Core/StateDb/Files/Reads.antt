-- ===== src/Core/StateDb/Files/Reads.antt =====
-- crates/syncer-core/src/state_db.rs: the queries of the tables `files` and `skipped_files`, and what
-- is computed from their rows.
use syncer.Prelude.{
  ℕ, ◌+◌, ◌%◌, ◌^◌, Bool, true, false, not, List, [], ◌∷◌, ok, ◌>>=◌, ok_or, try_map, leb,
  if◌then◌else◌, keep, length,
}
use syncer.Prelude.Words.{ℤ, pos, negsuc, saturating_add}
use syncer.Prelude.Texts.{text_eq, text_lt}
use syncer.Crates.{Crates}
use syncer.Core.Error.{CoreResult, state_database}
use syncer.Core.Manifest.{parse}
use syncer.Core.StateDb.Records.{
  FileSyncState, local_available, unsynchronized_local_missing, pending_upload, pending_download,
  skipped_folder_limit, is_missing, FileRecord, FolderManifest, FolderStatus, SkippedFileRecord,
}
use syncer.Core.StateDb.Tables.{FileRow, SkippedRow, StateDatabase}

-- ORDER BY path
unfoldable pub insert_file : FileRow → List FileRow → List FileRow
insert_file row [] = row ∷ []
insert_file row (r ∷ rows) =
    let rest = insert_file row rows in if text_lt r.path row.path then r ∷ rest else row ∷ r ∷ rows

unfoldable pub order_files : List FileRow → List FileRow
unfolding insert_file
order_files [] = []
order_files (row ∷ rows) = insert_file row (order_files rows)

-- ORDER BY queued_at_unix, path
unfoldable pub unix_lt : ℤ → ℤ → Bool
unix_lt (pos a) (pos b) = not (leb b a)
unix_lt (pos a) (negsuc b) = false
unix_lt (negsuc a) (pos b) = true
unix_lt (negsuc a) (negsuc b) = not (leb a b)

unfoldable pub insert_skipped : SkippedRow → List SkippedRow → List SkippedRow
unfolding unix_lt
insert_skipped row [] = row ∷ []
insert_skipped row (r ∷ rows) =
    let rest = insert_skipped row rows in
    if unix_lt r.queued_at_unix row.queued_at_unix
    then r ∷ rest
    else if unix_lt row.queued_at_unix r.queued_at_unix
    then row ∷ r ∷ rows
    else if text_lt r.path row.path
    then r ∷ rest
    else row ∷ r ∷ rows

unfoldable pub order_skipped : List SkippedRow → List SkippedRow
unfolding insert_skipped
order_skipped [] = []
order_skipped (row ∷ rows) = insert_skipped row (order_skipped rows)

-- One round of the loop over the files.
unfoldable pub count_state : FolderStatus → FileSyncState → FolderStatus
count_state s local_available = record s { local_available = saturating_add s.local_available 1 }
count_state s unsynchronized_local_missing = record s {
  unsynchronized_local_missing = saturating_add s.unsynchronized_local_missing 1;
}
count_state s pending_upload = record s { pending_upload = saturating_add s.pending_upload 1 }
count_state s pending_download = record s { pending_download = saturating_add s.pending_download 1 }
count_state s skipped_folder_limit = record s {
  skipped_folder_limit = saturating_add s.skipped_folder_limit 1;
}

unfoldable pub count_states : FolderStatus → List FileRecord → FolderStatus
unfolding count_state
count_states s [] = s
count_states s (file ∷ files) = count_states (count_state s file.sync_state) files

-- `files.iter().map(|file| file.size_bytes).sum()` of a release build, which wraps.
unfoldable pub sum_sizes : List FileRecord → ℕ
sum_sizes [] = 0
sum_sizes (file ∷ files) = (file.size_bytes + sum_sizes files) % 2 ^ 64

module _ (c : Crates) where
  unfoldable pub unix_time : ℤ → CoreResult ℕ
  unix_time timestamp =
      ok_or (state_database c.component_range_message) (c.from_unix_timestamp timestamp)

  unfoldable pub row_to_file_record : FileRow → CoreResult FileRecord
  unfolding parse unix_time
  row_to_file_record row = do
    path ← parse c row.path
    modified_at ← unix_time row.modified_at_unix
    ok (record {
      path = path;
      kind = row.kind;
      size_bytes = row.size_bytes;
      modified_at = modified_at;
      content_hash = row.content_hash;
      generation = row.generation;
      device_id = row.device_id;
      sync_state = row.sync_state;
    })

  unfoldable pub list_missing_after_scan : StateDatabase → CoreResult (List FileRecord)
  unfolding row_to_file_record order_files is_missing try_map
  list_missing_after_scan db =
      try_map row_to_file_record (order_files (keep (λ row. is_missing row.sync_state) db.files))

  unfoldable pub list_files : StateDatabase → CoreResult (List FileRecord)
  unfolding row_to_file_record order_files try_map
  list_files db = try_map row_to_file_record (order_files db.files)

  unfoldable pub row_to_skipped_file_record : SkippedRow → CoreResult SkippedFileRecord
  unfolding parse unix_time
  row_to_skipped_file_record row = do
    path ← parse c row.path
    queued_at ← unix_time row.queued_at_unix
    ok (record {
      path = path;
      reason = row.reason;
      size_bytes = row.size_bytes;
      queued_at = queued_at;
    })

  unfoldable pub list_skipped_files : StateDatabase → CoreResult (List SkippedFileRecord)
  unfolding row_to_skipped_file_record order_skipped try_map
  list_skipped_files db = try_map row_to_skipped_file_record (order_skipped db.skipped_files)

  unfoldable pub folder_status : StateDatabase → CoreResult FolderStatus
  unfolding list_files list_skipped_files count_states sum_sizes
  folder_status db = do
    files ← list_files db
    skipped ← list_skipped_files db
    ok (
        count_states
          (record {
            indexed_files = length files;
            indexed_bytes = sum_sizes files;
            local_available = 0;
            unsynchronized_local_missing = 0;
            pending_upload = 0;
            pending_download = 0;
            skipped_folder_limit = length skipped;
          })
          files)

  unfoldable pub export_manifest : ℕ → ℕ → ℕ → StateDatabase → CoreResult FolderManifest
  unfolding list_files
  export_manifest now folder_id device_id db = do
    files ← list_files db
    ok (record { folder_id = folder_id; device_id = device_id; generated_at = now; files = files })
