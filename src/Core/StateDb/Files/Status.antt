-- ===== src/Core/StateDb/Files/Status.antt =====
-- The numbers of `folder_status`.
use syncer.Prelude.{
  ℕ, ◌+◌, ◌%◌, ◌^◌, ◌≤◌, ◌≡◌, refl, ap, ◌∙◌, min, List, [], ◌∷◌, ok, ◌==◌, nat_eq, length, count_if,
  arith,
}
use syncer.Prelude.Words.{u64_max}
use syncer.Crates.{Crates}
use syncer.Core.StateDb.Records.{
  FileSyncState, local_available, unsynchronized_local_missing, pending_upload, pending_download,
  skipped_folder_limit, FileRecord, FolderStatus, SkippedFileRecord,
}
use syncer.Core.StateDb.Files.Reads.{
  count_state, count_states, sum_sizes, list_files, list_skipped_files, folder_status,
}
use syncer.Core.StateDb.Tables.{StateDatabase}

unfoldable pub state_tag : FileSyncState → ℕ
state_tag local_available = 0
state_tag unsynchronized_local_missing = 1
state_tag pending_upload = 2
state_tag pending_download = 3
state_tag skipped_folder_limit = 4

-- How many files are in a state.
unfoldable pub in_state : ℕ → List FileRecord → ℕ
unfolding state_tag
in_state t files = count_if (λ f. state_tag f.sync_state == t) files

-- The sum of the sizes, as a number.
unfoldable pub total_size : List FileRecord → ℕ
total_size [] = 0
total_size (f ∷ files) = f.size_bytes + total_size files

-- The numbers of a `u64` each.
record IsSmall (s : FolderStatus) : Type 0 where
  available : s.local_available ≤ u64_max
  missing : s.unsynchronized_local_missing ≤ u64_max
  upload : s.pending_upload ≤ u64_max
  download : s.pending_download ≤ u64_max
  skipped : s.skipped_folder_limit ≤ u64_max

abbrev pub counted : FolderStatus → List FileRecord → FolderStatus
counted s files = record s {
  local_available = min (s.local_available + in_state 0 files) u64_max;
  unsynchronized_local_missing = min (s.unsynchronized_local_missing + in_state 1 files) u64_max;
  pending_upload = min (s.pending_upload + in_state 2 files) u64_max;
  pending_download = min (s.pending_download + in_state 3 files) u64_max;
  skipped_folder_limit = min (s.skipped_folder_limit + in_state 4 files) u64_max;
}

counted-step :
    (s : FolderStatus) (f : FileRecord) (files : List FileRecord) (state : FileSyncState)
    → f.sync_state ≡ state
    → counted (count_state s state) files ≡ counted s (f ∷ files)
unfolding in_state count_state
counted-step s f files local_available h = ground arith
counted-step s f files state h = ground arith

count_state-IsSmall :
    (s : FolderStatus) (state : FileSyncState) → IsSmall s → IsSmall (count_state s state)
unfolding count_state
count_state-IsSmall s local_available h = record {
  available = omega arith;
  missing = h.missing;
  upload = h.upload;
  download = h.download;
  skipped = h.skipped;
}
count_state-IsSmall s unsynchronized_local_missing h = record {
  available = h.available;
  missing = omega arith;
  upload = h.upload;
  download = h.download;
  skipped = h.skipped;
}
count_state-IsSmall s pending_upload h = record {
  available = h.available;
  missing = h.missing;
  upload = omega arith;
  download = h.download;
  skipped = h.skipped;
}
count_state-IsSmall s pending_download h = record {
  available = h.available;
  missing = h.missing;
  upload = h.upload;
  download = omega arith;
  skipped = h.skipped;
}
count_state-IsSmall s skipped_folder_limit h = record {
  available = h.available;
  missing = h.missing;
  upload = h.upload;
  download = h.download;
  skipped = omega arith;
}

count_states-counted :
    (s : FolderStatus) (files : List FileRecord)
    → IsSmall s
    → count_states s files ≡ counted s files
unfolding count_states in_state
count_states-counted s [] h =
    ground (arith, h.available, h.missing, h.upload, h.download, h.skipped)
count_states-counted s (f ∷ files) h =
    count_states-counted (count_state s f.sync_state) files (count_state-IsSmall s f.sync_state h)
    ∙ counted-step s f files f.sync_state refl

sum_sizes-total : (files : List FileRecord) → sum_sizes files ≡ total_size files % 2 ^ 64
unfolding sum_sizes total_size
sum_sizes-total [] = refl
sum_sizes-total (f ∷ files) = omega (arith, sum_sizes-total files)

module _ (c : Crates) where
  -- Where the two listings succeed and there are at most 2^64 - 1 skipped files, `folder_status` has
  -- the number of files, their total size modulo 2^64, and for each state the number of files in
  -- it, up to the largest `u64`; the number of skipped files is added to that of the files in the
  -- state for them.
  pub folder_status-counted :
      (db : StateDatabase) (files : List FileRecord) (skipped : List SkippedFileRecord)
      → list_files c db ≡ ok files
      → list_skipped_files c db ≡ ok skipped
      → length skipped ≤ u64_max
      → folder_status c db
        ≡ ok (record {
          indexed_files = length files;
          indexed_bytes = total_size files % 2 ^ 64;
          local_available = min (in_state 0 files) u64_max;
          unsynchronized_local_missing = min (in_state 1 files) u64_max;
          pending_upload = min (in_state 2 files) u64_max;
          pending_download = min (in_state 3 files) u64_max;
          skipped_folder_limit = min (length skipped + in_state 4 files) u64_max;
        })
  unfolding folder_status
  folder_status-counted db files skipped is_files is_skipped small =
      rw (is_files, is_skipped)
        (ap ok (
          count_states-counted _ files (record {
            available = omega arith;
            missing = omega arith;
            upload = omega arith;
            download = omega arith;
            skipped = small;
          })
          ∙ ground (arith, sum_sizes-total files)))
