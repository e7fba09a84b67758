-- ===== src/Core/StateDb/Files/Listing.antt =====
-- What `list_files` gives.
use syncer.Prelude.{
  ℕ, suc, ◌≡◌, refl, ap, ◌∙◌, true, false, Bool-cases, inl, inr, List, [], ◌∷◌, map, ok, try_map,
  if◌then◌else◌, length, arith, All,
}
use syncer.Prelude.Texts.{Text, text_eq, text_eq_iff, text_lt, text_lt_trans, text_lt_total}
use syncer.Prelude.BTreeMap.Laws.{IsAscending}
use syncer.Crates.{Crates}
use syncer.Core.Manifest.{parse}
use syncer.Core.StateDb.Records.{FileRecord}
use syncer.Core.StateDb.Files.Reads.{
  insert_file, order_files, row_to_file_record, unix_time, list_files,
}
use syncer.Core.StateDb.Files.Keys.{has_path, HasDistinctPaths}
use syncer.Core.StateDb.Tables.{FileRow, StateDatabase}

abbrev path_of : FileRow → Text
path_of row = row.path

All-insert_file {κ} :
    (P : FileRow → Type κ) (row : FileRow) (rows : List FileRow)
    → P row
    → All P rows
    → All P (insert_file row rows)
unfolding insert_file
All-insert_file P row [] h hs = (h, tt)
All-insert_file P row (r ∷ rows) h hs =
    elim (text_lt r.path row.path)
      as (λ b. All P (if b then r ∷ insert_file row rows else row ∷ r ∷ rows)) [
        | true ↦ (hs.0, All-insert_file P row rows h hs.1)
        | false ↦ (h, hs)
      ]

All-order_files {κ} :
    (P : FileRow → Type κ) (rows : List FileRow) → All P rows → All P (order_files rows)
unfolding order_files
All-order_files P [] hs = tt
All-order_files P (row ∷ rows) hs =
    All-insert_file P row (order_files rows) hs.0 (All-order_files P rows hs.1)

All-below_trans :
    (a b : Text) (rows : List FileRow)
    → text_lt a b ≡ true
    → All (λ r. text_lt b r.path ≡ true) rows
    → All (λ r. text_lt a r.path ≡ true) rows
All-below_trans a b [] h hs = tt
All-below_trans a b (r ∷ rows) h hs =
    (text_lt_trans a b r.path h hs.0, All-below_trans a b rows h hs.1)

-- The rows are in the strict order of their paths.
abbrev IsOrdered : List FileRow → Type 0
IsOrdered [] = Unit
IsOrdered (row ∷ rows) = All (λ r. text_lt row.path r.path ≡ true) rows × IsOrdered rows

insert_file-IsOrdered :
    (row : FileRow) (rows : List FileRow)
    → has_path row.path rows ≡ false
    → IsOrdered rows
    → IsOrdered (insert_file row rows)
unfolding insert_file has_path
insert_file-IsOrdered row [] new o = (tt, tt)
insert_file-IsOrdered row (r ∷ rows) new o = elim (Bool-cases (text_lt r.path row.path)) [
  | inl lt ↦ rw lt (
    All-insert_file (λ i. text_lt r.path i.path ≡ true) row rows lt o.0,
    insert_file-IsOrdered row rows (ground arith) o.1,
  )
  | inr ge ↦ rw ge (
      let lt : text_lt row.path r.path ≡ true =
        ground (arith, text_lt_total r.path row.path, text_eq_iff r.path row.path) in
      ((lt, All-below_trans row.path r.path rows lt o.0), o))
]

has_path-insert :
    (path : Text) (row : FileRow) (rows : List FileRow)
    → has_path path (insert_file row rows) ≡ has_path path (row ∷ rows)
unfolding has_path insert_file
has_path-insert path row [] = refl
has_path-insert path row (r ∷ rows) = ground (arith, has_path-insert path row rows)

has_path-order :
    (path : Text) (rows : List FileRow) → has_path path (order_files rows) ≡ has_path path rows
unfolding order_files has_path
has_path-order path [] = refl
has_path-order path (row ∷ rows) =
    ground (arith, has_path-insert path row (order_files rows), has_path-order path rows)

order_files-IsOrdered : (rows : List FileRow) → HasDistinctPaths rows → IsOrdered (order_files rows)
unfolding order_files
order_files-IsOrdered [] d = tt
order_files-IsOrdered (row ∷ rows) d =
    insert_file-IsOrdered row (order_files rows) (has_path-order row.path rows ∙ d.0)
      (order_files-IsOrdered rows d.1)

length-insert_file :
    (row : FileRow) (rows : List FileRow) → length (insert_file row rows) ≡ suc (length rows)
unfolding insert_file
length-insert_file row [] = refl
length-insert_file row (r ∷ rows) = ground (arith, length-insert_file row rows)

length-order_files : (rows : List FileRow) → length (order_files rows) ≡ length rows
unfolding order_files
length-order_files [] = refl
length-order_files (row ∷ rows) =
    length-insert_file row (order_files rows) ∙ ap suc (length-order_files rows)

-- The row can be read, and its path is one that `parse` gives back.
abbrev pub ReadsBack : Crates → FileRow → Type 0
ReadsBack c row =
    (parse c row.path ≡ ok row.path) × ((t : ℕ) × (unix_time c row.modified_at_unix ≡ ok t))

-- The record for a row, at the instant of its time.
abbrev record_at : FileRow → ℕ → FileRecord
record_at row t = record {
  path = row.path;
  kind = row.kind;
  size_bytes = row.size_bytes;
  modified_at = t;
  content_hash = row.content_hash;
  generation = row.generation;
  device_id = row.device_id;
  sync_state = row.sync_state;
}

All-paths :
    (row : FileRow) (rows : List FileRow)
    → All (λ r. text_lt row.path r.path ≡ true) rows
    → All (λ p. text_lt row.path p ≡ true) (map path_of rows)
All-paths row [] h = tt
All-paths row (r ∷ rows) h = (h.0, All-paths row rows h.1)

IsOrdered-paths : (rows : List FileRow) → IsOrdered rows → IsAscending (map path_of rows)
IsOrdered-paths [] o = tt
IsOrdered-paths (row ∷ rows) o = (All-paths row rows o.0, IsOrdered-paths rows o.1)

module _ (c : Crates) where
  row_to_file_record-eq :
      (row : FileRow) (t : ℕ)
      → parse c row.path ≡ ok row.path
      → unix_time c row.modified_at_unix ≡ ok t
      → row_to_file_record c row ≡ ok (record_at row t)
  unfolding row_to_file_record
  row_to_file_record-eq row t path time = rw (path, time) refl

  try_map-record :
      (rows : List FileRow)
      → All (ReadsBack c) rows
      → (files : List FileRecord) × (try_map (row_to_file_record c) rows ≡ ok files)
        × (map (λ f. f.path) files ≡ map path_of rows)
        × (length files ≡ length rows)
  unfolding try_map
  try_map-record [] hs = ([], refl, refl, refl)
  try_map-record (row ∷ rows) hs =
      let (path, (t, time)) = hs.0 in
      let (files, is, paths, same) = try_map-record rows hs.1 in
      (
        record_at row t ∷ files,
        rw (row_to_file_record-eq row t path time, is) refl,
        ap (λ ps. row.path ∷ ps) paths,
        ap suc same,
      )

  -- If the paths of the rows are distinct, and each row has a time in range and a path that `parse`
  -- gives back, `list_files` succeeds with as many records as there are rows, and their paths grow
  -- strictly.
  pub list_files-IsAscending :
      (db : StateDatabase)
      → HasDistinctPaths db.files
      → All (ReadsBack c) db.files
      → (files : List FileRecord) × (list_files c db ≡ ok files)
        × IsAscending (map (λ f. f.path) files)
        × (length files ≡ length db.files)
  unfolding list_files
  list_files-IsAscending db d hs =
      let (files, is, paths, same) =
        try_map-record (order_files db.files) (All-order_files (ReadsBack c) db.files hs) in
      (
        files,
        is,
        rw paths (IsOrdered-paths (order_files db.files) (order_files-IsOrdered db.files d)),
        same ∙ length-order_files db.files,
      )
