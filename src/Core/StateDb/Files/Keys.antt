-- ===== src/Core/StateDb/Files/Keys.antt =====
-- The primary key of the table `files`, and what happens to one path.
use syncer.Prelude.{
  ℕ, ◌≡◌, refl, ap, ◌∙◌, Bool, true, false, not, none, List, [], ◌∷◌, map, ok, ◌==◌, if◌then◌else◌,
  keep, arith,
}
use syncer.Prelude.Words.{pos}
use syncer.Prelude.Texts.{Text, text_eq, text_eq_iff}
use syncer.Crates.{Crates}
use syncer.Core.Manifest.{RelativePath, FileEntry}
use syncer.Core.StateDb.Records.{unsynchronized_local_missing}
use syncer.Core.StateDb.Files.{
  overwrite, upsert_file_row, mark_row_started, mark_scan_started, finalize_row, finalize_scan,
  mark_row_deleted, mark_file_deleted_locally, forget_file, file_row, upsert_file,
}
use syncer.Core.StateDb.Files.Scan.{find_file, on_row}
use syncer.Core.StateDb.Tables.{FileRow, StateDatabase}

unfoldable pub has_path : Text → List FileRow → Bool
has_path path [] = false
has_path path (row ∷ rows) =
    let rest = has_path path rows in if row.path == path then true else rest

-- `path TEXT PRIMARY KEY`: no two rows have one path.
abbrev pub HasDistinctPaths : List FileRow → Type 0
HasDistinctPaths [] = Unit
HasDistinctPaths (row ∷ rows) = (has_path row.path rows ≡ false) × HasDistinctPaths rows

has_path-map :
    (f : FileRow → FileRow) (path : Text) (rows : List FileRow)
    → ((row : FileRow) → (f row).path ≡ row.path)
    → has_path path (map f rows) ≡ has_path path rows
unfolding has_path
has_path-map f path [] h = refl
has_path-map f path (row ∷ rows) h = ground (arith, h row, has_path-map f path rows h)

map-HasDistinctPaths :
    (f : FileRow → FileRow) (rows : List FileRow)
    → ((row : FileRow) → (f row).path ≡ row.path)
    → HasDistinctPaths rows
    → HasDistinctPaths (map f rows)
map-HasDistinctPaths f [] h d = tt
map-HasDistinctPaths f (row ∷ rows) h d = (
  ap (λ p. has_path p (map f rows)) (h row) ∙ has_path-map f row.path rows h ∙ d.0,
  map-HasDistinctPaths f rows h d.1,
)

has_path-upsert :
    (path : Text) (row : FileRow) (rows : List FileRow)
    → has_path path (upsert_file_row row rows)
      ≡ (if row.path == path then true else has_path path rows)
unfolding has_path upsert_file_row
has_path-upsert path row [] = refl
has_path-upsert path row (r ∷ rows) = ground (
  arith,
  has_path-upsert path row rows,
  text_eq_iff r.path row.path,
  text_eq_iff row.path path,
  text_eq_iff r.path path,
)

upsert-HasDistinctPaths :
    (row : FileRow) (rows : List FileRow)
    → HasDistinctPaths rows
    → HasDistinctPaths (upsert_file_row row rows)
unfolding upsert_file_row has_path
upsert-HasDistinctPaths row [] d = (refl, tt)
upsert-HasDistinctPaths row (r ∷ rows) d =
    by_test (r.path == row.path) refl (upsert-HasDistinctPaths row rows d.1)
  where
    by_test :
        (b : Bool)
        → (r.path == row.path) ≡ b
        → HasDistinctPaths (upsert_file_row row rows)
        → HasDistinctPaths (if b then overwrite row r ∷ rows else r ∷ upsert_file_row row rows)
    by_test true is rest = d
    by_test false is rest = (
      ground (
        arith,
        has_path-upsert r.path row rows,
        text_eq_iff r.path row.path,
        text_eq_iff row.path r.path,
        d.0,
      ),
      rest,
    )

path-mark_row_deleted :
    (now : ℕ) (path : Text) (row : FileRow) → (mark_row_deleted now path row).path ≡ row.path
unfolding mark_row_deleted
path-mark_row_deleted now path row = ground arith

has_path-keep :
    (path : Text) (p : FileRow → Bool) (rows : List FileRow)
    → has_path path rows ≡ false
    → has_path path (keep p rows) ≡ false
unfolding has_path
has_path-keep path p [] h = refl
has_path-keep path p (row ∷ rows) h = ground (arith, has_path-keep path p rows)

keep-HasDistinctPaths :
    (p : FileRow → Bool) (rows : List FileRow)
    → HasDistinctPaths rows
    → HasDistinctPaths (keep p rows)
keep-HasDistinctPaths p [] d = tt
keep-HasDistinctPaths p (row ∷ rows) d =
    elim (p row) as (λ b. HasDistinctPaths (if b then row ∷ keep p rows else keep p rows)) [
      | true ↦ (has_path-keep row.path p rows d.0, keep-HasDistinctPaths p rows d.1)
      | false ↦ keep-HasDistinctPaths p rows d.1
    ]

-- One statement on the table `files`.
pub data Statement (c : Crates) (now : ℕ) : StateDatabase → StateDatabase → Type 0 where
  starting : (db : StateDatabase) → Statement c now db (mark_scan_started db)
  finalizing : (db : StateDatabase) → Statement c now db (finalize_scan now db)
  deleting :
      (path : RelativePath) (db : StateDatabase)
      → Statement c now db (mark_file_deleted_locally now path db)
  forgetting : (path : RelativePath) (db : StateDatabase) → Statement c now db (forget_file path db)
  upserting :
      (entry : FileEntry) (db after : StateDatabase)
      → upsert_file c now entry db ≡ ok after
      → Statement c now db after

upsert_file-eq :
    (c : Crates) (now : ℕ) (entry : FileEntry) (db after : StateDatabase)
    → upsert_file c now entry db ≡ ok after
    → after.files ≡ upsert_file_row (file_row c now entry) db.files
unfolding upsert_file
upsert_file-eq c now entry db after h = ground arith

-- Every statement that writes to the table `files` keeps its paths distinct.
pub Statement-HasDistinctPaths :
    (c : Crates) (now : ℕ) (before after : StateDatabase)
    → Statement c now before after
    → HasDistinctPaths before.files
    → HasDistinctPaths after.files
unfolding mark_scan_started mark_row_started finalize_scan finalize_row mark_file_deleted_locally
    mark_row_deleted forget_file
Statement-HasDistinctPaths c now _ _ (starting db) d =
    map-HasDistinctPaths mark_row_started db.files (λ row. ground arith) d
Statement-HasDistinctPaths c now _ _ (finalizing db) d =
    map-HasDistinctPaths (finalize_row now) db.files (λ row. ground arith) d
Statement-HasDistinctPaths c now _ _ (deleting path db) d =
    map-HasDistinctPaths (mark_row_deleted now path) db.files (path-mark_row_deleted now path) d
Statement-HasDistinctPaths c now _ _ (forgetting path db) d =
    keep-HasDistinctPaths (λ row. not (row.path == path)) db.files d
Statement-HasDistinctPaths c now _ _ (upserting entry db after h) d =
    rw (upsert_file-eq c now entry db after h)
      (upsert-HasDistinctPaths (file_row c now entry) db.files d)

find_file-keep :
    (path forgotten : Text) (rows : List FileRow)
    → find_file path (keep (λ row. not (row.path == forgotten)) rows)
      ≡ (if path == forgotten then none else find_file path rows)
unfolding find_file
find_file-keep path forgotten [] = ground arith
find_file-keep path forgotten (row ∷ rows) = ground (
  arith,
  find_file-keep path forgotten rows,
  text_eq_iff path forgotten,
  text_eq_iff row.path path,
  text_eq_iff row.path forgotten,
)

-- What a local deletion makes of the row of its path.
abbrev pub deleted_row : ℕ → FileRow → FileRow
deleted_row now row = record row {
  sync_state = unsynchronized_local_missing;
  modified_at_unix = pos now;
}

find_file-deleted :
    (now : ℕ) (path deleted : Text) (rows : List FileRow)
    → find_file path (map (mark_row_deleted now deleted) rows) ≡ (
        if path == deleted
        then on_row (deleted_row now) (find_file path rows)
        else find_file path rows)
unfolding find_file mark_row_deleted
find_file-deleted now path deleted [] = ground arith
find_file-deleted now path deleted (row ∷ rows) = ground (
  arith,
  find_file-deleted now path deleted rows,
  text_eq_iff path deleted,
  text_eq_iff row.path path,
  text_eq_iff row.path deleted,
)

-- `mark_file_deleted_locally` changes the row of its path alone, to missing since now, and
-- `forget_file` drops the row of its path alone.
pub find_file-deleted_forgotten :
    (now : ℕ) (path other : Text) (db : StateDatabase)
    → (find_file other (mark_file_deleted_locally now path db).files ≡ (
        if other == path
        then on_row (deleted_row now) (find_file other db.files)
        else find_file other db.files))
      × (find_file other (forget_file path db).files
          ≡ (if other == path then none else find_file other db.files))
unfolding mark_file_deleted_locally forget_file
find_file-deleted_forgotten now path other db =
    (find_file-deleted now other path db.files, find_file-keep other path db.files)
