-- ===== src/Core/StateDb/Files/Scan.antt =====
-- What a scan leaves in the table `files`: the start, an upsert for each file seen, and the end.
use syncer.Prelude.{
  ℕ, ◌≤◌, ◌≡◌, refl, ap, ◌∙◌, true, false, not, ◌&&◌, Option, none, some, List, [], ◌∷◌, map, ok,
  ◌>>=◌, ◌==◌, if◌then◌else◌, arith, All,
}
use syncer.Prelude.Words.{i64_max}
use syncer.Prelude.Texts.{Text, text_eq, text_eq_iff}
use syncer.Crates.{Crates}
use syncer.Core.Error.{CoreResult}
use syncer.Core.Manifest.{FileEntry}
use syncer.Core.StateDb.Records.{local_available, unsynchronized_local_missing}
use syncer.Core.StateDb.Files.{
  upsert_file_row, is_skipped, mark_row_started, mark_scan_started, finalize_row, finalize_scan,
  file_row, upsert_file,
}
use syncer.Core.StateDb.Tables.{FileRow, StateDatabase}

unfoldable pub find_file : Text → List FileRow → Option FileRow
find_file path [] = none
find_file path (row ∷ rows) =
    let rest = find_file path rows in if row.path == path then some row else rest

-- The entry of the last file seen with the path.
unfoldable pub last_seen : Text → List FileEntry → Option FileEntry
last_seen path [] = none
last_seen path (e ∷ entries) = elim (last_seen path entries) [
  | some d ↦ some d
  | none ↦ if e.path == path then some e else none
]

abbrev pub on_row : (FileRow → FileRow) → Option FileRow → Option FileRow
on_row f none = none
on_row f (some row) = some (f row)

-- The row of a file that the scan did not see.
unfoldable pub unseen : ℕ → FileRow → FileRow
unfolding is_skipped
unseen now row = if is_skipped row.sync_state && not row.scan_missing then row else record row {
  scan_missing = true;
  sync_state = unsynchronized_local_missing;
  updated_at_unix = now;
}

pub find_file-map :
    (path : Text) (f : FileRow → FileRow) (rows : List FileRow)
    → ((row : FileRow) → (f row).path ≡ row.path)
    → find_file path (map f rows) ≡ on_row f (find_file path rows)
unfolding find_file
find_file-map path f [] h = refl
find_file-map path f (row ∷ rows) h = ground (arith, h row, find_file-map path f rows h)

find_file-upsert :
    (path : Text) (row : FileRow) (rows : List FileRow)
    → row.scan_missing ≡ false
    → row.sync_state ≡ local_available
    → find_file path (upsert_file_row row rows)
      ≡ (if row.path == path then some row else find_file path rows)
unfolding find_file upsert_file_row
find_file-upsert path row [] m s = ground arith
find_file-upsert path row (r ∷ rows) m s = ground (
  arith,
  find_file-upsert path row rows m s,
  text_eq_iff r.path row.path,
  text_eq_iff row.path path,
  text_eq_iff r.path path,
)

module _ (c : Crates) (now : ℕ) where
  -- The rounds of the scanner's loop that see a file.
  unfoldable pub upsert_files : List FileEntry → StateDatabase → CoreResult StateDatabase
  unfolding upsert_file
  upsert_files [] db = ok db
  upsert_files (e ∷ entries) db = do db ← upsert_file c now e db; upsert_files entries db

  abbrev pub seen_or : Option FileRow → Option FileEntry → Option FileRow
  seen_or row none = row
  seen_or row (some e) = some (file_row c now e)

  abbrev pub FitsFile : FileEntry → Type 0
  FitsFile e = (e.size_bytes ≤ i64_max) × (e.version.generation ≤ i64_max)

  upsert_file-ok :
      (e : FileEntry) (db : StateDatabase)
      → FitsFile e
      → upsert_file c now e db
        ≡ ok (record db { files = upsert_file_row (file_row c now e) db.files })
  unfolding upsert_file
  upsert_file-ok e db fits = ground arith

  path-file_row : (e : FileEntry) → (file_row c now e).path ≡ e.path
  unfolding file_row
  path-file_row e = refl

  missing-file_row : (e : FileEntry) → (file_row c now e).scan_missing ≡ false
  unfolding file_row
  missing-file_row e = refl

  state-file_row : (e : FileEntry) → (file_row c now e).sync_state ≡ local_available
  unfolding file_row
  state-file_row e = refl

  finalize-seen : (e : FileEntry) → finalize_row now (file_row c now e) ≡ file_row c now e
  unfolding finalize_row file_row
  finalize-seen e = refl

  finalize-unseen : (row : FileRow) → finalize_row now (mark_row_started row) ≡ unseen now row
  unfolding finalize_row mark_row_started unseen
  finalize-unseen row = ground arith

  find_file-upsert_files :
      (entries : List FileEntry) (db : StateDatabase)
      → All FitsFile entries
      → (after : StateDatabase) × (upsert_files entries db ≡ ok after)
        × ((path : Text)
            → find_file path after.files
              ≡ seen_or (find_file path db.files) (last_seen path entries))
  unfolding upsert_files last_seen
  find_file-upsert_files [] db fits = (db, refl, λ path. refl)
  find_file-upsert_files (e ∷ entries) db fits =
      let db_e = record db { files = upsert_file_row (file_row c now e) db.files } in
      let (after, is, found) = find_file-upsert_files entries db_e fits.1 in
      (
        after,
        rw (upsert_file-ok e db fits.0) is,
        λ path.
            found path
            ∙ ground (
              arith,
              find_file-upsert path (file_row c now e) db.files (missing-file_row e)
                  (state-file_row e),
              path-file_row e,
            ),
      )

  finalize-seen_or :
      (row : Option FileRow) (e : Option FileEntry)
      → on_row (finalize_row now) (seen_or (on_row mark_row_started row) e)
        ≡ seen_or (on_row (unseen now) row) e
  finalize-seen_or none none = refl
  finalize-seen_or (some row) none = ap some (finalize-unseen row)
  finalize-seen_or row (some e) = ap some (finalize-seen e)

  path-mark_row_started : (row : FileRow) → (mark_row_started row).path ≡ row.path
  unfolding mark_row_started
  path-mark_row_started row = ground arith

  path-finalize_row : (row : FileRow) → (finalize_row now row).path ≡ row.path
  unfolding finalize_row
  path-finalize_row row = ground arith

  -- If the sizes and generations of the files seen fit the columns, a scan succeeds. A path seen then
  -- has the row of the last file seen with it, which is available and not missing. Any other path has
  -- the row that it had, marked missing, except that a skipped file that no earlier scan had marked
  -- stays as it was; and no other path has a row.
  pub find_file-scan :
      (entries : List FileEntry) (db : StateDatabase)
      → All FitsFile entries
      → (after : StateDatabase) × (upsert_files entries (mark_scan_started db) ≡ ok after)
        × ((path : Text)
            → find_file path (finalize_scan now after).files
              ≡ seen_or (on_row (unseen now) (find_file path db.files)) (last_seen path entries))
  unfolding mark_scan_started finalize_scan
  find_file-scan entries db fits =
      let (after, is, found) = find_file-upsert_files entries (mark_scan_started db) fits in
      (
        after,
        is,
        λ path.
            find_file-map path (finalize_row now) after.files path-finalize_row
            ∙ ap (on_row (finalize_row now)) (
                found path
                ∙ ap (λ row. seen_or row (last_seen path entries))
                    (find_file-map path mark_row_started db.files path-mark_row_started))
            ∙ finalize-seen_or (find_file path db.files) (last_seen path entries),
      )
