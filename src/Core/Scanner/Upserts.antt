-- ===== src/Core/Scanner/Upserts.antt =====
-- What the walk does to the database.
use syncer.Prelude.{
  ℕ, zero, suc, ◌+◌, ◌≤◌, ◌≡◌, refl, sym, ap, min, Bool, true, false, Option, none, some, List, [],
  ◌∷◌, ◌++◌, ok, err, >>=-eq-ok, arith, if◌then◌else◌, length, length-append, All, All-append,
}
use mathlib.Core.Path.{subst}
use syncer.Prelude.Words.{u64_max}
use syncer.Prelude.Texts.{Text}
use syncer.Crates.{Crates, HasStdPaths}
use syncer.Core.Error.{CoreResult}
use syncer.Core.Manifest.{RelativePath, starts_with_syncer, parse, FileEntry}
use syncer.Core.Manifest.Safety.{IsSafe, parse-IsSafe}
use syncer.Core.Scanner.{
  Node, no_metadata, plain_file, unreadable_file, directory, unsupported, Directory, readable,
  unreadable, Listing, finished, broken, entry, not_utf8, Walk, Step, and_then, saw_file,
  saw_directory, saw_unsupported, scanned_entry, store_file, scan_node, scan_entry, scan_listing,
  scan_directory, scan_stack, scan_into, finish_scan, continue_with, ScanSummary, empty_scan,
}
use syncer.Core.StateDb.Files.{upsert_file, mark_scan_started, finalize_scan}
use syncer.Core.StateDb.Files.Reads.{list_missing_after_scan}
use syncer.Core.StateDb.Files.Scan.{upsert_files}
use syncer.Core.StateDb.Tables.{StateDatabase}

some-injective {ℓ} : {A : Type ℓ} {a b : A} → some a ≡ some b → a ≡ b
some-injective h = cc h

module _ (c : Crates) (std : HasStdPaths c) (root : Text) (device_id now unix_now : ℕ) where
  upsert_files-append :
      (xs ys : List FileEntry) (db mid after : StateDatabase)
      → upsert_files c unix_now xs db ≡ ok mid
      → upsert_files c unix_now ys mid ≡ ok after
      → upsert_files c unix_now (xs ++ ys) db ≡ ok after
  unfolding upsert_files
  upsert_files-append [] ys db mid after h k = ground (arith, h, k)
  upsert_files-append (e ∷ xs) ys db mid after h k =
      let (next, first, rest) = >>=-eq-ok (upsert_file c unix_now e db) _ h in
      rw first (upsert_files-append xs ys next mid after rest k)

  -- From one walk to a later one: upserts of files with safe paths, each of them counted.
  abbrev pub Upserted : Walk → Walk → Type 0
  Upserted before after =
      (entries : List FileEntry) × (upsert_files c unix_now entries before.database
        ≡ ok after.database)
      × All (λ e. IsSafe e.path) entries
      × (after.summary.files_seen ≡ min (before.summary.files_seen + length entries) u64_max)

  Upserted-same :
      (before after : Walk)
      → before.database ≡ after.database
      → before.summary.files_seen ≡ after.summary.files_seen
      → before.summary.files_seen ≤ u64_max
      → Upserted before after
  unfolding upsert_files
  Upserted-same before after h k le = ([], ap ok h, tt, omega (arith, k, le))

  Upserted-trans : (a b d : Walk) → Upserted a b → Upserted b d → Upserted a d
  Upserted-trans a b d (xs, is_b, safe_b, count_b) (ys, is_d, safe_d, count_d) = (
    xs ++ ys,
    upsert_files-append xs ys a.database b.database d.database is_b is_d,
    All-append _ xs ys safe_b safe_d,
    omega (arith, count_b, count_d, length-append xs ys),
  )

  store_file-Upserted :
      (e : FileEntry) (w : Walk) (stored : CoreResult StateDatabase)
      → IsSafe e.path
      → w.summary.files_seen ≤ u64_max
      → upsert_file c unix_now e w.database ≡ stored
      → Upserted w (store_file c root device_id now unix_now e w stored).0
  unfolding store_file saw_file upsert_files
  store_file-Upserted e w (err error) safe le h = Upserted-same w w refl refl le
  store_file-Upserted e w (ok database) safe le h = (e ∷ [], rw h refl, (safe, tt), omega arith)

  scan_node-Upserted :
      (raw : Text) (relative : RelativePath) (node : Node) (w : Walk)
      → IsSafe relative
      → w.summary.files_seen ≤ u64_max
      → Upserted w (scan_node c root device_id now unix_now raw relative node w).0
  unfolding scan_node saw_directory saw_unsupported scanned_entry
  scan_node-Upserted raw relative (no_metadata message) w safe le = Upserted-same w w refl refl le
  scan_node-Upserted raw relative (directory found) w safe le =
      Upserted-same w (scan_node c root device_id now unix_now raw relative (directory found) w).0
        refl refl le
  scan_node-Upserted raw relative unsupported w safe le =
      Upserted-same w (scan_node c root device_id now unix_now raw relative unsupported w).0 refl
        refl le
  scan_node-Upserted raw relative (unreadable_file message) w safe le =
      Upserted-same w w refl refl le
  scan_node-Upserted raw relative (plain_file bytes modified) w safe le =
      store_file-Upserted (scanned_entry c root device_id now unix_now relative bytes modified) w _
        safe le refl

  scan_entry-Upserted :
      (parent name : Text) (node : Node) (w : Walk)
      → w.summary.files_seen ≤ u64_max
      → Upserted w (scan_entry c root device_id now unix_now parent name node w).0
  unfolding scan_entry
  scan_entry-Upserted parent name node w le =
      by_parse (starts_with_syncer (c.components (c.push parent name)))
        (parse c (c.push parent name)) refl
    where
      by_parse :
          (metadata : Bool) (parsed : CoreResult RelativePath)
          → parse c (c.push parent name) ≡ parsed
          → Upserted w
              (if metadata then (let skipped : Step = (w, ok tt) in skipped) else elim parsed [
                | err e ↦ (let refused : Step = (w, err e) in refused)
                | ok relative ↦
                    scan_node c root device_id now unix_now (c.push parent name) relative node w
              ]).0
      by_parse true parsed h = Upserted-same w w refl refl le
      by_parse false (err e) h = Upserted-same w w refl refl le
      by_parse false (ok relative) h =
          scan_node-Upserted (c.push parent name) relative node w (parse-IsSafe c std _ relative h)
            le

  Upserted-bound : (a b : Walk) → Upserted a b → b.summary.files_seen ≤ u64_max
  Upserted-bound a b (entries, is, safe, count) = omega (arith, count)

  and_then-Upserted :
      (w : Walk) (step : Step) (next : Walk → Step)
      → Upserted w step.0
      → ((v : Walk) → v.summary.files_seen ≤ u64_max → Upserted v (next v).0)
      → Upserted w (and_then step next).0
  and_then-Upserted w (v, ok done) next h k =
      Upserted-trans w v (next v).0 h (k v (Upserted-bound w v h))
  and_then-Upserted w (v, err e) next h k = h

  scan_listing-Upserted :
      (parent : Text) (listing : Listing) (w : Walk)
      → w.summary.files_seen ≤ u64_max
      → Upserted w (scan_listing c root device_id now unix_now parent listing w).0
  unfolding scan_listing
  scan_listing-Upserted parent finished w le = Upserted-same w w refl refl le
  scan_listing-Upserted parent (broken message) w le = Upserted-same w w refl refl le
  scan_listing-Upserted parent (not_utf8 rendered rest) w le = Upserted-same w w refl refl le
  scan_listing-Upserted parent (entry name node rest) w le =
      and_then-Upserted w (scan_entry c root device_id now unix_now parent name node w)
        (scan_listing c root device_id now unix_now parent rest)
        (scan_entry-Upserted parent name node w le) (scan_listing-Upserted parent rest)

  scan_directory-Upserted :
      (parent : Text) (found : Directory) (w : Walk)
      → w.summary.files_seen ≤ u64_max
      → Upserted w (scan_directory c root device_id now unix_now parent found w).0
  unfolding scan_directory
  scan_directory-Upserted parent (unreadable message) w le = Upserted-same w w refl refl le
  scan_directory-Upserted parent (readable listing) w le = scan_listing-Upserted parent listing w le

  continue_with-Upserted :
      (w : Walk) (step : Step) (next : Walk → Option Step) (last : Step)
      → Upserted w step.0
      → ((v : Walk) → v.summary.files_seen ≤ u64_max → next v ≡ some last → Upserted v last.0)
      → continue_with step next ≡ some last
      → Upserted w last.0
  continue_with-Upserted w (v, ok done) next last h k is =
      Upserted-trans w v last.0 h (k v (Upserted-bound w v h) is)
  continue_with-Upserted w (v, err e) next last h k is =
      subst (λ l. Upserted w l.0) (some-injective is) h

  scan_stack-Upserted :
      (fuel : ℕ) (stack : List (Text × Directory)) (w : Walk) (last : Step)
      → w.summary.files_seen ≤ u64_max
      → scan_stack c root device_id now unix_now fuel stack w ≡ some last
      → Upserted w last.0
  unfolding scan_stack
  scan_stack-Upserted fuel [] w last le h =
      subst (λ l. Upserted w l.0) (some-injective h) (Upserted-same w w refl refl le)
  scan_stack-Upserted zero (top ∷ below) w last le h = absurd (ground arith)
  scan_stack-Upserted (suc fuel) (top ∷ below) w last le h =
      continue_with-Upserted w
        (scan_directory c root device_id now unix_now top.0 top.1 (record w { stack = below }))
        (λ v. scan_stack c root device_id now unix_now fuel v.stack v) last
        (scan_directory-Upserted top.0 top.1 (record w { stack = below }) le)
        (λ v bound. scan_stack-Upserted fuel v.stack v last bound) h

  finish_scan-ok :
      (step : Step) (after : StateDatabase) (summary : ScanSummary)
      → finish_scan c root device_id now unix_now step ≡ (after, ok summary)
      → (after ≡ finalize_scan unix_now step.0.database)
        × (summary.files_seen ≡ step.0.summary.files_seen)
  unfolding finish_scan
  finish_scan-ok (w, err e) after summary h = absurd (ground (arith, ap (λ r. r.1) h))
  finish_scan-ok (w, ok done) after summary h =
      let (missing, _, is) =
        >>=-eq-ok (list_missing_after_scan c (finalize_scan unix_now w.database)) _
          (ap (λ r. r.1) h) in
      (sym (ap (λ r. r.0) h), ground (arith, is))

  start_of : StateDatabase → Directory → Walk
  start_of db found = record {
    database = mark_scan_started db;
    summary = empty_scan;
    stack = ([], found) ∷ [];
  }

  scan_into-inner :
      (fuel : ℕ) (found : Directory) (db : StateDatabase)
      (r : StateDatabase × CoreResult ScanSummary)
      → scan_into c root device_id now unix_now fuel found db ≡ some r
      → (step : Step) × (scan_stack c root device_id now unix_now fuel
            (([], found) ∷ [])
            (start_of db found)
          ≡ some step)
        × (finish_scan c root device_id now unix_now step ≡ r)
  unfolding scan_into start_of
  scan_into-inner fuel found db r h =
      by_steps
        (scan_stack c root device_id now unix_now fuel (([], found) ∷ []) (start_of db found)) h
    where
      by_steps :
          (steps : Option Step)
          → elim steps [
            | none ↦ (let ended : Option (StateDatabase × CoreResult ScanSummary) = none in ended)
            | some step ↦ some (finish_scan c root device_id now unix_now step)
          ]
            ≡ some r
          → (step : Step) × (steps ≡ some step)
            × (finish_scan c root device_id now unix_now step ≡ r)
      by_steps none h = absurd (ground arith)
      by_steps (some step) h = (step, refl, some-injective h)

  -- A scan that succeeds has started, upserted files whose paths are safe, and ended; and it reports
  -- as many files as it has upserted, up to the largest `u64`.
  pub scan_into-Upserted :
      (fuel : ℕ) (found : Directory) (db after : StateDatabase) (summary : ScanSummary)
      → scan_into c root device_id now unix_now fuel found db ≡ some (after, ok summary)
      → (entries : List FileEntry) × (mid : StateDatabase) × (upsert_files c unix_now entries
            (mark_scan_started db)
          ≡ ok mid)
        × (after ≡ finalize_scan unix_now mid)
        × All (λ e. IsSafe e.path) entries
        × (summary.files_seen ≡ min (length entries) u64_max)
  unfolding start_of
  scan_into-Upserted fuel found db after summary h =
      let (step, walked, ended) = scan_into-inner fuel found db (after, ok summary) h in
      let (is_after, seen) = finish_scan-ok step after summary ended in
      let (entries, is, safe, count) =
        scan_stack-Upserted fuel (([], found) ∷ []) (start_of db found) step (omega arith) walked in
      (entries, step.0.database, is, is_after, safe, omega (arith, seen, count))
