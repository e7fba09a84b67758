-- ===== src/Core/Scanner/Fuel.antt =====
-- The fuel that the walk needs: the directories that are still to be read.
use syncer.Prelude.{
  ℕ, zero, suc, ◌+◌, ◌≤◌, ◌≡◌, refl, Bool, true, false, Option, some, List, [], ◌∷◌, ok, err, arith,
  if◌then◌else◌,
}
use syncer.Prelude.Texts.{Text}
use syncer.Crates.{Crates}
use syncer.Core.Error.{CoreResult}
use syncer.Core.Manifest.{RelativePath, starts_with_syncer, parse, FileEntry}
use syncer.Core.Scanner.{
  Node, no_metadata, plain_file, unreadable_file, directory, unsupported, Directory, readable,
  unreadable, Listing, finished, broken, entry, not_utf8, Walk, Step, and_then, store_file,
  scan_node, scan_entry, scan_listing, scan_directory, scan_stack, scan_into, finish_scan,
  continue_with, ScanSummary, empty_scan,
}
use syncer.Core.StateDb.Files.{upsert_file, mark_scan_started}
use syncer.Core.StateDb.Tables.{StateDatabase}

-- How many directories there are, each with all below it.
unfoldable mutual
  node_directories : Node → ℕ
  node_directories (directory found) = directories found
  node_directories (no_metadata message) = 0
  node_directories (plain_file bytes modified) = 0
  node_directories (unreadable_file message) = 0
  node_directories unsupported = 0

  pub directories : Directory → ℕ
  directories (readable listing) = suc (listing_directories listing)
  directories (unreadable message) = 1

  listing_directories : Listing → ℕ
  listing_directories finished = 0
  listing_directories (broken message) = 0
  listing_directories (entry name node rest) = node_directories node + listing_directories rest
  listing_directories (not_utf8 rendered rest) = listing_directories rest

stack_directories : List (Text × Directory) → ℕ
unfolding directories
stack_directories [] = 0
stack_directories (top ∷ below) = directories top.1 + stack_directories below

directories-positive : (found : Directory) → 1 ≤ directories found
unfolding directories
directories-positive (readable listing) = omega arith
directories-positive (unreadable message) = omega arith

module _ (c : Crates) (root : Text) (device_id now unix_now : ℕ) where
  store_file-stack :
      (e : FileEntry) (w : Walk) (stored : CoreResult StateDatabase)
      → (store_file c root device_id now unix_now e w stored).0.stack ≡ w.stack
  unfolding store_file
  store_file-stack e w (err error) = refl
  store_file-stack e w (ok database) = refl

  scan_node-stack :
      (raw : Text) (relative : RelativePath) (node : Node) (w : Walk)
      → stack_directories (scan_node c root device_id now unix_now raw relative node w).0.stack
        ≤ node_directories node + stack_directories w.stack
  unfolding scan_node store_file stack_directories node_directories
  scan_node-stack raw relative (no_metadata message) w = omega arith
  scan_node-stack raw relative (directory found) w = omega arith
  scan_node-stack raw relative unsupported w = omega arith
  scan_node-stack raw relative (unreadable_file message) w = omega arith
  scan_node-stack raw relative (plain_file bytes modified) w =
      rw (store_file-stack _ w (upsert_file c unix_now _ w.database)) (omega arith)

  scan_entry-stack :
      (parent name : Text) (node : Node) (w : Walk)
      → stack_directories (scan_entry c root device_id now unix_now parent name node w).0.stack
        ≤ node_directories node + stack_directories w.stack
  unfolding scan_entry
  scan_entry-stack parent name node w =
      by_parse (starts_with_syncer (c.components (c.push parent name)))
        (parse c (c.push parent name))
    where
      by_parse :
          (metadata : Bool) (parsed : CoreResult RelativePath)
          → stack_directories
              (if metadata then (let skipped : Step = (w, ok tt) in skipped) else elim parsed [
                | err e ↦ (let refused : Step = (w, err e) in refused)
                | ok relative ↦
                    scan_node c root device_id now unix_now (c.push parent name) relative node w
              ]).0.stack
            ≤ node_directories node + stack_directories w.stack
      by_parse true parsed = omega arith
      by_parse false (err e) = omega arith
      by_parse false (ok relative) = scan_node-stack (c.push parent name) relative node w

  and_then-stack :
      (more : ℕ) (step : Step) (next : Walk → Step)
      → ((w : Walk) → stack_directories (next w).0.stack ≤ more + stack_directories w.stack)
      → stack_directories (and_then step next).0.stack ≤ more + stack_directories step.0.stack
  and_then-stack more (w, ok done) next h = h w
  and_then-stack more (w, err e) next h = omega arith

  scan_listing-stack :
      (parent : Text) (listing : Listing) (w : Walk)
      → stack_directories (scan_listing c root device_id now unix_now parent listing w).0.stack
        ≤ listing_directories listing + stack_directories w.stack
  unfolding scan_listing listing_directories
  scan_listing-stack parent finished w = omega arith
  scan_listing-stack parent (broken message) w = omega arith
  scan_listing-stack parent (not_utf8 rendered rest) w = omega arith
  scan_listing-stack parent (entry name node rest) w =
      let step = scan_entry c root device_id now unix_now parent name node w in
      omega (
        arith,
        scan_entry-stack parent name node w,
        and_then-stack (listing_directories rest) step
            (scan_listing c root device_id now unix_now parent rest)
            (scan_listing-stack parent rest),
      )

  scan_directory-stack :
      (parent : Text) (found : Directory) (w : Walk)
      → 1 + stack_directories (scan_directory c root device_id now unix_now parent found w).0.stack
        ≤ directories found + stack_directories w.stack
  unfolding scan_directory directories
  scan_directory-stack parent (readable listing) w =
      omega (arith, scan_listing-stack parent listing w)
  scan_directory-stack parent (unreadable message) w = omega arith

  continue_with-some :
      (step : Step) (next : Walk → Option Step)
      → ((w : Walk) → w ≡ step.0 → (r : Step) × (next w ≡ some r))
      → (r : Step) × (continue_with step next ≡ some r)
  continue_with-some (w, ok done) next h = h w refl
  continue_with-some (w, err e) next h = ((w, err e), refl)

  scan_stack-some :
      (fuel : ℕ) (stack : List (Text × Directory)) (w : Walk)
      → stack_directories stack ≤ fuel
      → (r : Step) × (scan_stack c root device_id now unix_now fuel stack w ≡ some r)
  unfolding scan_stack stack_directories
  scan_stack-some fuel [] w h = ((w, ok tt), refl)
  scan_stack-some zero (top ∷ below) w h = absurd (omega (arith, h, directories-positive top.1))
  scan_stack-some (suc fuel) (top ∷ below) w h =
      let step =
        scan_directory c root device_id now unix_now top.0 top.1 (record w { stack = below }) in
      continue_with-some step (λ w. scan_stack c root device_id now unix_now fuel w.stack w)
        λ after is.
          scan_stack-some fuel after.stack after (
            rw is (omega (arith, h, scan_directory-stack top.0 top.1 (record w { stack = below }))))

  -- With at least one unit of fuel for each directory of the tree the walk ends, whatever the
  -- database holds and whichever errors occur.
  pub scan_into-ends :
      (fuel : ℕ) (found : Directory) (db : StateDatabase)
      → directories found ≤ fuel
      → (r : StateDatabase × CoreResult ScanSummary) × (scan_into c root device_id now unix_now fuel
            found db
          ≡ some r)
  unfolding scan_into stack_directories
  scan_into-ends fuel found db h =
      let (step, is) =
        scan_stack-some fuel (([], found) ∷ [])
          (record {
            database = mark_scan_started db;
            summary = empty_scan;
            stack = ([], found) ∷ [];
          })
          (omega (arith, h)) in
      (finish_scan c root device_id now unix_now step, rw (is, scan_into) refl)
