-- ===== src/Examples/Names.antt =====
-- Witnesses for paths, device names, limits and the comparison with a base.
use syncer.Prelude.{
  ℕ, ◌≡◌, ◌≢◌, ◌≤◌, ◌<◌, ◌+◌, ◌*◌, ◌↔◌, refl, true, false, none, some, List, [], ◌∷◌, ◌++◌, ok, err,
  arith, All, inl, inr, String, string_eq,
}
use syncer.Prelude.Texts.{codes}
use syncer.Prelude.Paths
use syncer.Core.Manifest.{parse}
use syncer.Core.Manifest.Safety.{IsSafe, parse-IsSafe}
use syncer.Core.Manifest.Stability.{parse-drift}
use syncer.Core.Limits.{FolderSizeLimit, PendingTransfer, plan_transfers}
use syncer.Core.Limits.Fit.{total_size, plan_transfers_within}
use syncer.Core.Planning.{present, ChangeClassification, classify_file_presence}
use syncer.Core.Planning.Classify.{classify_file_presence_sizes_ignored}
use syncer.Examples.{std_crates, std_crates-HasStdPaths, entry_of}

parse-IsSafe_example : IsSafe (codes "a/b")
unfolding parse Paths.is_whitespace Paths.is_absolute Paths.components syncer.Prelude.text_beq
    Paths.push
parse-IsSafe_example =
    parse-IsSafe std_crates std_crates-HasStdPaths (codes " ./a//b ") (codes "a/b") refl

parse-drift_example :
    (parse std_crates (codes "./ a") ≡ ok (codes " a"))
    × (parse std_crates (codes " a") ≡ ok (codes "a"))
unfolding syncer.Prelude.Paths.Laws.is_name syncer.Prelude.text_beq Paths.trim_end
    Paths.is_whitespace Paths.trim_start
parse-drift_example = parse-drift std_crates std_crates-HasStdPaths (codes "a") refl refl refl refl

abbrev thousand : FolderSizeLimit
thousand = record { max_bytes = 1000; warning_threshold_percent = 80 }

abbrev transfers : List PendingTransfer
transfers =
    record { operation_id = 1; path = codes "a"; size_bytes = 500; queued_at = 3 }
    ∷ record { operation_id = 2; path = codes "b"; size_bytes = 700; queued_at = 1 }
    ∷ record { operation_id = 3; path = codes "c"; size_bytes = 200; queued_at = 2 }
    ∷ []

plan_transfers_within_example :
    ((plan_transfers thousand 100 transfers).final_used_bytes
      ≡ 100 + total_size (plan_transfers thousand 100 transfers).accepted)
    × ((plan_transfers thousand 100 transfers).final_used_bytes ≤ 1000)
    × All
        (λ t. 1000 < (plan_transfers thousand 100 transfers).final_used_bytes + t.size_bytes)
        (plan_transfers thousand 100 transfers).skipped
plan_transfers_within_example =
    plan_transfers_within thousand 100 transfers (omega arith) (omega arith)

classify_file_presence_sizes_ignored_example :
    classify_file_presence
      (present (entry_of (codes "a") 3 "x"))
      (present (entry_of (codes "a") 4 "x"))
      (some (entry_of (codes "a") 3 "x"))
    ≡ ChangeClassification.in_sync
classify_file_presence_sizes_ignored_example =
    classify_file_presence_sizes_ignored (entry_of (codes "a") 3 "x") (entry_of (codes "a") 4 "x")
      (entry_of (codes "a") 3 "x") refl refl (omega arith)
