-- ===== src/Core/Limits/Warning.antt =====
-- Validated limits, and when the warning threshold is reached.
use syncer.Prelude.{ℕ, ◌*◌, ◌/◌, ◌≤◌, ◌≡◌, ◌≢◌, true, ok, arith, ◌↔◌}
use syncer.Prelude.Words.{u64_max}
use syncer.Core.Limits.{FolderSizeLimit, new_limit, is_warning_reached}

-- A limit is constructed exactly from a number of bytes other than 0 and a percentage from 1 to
-- 100, and holds the two.
pub new_limit_iff :
    (max_bytes percent : ℕ) (limit : FolderSizeLimit)
    → (new_limit max_bytes percent ≡ ok limit) ↔ (
        (max_bytes ≢ 0)
        × (1 ≤ percent)
        × (percent ≤ 100)
        × (limit ≡ record { max_bytes = max_bytes; warning_threshold_percent = percent }))
unfolding new_limit
new_limit_iff max_bytes percent limit = ground arith

mul-le_hundred : (m p : ℕ) → p ≤ 100 → m * p ≤ m * 100
mul-le_hundred m p h = grind arith

-- For a validated limit the warning is on when the folder is full.
pub is_warning_reached_full :
    (max_bytes percent used : ℕ) (limit : FolderSizeLimit)
    → new_limit max_bytes percent ≡ ok limit
    → max_bytes ≤ used
    → is_warning_reached limit used ≡ true
unfolding is_warning_reached
is_warning_reached_full max_bytes percent used limit h full =
    let (_, _, p, e) = (new_limit_iff max_bytes percent limit).0 h in
    rw e (ground (arith, mul-le_hundred max_bytes percent p))

-- Where the product of a validated limit and its percentage is a `u64`, the warning is on exactly
-- from the rounded-down percentage of the limit on.
pub is_warning_reached_iff :
    (max_bytes percent used : ℕ) (limit : FolderSizeLimit)
    → new_limit max_bytes percent ≡ ok limit
    → max_bytes * percent ≤ u64_max
    → (is_warning_reached limit used ≡ true) ↔ (max_bytes * percent / 100 ≤ used)
unfolding is_warning_reached
is_warning_reached_iff max_bytes percent used limit h fits =
    let (_, _, _, e) = (new_limit_iff max_bytes percent limit).0 h in rw e (ground arith)
