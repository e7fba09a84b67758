-- ===== src/Core/Limits/Fit.antt =====
-- Which transfers the loop of `plan_transfers` accepts, and how much they take.
use syncer.Prelude.{
  ℕ, ◌+◌, ◌≤◌, ◌<◌, ◌≡◌, refl, ◌∙◌, true, false, List, [], ◌∷◌, ◌++◌, leb, if◌then◌else◌,
  Bool-cases, inl, inr, arith, All,
}
use mathlib.Core.List.{append-nil, append_assoc, Perm, perm_middle}
use mathlib.Core.List.Perm
use native.Mathlib.Nat.{add_assoc}
use syncer.Prelude.Words.{u64_max}
use syncer.Core.Limits.Order.{
  IsQueued, NotBefore, sort_by_queued_at-perm, sort_by_queued_at-IsQueued,
}
use syncer.Core.Limits.{
  FolderSizeLimit, PendingTransfer, Budget, plan_transfer, plan_loop, plan_transfers,
  sort_by_queued_at,
}

abbrev pub total_size : List PendingTransfer → ℕ
total_size [] = 0
total_size (t ∷ rest) = t.size_bytes + total_size rest

total_size-append :
    (xs ys : List PendingTransfer) → total_size (xs ++ ys) ≡ total_size xs + total_size ys
total_size-append [] ys = omega arith
total_size-append (x ∷ xs) ys = omega (arith, total_size-append xs ys)

-- In a queue, what the greedy rule takes and what it leaves: a transfer is taken exactly if the
-- bytes used by then and its own bytes stay within the limit.
abbrev pub taken : ℕ → ℕ → List PendingTransfer → List PendingTransfer
taken max used [] = []
taken max used (t ∷ rest) =
    let yes = t ∷ taken max (used + t.size_bytes) rest in
    let more = taken max used rest in if leb (used + t.size_bytes) max then yes else more

abbrev pub left_over : ℕ → ℕ → List PendingTransfer → List PendingTransfer
left_over max used [] = []
left_over max used (t ∷ rest) =
    let yes = left_over max (used + t.size_bytes) rest in
    let more = t ∷ left_over max used rest in if leb (used + t.size_bytes) max then yes else more

module _ (limit : FolderSizeLimit) (b : Budget) (t : PendingTransfer)
    (m : limit.max_bytes ≤ u64_max) (u : b.used ≤ limit.max_bytes) where
  plan_transfer_taken :
      leb (b.used + t.size_bytes) limit.max_bytes ≡ true
      → plan_transfer limit b t
        ≡ record b { used = b.used + t.size_bytes; accepted = b.accepted ++ t ∷ [] }
  unfolding plan_transfer
  plan_transfer_taken e = ground arith

  plan_transfer_left :
      leb (b.used + t.size_bytes) limit.max_bytes ≡ false
      → plan_transfer limit b t ≡ record b { skipped = b.skipped ++ t ∷ [] }
  unfolding plan_transfer
  plan_transfer_left e = ground arith

-- The loop is the greedy rule.
plan_loop-eq-taken :
    (limit : FolderSizeLimit) (queue : List PendingTransfer) (b : Budget)
    → limit.max_bytes ≤ u64_max
    → b.used ≤ limit.max_bytes
    → plan_loop limit queue b ≡ record {
      used = b.used + total_size (taken limit.max_bytes b.used queue);
      accepted = b.accepted ++ taken limit.max_bytes b.used queue;
      skipped = b.skipped ++ left_over limit.max_bytes b.used queue;
    }
unfolding plan_loop
plan_loop-eq-taken limit [] b m u = simp append-nil (ground arith)
plan_loop-eq-taken limit (t ∷ rest) b m u =
    elim (Bool-cases (leb (b.used + t.size_bytes) limit.max_bytes)) [
      | inl e ↦
          rw (e, plan_transfer_taken limit b t m u e)
            (plan_loop-eq-taken limit rest _ m (ground arith) ∙ simp (add_assoc, append_assoc))
      | inr e ↦
          rw (e, plan_transfer_left limit b t m u e)
            (plan_loop-eq-taken limit rest _ m u ∙ simp append_assoc)
    ]

taken-within :
    (max used : ℕ) (queue : List PendingTransfer)
    → used ≤ max
    → used + total_size (taken max used queue) ≤ max
taken-within max used [] h = omega arith
taken-within max used (t ∷ rest) h =
    ground (arith, taken-within max (used + t.size_bytes) rest, taken-within max used rest)

-- What is left over does not fit at the end of the loop either.
left_over-too_big :
    (max used : ℕ) (queue : List PendingTransfer)
    → All
        (λ t. max < used + total_size (taken max used queue) + t.size_bytes)
        (left_over max used queue)
left_over-too_big max used [] = tt
left_over-too_big max used (t ∷ rest) = elim (Bool-cases (leb (used + t.size_bytes) max)) [
  | inl e ↦ rw (e, ← add_assoc) (left_over-too_big max (used + t.size_bytes) rest)
  | inr e ↦ rw e (ground arith, left_over-too_big max used rest)
]

taken-perm :
    (max used : ℕ) (queue : List PendingTransfer)
    → Perm (taken max used queue ++ left_over max used queue) queue
taken-perm max used [] = Perm.refl []
taken-perm max used (t ∷ rest) = elim (Bool-cases (leb (used + t.size_bytes) max)) [
  | inl e ↦ rw e (Perm.cons t (taken-perm max (used + t.size_bytes) rest))
  | inr e ↦ rw e (
      Perm.trans (perm_middle (taken max used rest) (left_over max used rest))
        (Perm.cons t (taken-perm max used rest)))
]

module _ {κ} (P : PendingTransfer → Type κ) (max : ℕ) where
  All-taken : (used : ℕ) (queue : List PendingTransfer) → All P queue → All P (taken max used queue)
  All-taken used [] h = tt
  All-taken used (t ∷ rest) h = elim (Bool-cases (leb (used + t.size_bytes) max)) [
    | inl e ↦ rw e (h.0, All-taken (used + t.size_bytes) rest h.1)
    | inr e ↦ rw e (All-taken used rest h.1)
  ]

  All-left_over :
      (used : ℕ) (queue : List PendingTransfer) → All P queue → All P (left_over max used queue)
  All-left_over used [] h = tt
  All-left_over used (t ∷ rest) h = elim (Bool-cases (leb (used + t.size_bytes) max)) [
    | inl e ↦ rw e (All-left_over (used + t.size_bytes) rest h.1)
    | inr e ↦ rw e (h.0, All-left_over used rest h.1)
  ]

taken-IsQueued :
    (max used : ℕ) (queue : List PendingTransfer) → IsQueued queue → IsQueued (taken max used queue)
taken-IsQueued max used [] h = tt
taken-IsQueued max used (t ∷ rest) h = elim (Bool-cases (leb (used + t.size_bytes) max)) [
  | inl e ↦ rw e (
    All-taken (NotBefore t) max (used + t.size_bytes) rest h.0,
    taken-IsQueued max (used + t.size_bytes) rest h.1,
  )
  | inr e ↦ rw e (taken-IsQueued max used rest h.1)
]

left_over-IsQueued :
    (max used : ℕ) (queue : List PendingTransfer)
    → IsQueued queue
    → IsQueued (left_over max used queue)
left_over-IsQueued max used [] h = tt
left_over-IsQueued max used (t ∷ rest) h = elim (Bool-cases (leb (used + t.size_bytes) max)) [
  | inl e ↦ rw e (left_over-IsQueued max (used + t.size_bytes) rest h.1)
  | inr e ↦
      rw e (All-left_over (NotBefore t) max used rest h.0, left_over-IsQueued max used rest h.1)
]

module _ (limit : FolderSizeLimit) (used : ℕ) (pending : List PendingTransfer)
    (m : limit.max_bytes ≤ u64_max) (u : used ≤ limit.max_bytes) where
  -- If the folder is within its limit, which is a `u64`, then it is after the accepted transfers:
  -- the final use is the use before plus their sizes, at most the limit, and no skipped transfer
  -- would still fit.
  pub plan_transfers_within :
      ((plan_transfers limit used pending).final_used_bytes
        ≡ used + total_size (plan_transfers limit used pending).accepted)
      × ((plan_transfers limit used pending).final_used_bytes ≤ limit.max_bytes)
      × All
          (λ t.
            limit.max_bytes < (plan_transfers limit used pending).final_used_bytes + t.size_bytes)
          (plan_transfers limit used pending).skipped
  unfolding plan_transfers
  plan_transfers_within =
      rw
        (plan_loop-eq-taken limit (sort_by_queued_at pending)
          (record { used = used; accepted = []; skipped = [] }) m u)
        (refl, taken-within limit.max_bytes used _ u, left_over-too_big limit.max_bytes used _)

  -- Under the same conditions the accepted and the skipped transfers are the pending ones, each
  -- once, and both lists are in the order of the queue.
  pub plan_transfers-perm :
      Perm
        ((plan_transfers limit used pending).accepted
          ++ (plan_transfers limit used pending).skipped)
        pending
      × IsQueued (plan_transfers limit used pending).accepted
      × IsQueued (plan_transfers limit used pending).skipped
  unfolding plan_transfers
  plan_transfers-perm =
      rw
        (plan_loop-eq-taken limit (sort_by_queued_at pending)
          (record { used = used; accepted = []; skipped = [] }) m u)
        (
          Perm.trans (taken-perm limit.max_bytes used _) (sort_by_queued_at-perm pending),
          taken-IsQueued limit.max_bytes used _ (sort_by_queued_at-IsQueued pending),
          left_over-IsQueued limit.max_bytes used _ (sort_by_queued_at-IsQueued pending),
        )
