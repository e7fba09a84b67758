-- ===== src/Core/Limits/Order.antt =====
-- The queue that `plan_transfers` walks: the pending transfers, oldest first.
use syncer.Prelude.{◌≤◌, List, [], ◌∷◌, leb, Bool-cases, inl, inr, arith, All}
use mathlib.Core.List.{Perm}
use mathlib.Core.List.Perm
use syncer.Core.Limits.{PendingTransfer, insert_by_queued_at, sort_by_queued_at}

abbrev pub NotBefore : PendingTransfer → PendingTransfer → Type 0
NotBefore t u = t.queued_at ≤ u.queued_at

-- Nobody stands in front of an older transfer.
abbrev pub IsQueued : List PendingTransfer → Type 0
IsQueued [] = Unit
IsQueued (t ∷ rest) = All (NotBefore t) rest × IsQueued rest

insert_by_queued_at-perm :
    (t : PendingTransfer) (l : List PendingTransfer) → Perm (insert_by_queued_at t l) (t ∷ l)
unfolding insert_by_queued_at
insert_by_queued_at-perm t [] = Perm.refl (t ∷ [])
insert_by_queued_at-perm t (u ∷ rest) = elim (Bool-cases (leb t.queued_at u.queued_at)) [
  | inl e ↦ rw e (Perm.refl (t ∷ u ∷ rest))
  | inr e ↦ rw e (Perm.trans (Perm.cons u (insert_by_queued_at-perm t rest)) (Perm.swap t u rest))
]

pub sort_by_queued_at-perm : (l : List PendingTransfer) → Perm (sort_by_queued_at l) l
unfolding sort_by_queued_at
sort_by_queued_at-perm [] = Perm.refl []
sort_by_queued_at-perm (t ∷ rest) =
    Perm.trans (insert_by_queued_at-perm t (sort_by_queued_at rest))
      (Perm.cons t (sort_by_queued_at-perm rest))

All-insert :
    (v t : PendingTransfer) (l : List PendingTransfer)
    → NotBefore v t
    → All (NotBefore v) l
    → All (NotBefore v) (insert_by_queued_at t l)
unfolding insert_by_queued_at
All-insert v t [] h a = (h, tt)
All-insert v t (u ∷ rest) h a = elim (Bool-cases (leb t.queued_at u.queued_at)) [
  | inl e ↦ rw e (h, a)
  | inr e ↦ rw e (a.0, All-insert v t rest h a.1)
]

All-earlier :
    (t u : PendingTransfer) (l : List PendingTransfer)
    → NotBefore t u
    → All (NotBefore u) l
    → All (NotBefore t) l
All-earlier t u [] h a = tt
All-earlier t u (v ∷ l) h a = (omega arith, All-earlier t u l h a.1)

insert_by_queued_at-IsQueued :
    (t : PendingTransfer) (l : List PendingTransfer)
    → IsQueued l
    → IsQueued (insert_by_queued_at t l)
unfolding insert_by_queued_at
insert_by_queued_at-IsQueued t [] q = (tt, tt)
insert_by_queued_at-IsQueued t (u ∷ rest) q = elim (Bool-cases (leb t.queued_at u.queued_at)) [
  | inl e ↦ rw e ((ground arith, All-earlier t u rest (ground arith) q.0), q)
  | inr e ↦ rw e (All-insert u t rest (ground arith) q.0, insert_by_queued_at-IsQueued t rest q.1)
]

pub sort_by_queued_at-IsQueued : (l : List PendingTransfer) → IsQueued (sort_by_queued_at l)
unfolding sort_by_queued_at
sort_by_queued_at-IsQueued [] = tt
sort_by_queued_at-IsQueued (t ∷ rest) =
    insert_by_queued_at-IsQueued t (sort_by_queued_at rest) (sort_by_queued_at-IsQueued rest)
