-- ===== src/Prelude/BTreeMap/Laws.antt =====
-- Lookup after insertion, and the strict order of the keys.
use syncer.Prelude.Tests.{◌==◌, beq_refl, beq→eq, if◌then◌else◌, Bool-cases}
use syncer.Prelude.Texts.{Text, text_lt, text_lt_trans, text_lt_total, text_eq, text_eq_iff}
use syncer.Prelude.Lists.{All}
use syncer.Prelude.BTreeMap.{BTreeMap, get, insert, collect_onto, keys}
use mathlib.Core.Path.{◌≡◌, refl}
use mathlib.Core.Bool.{true, false}
use mathlib.Core.Logic.{inl, inr}
use mathlib.Core.Option.{some}
use mathlib.Core.List.{List, [], ◌∷◌}
use native.Mathlib.Omega.{arith}

-- The texts grow strictly.
abbrev pub IsAscending : List Text → Type 0
IsAscending [] = Unit
IsAscending (k ∷ ks) = All (λ j. text_lt k j ≡ true) ks × IsAscending ks

All-below_trans :
    (k j : Text) (ks : List Text)
    → text_lt k j ≡ true
    → All (λ i. text_lt j i ≡ true) ks
    → All (λ i. text_lt k i ≡ true) ks
All-below_trans k j [] h a = tt
All-below_trans k j (i ∷ ks) h a = (text_lt_trans k j i h a.0, All-below_trans k j ks h a.1)

module _ {ℓ} {V : Type ℓ} where
  pub get-insert :
      (k j : Text) (v : V) (m : BTreeMap V)
      → get j (insert k v m) ≡ (if j == k then some v else get j m)
  unfolding get insert
  get-insert k j v [] = refl
  get-insert k j v ((i, w) ∷ m) =
      ground (arith, text_eq_iff k i, text_eq_iff j i, text_eq_iff j k, get-insert k j v m)

  All-insert {κ} :
      (P : Text → Type κ) (k : Text) (v : V) (m : BTreeMap V)
      → P k
      → All P (keys m)
      → All P (keys (insert k v m))
  unfolding insert
  All-insert P k v [] h a = (h, tt)
  All-insert P k v ((j, w) ∷ m) h a = elim (Bool-cases (k == j)) [
    | inl e ↦ rw e (h, a.1)
    | inr n ↦ rw n (elim (Bool-cases (text_lt k j)) [
      | inl l ↦ rw l (h, a)
      | inr g ↦ rw g (a.0, All-insert P k v m h a.1)
    ])
  ]

  insert-IsAscending :
      (k : Text) (v : V) (m : BTreeMap V) → IsAscending (keys m) → IsAscending (keys (insert k v m))
  unfolding insert
  insert-IsAscending k v [] s = (tt, tt)
  insert-IsAscending k v ((j, w) ∷ m) s = elim (Bool-cases (k == j)) [
    | inl e ↦ rw (e, beq→eq k j e) s
    | inr n ↦ rw n (elim (Bool-cases (text_lt k j)) [
      | inl l ↦ rw l ((l, All-below_trans k j (keys m) l s.0), s)
      | inr g ↦
          rw g (
            All-insert (λ i. text_lt j i ≡ true) k v m (above n g) s.0,
            insert-IsAscending k v m s.1,
          )
    ])
  ]
    where
      above : (k == j) ≡ false → text_lt k j ≡ false → text_lt j k ≡ true
      above n g = elim (Bool-cases (text_lt j k)) [
        | inl l ↦ l
        | inr h ↦ cc (n, beq_refl j, text_lt_total k j g h)
      ]

  pub collect_onto-IsAscending :
      (entries : List (Text × V)) (m : BTreeMap V)
      → IsAscending (keys m)
      → IsAscending (keys (collect_onto entries m))
  unfolding collect_onto
  collect_onto-IsAscending [] m s = s
  collect_onto-IsAscending ((k, v) ∷ rest) m s =
      collect_onto-IsAscending rest (insert k v m) (insert-IsAscending k v m s)
