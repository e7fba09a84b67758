-- ===== src/Prelude/BTreeMap.antt =====
-- `std::collections::BTreeMap` with text keys: its entries in the order of the keys.
pub mod Laws
use syncer.Prelude.Tests.{◌==◌, if◌then◌else◌}
use syncer.Prelude.Texts.{Text, text_lt, text_eq}
use mathlib.Core.Option.{Option, none, some}
use mathlib.Core.List.{List, [], ◌∷◌, map}

abbrev pub BTreeMap {ℓ} : Type ℓ → Type ℓ
BTreeMap V = List (Text × V)

module _ {ℓ} {V : Type ℓ} where
  unfoldable pub get : Text → BTreeMap V → Option V
  get k [] = none
  get k ((j, w) ∷ m) = let rest = get k m in if k == j then some w else rest

  -- An entry of the same key is replaced.
  unfoldable pub insert : Text → V → BTreeMap V → BTreeMap V
  insert k v [] = (k, v) ∷ []
  insert k v ((j, w) ∷ m) =
      let rest = insert k v m in
      if k == j then (k, v) ∷ m else if text_lt k j then (k, v) ∷ (j, w) ∷ m else (j, w) ∷ rest

  -- `iter().map(|x| (key x, value x)).collect()`: the entries are inserted from the left.
  unfoldable pub collect_onto : List (Text × V) → BTreeMap V → BTreeMap V
  collect_onto [] m = m
  collect_onto ((k, v) ∷ rest) m = collect_onto rest (insert k v m)

  abbrev pub keys : BTreeMap V → List Text
  keys = map (λ (k, _). k)
