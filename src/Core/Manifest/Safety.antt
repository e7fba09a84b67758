-- ===== src/Core/Manifest/Safety.antt =====
-- What `parse` lets through.
use syncer.Prelude.{
  ◌≡◌, refl, Bool-cases, false, List, [], ◌∷◌, ◌++◌, inl, inr, arith, All, All-append, ok, err,
  >>=-eq-ok, ◌==◌, if◌then◌else◌,
}
use syncer.Prelude.Texts.{Text, text_eq, codes}
use syncer.Prelude.Paths
use syncer.Prelude.Paths.{
  Component, prefix, root_dir, cur_dir, parent_dir, normal, is_empty, as_str, trim,
}
use syncer.Prelude.Paths.Laws.{
  IsName, IsNormalName, join_names, push-join, components-join, is_empty-join,
  components-IsNormalName,
}
use syncer.Crates.{Crates, HasStdPaths}
use syncer.Core.Error.{syncer_metadata_path}
use syncer.Core.Manifest.{normalize, check_normalized, parse}

-- A path of one or more names, the first of which is not `.syncer`.
pub record IsSafe (p : Text) : Type 0 where
  pub first : Text
  pub others : List Text
  pub joined : p ≡ join_names (first ∷ others)
  pub names : All IsName (first ∷ others)
  pub not_metadata : (first == codes ".syncer") ≡ false

module _ (c : Crates) (std : HasStdPaths c) where
  normalize-names :
      (components : List Component) (names : List Text) (p : Text)
      → All IsNormalName components
      → All IsName names
      → normalize c components (join_names names) ≡ ok p
      → (names' : List Text) × (p ≡ join_names names') × All IsName names'
  unfolding normalize
  normalize-names [] names p hc hn e = (names, ground arith, hn)
  normalize-names (normal s ∷ rest) names p hc hn e =
      normalize-names rest (names ++ s ∷ []) p hc.1 (All-append IsName names (s ∷ []) hn (hc.0, tt))
        (rw (std.push_lem, push-join names s hn hc.0) at e)
  normalize-names (cur_dir ∷ rest) names p hc hn e = normalize-names rest names p hc.1 hn e
  normalize-names (parent_dir ∷ rest) names p hc hn e = cc
  normalize-names (root_dir ∷ rest) names p hc hn e = cc
  normalize-names (prefix s ∷ rest) names p hc hn e = cc

  pub check_normalized-join :
      (n : Text) (names : List Text)
      → All IsName (n ∷ names)
      → check_normalized c (join_names (n ∷ names))
        ≡ (if n == codes ".syncer" then err syncer_metadata_path else ok (join_names (n ∷ names)))
  unfolding check_normalized
  check_normalized-join n names h =
      rw (is_empty-join n names h, std.components_lem, components-join n names h) refl

  check_normalized-IsSafe :
      (names : List Text) (p : Text)
      → All IsName names
      → check_normalized c (join_names names) ≡ ok p
      → IsSafe p
  unfolding check_normalized join_names
  check_normalized-IsSafe [] p hn e = cc
  check_normalized-IsSafe (n ∷ names) p hn e = record {
    first = n;
    others = names;
    joined = ground (arith, check_normalized-join n names hn);
    names = hn;
    not_metadata = ground (arith, check_normalized-join n names hn);
  }

  -- A path that `parse` accepts is made of names alone, and does not begin with `.syncer`.
  pub parse-IsSafe : (value p : Text) → parse c value ≡ ok p → IsSafe p
  unfolding parse join_names
  parse-IsSafe value p e = elim (Bool-cases (is_empty (trim value))) [
    | inl h ↦ cc (rw (h, parse) at e)
    | inr h ↦ elim (Bool-cases (Paths.is_absolute (trim value))) [
      | inl k ↦ cc (rw (std.is_absolute_lem, h, k) at e)
      | inr k ↦
          let (q, n, k') =
            >>=-eq-ok _ _ (rw (std.is_absolute_lem, std.components_lem, h, k) at e) in
          let (names, j, hn) = normalize-names _ [] q (components-IsNormalName (trim value)) tt n in
          check_normalized-IsSafe names p hn (rw j at k')
    ]
  ]
