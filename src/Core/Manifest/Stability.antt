-- ===== src/Core/Manifest/Stability.antt =====
-- When `parse` returns its argument, which paths it refuses, and where a parsed path is no
-- fixed point of `parse`.
use syncer.Prelude.{
  ℕ, ◌≡◌, refl, sym, ap, ◌∙◌, Bool, true, false, Bool-cases, List, [], ◌∷◌, ◌++◌, inl, inr, arith,
  All, All-append, ok, err, ◌>>=◌, ◌==◌, map,
}
use mathlib.Core.List.{append-nil, append_assoc}
use syncer.Prelude.Texts.{Text, text_beq, text_eq, codes}
use syncer.Prelude.Paths
use syncer.Prelude.Paths.{
  Component, prefix, root_dir, cur_dir, parent_dir, normal, is_empty, trim, trim_start, trim_end,
  is_whitespace, part_components, leading,
}
use syncer.Prelude.Paths.Laws.{
  split_slash-name, name-has_no_slash, part_components-names, IsName, is_name, has_no_slash,
  join_names, push-join, components-join, is_empty-join, is_absolute-join,
}
use syncer.Crates.{Crates, HasStdPaths}
use syncer.Core.Error.{traversal_relative_path}
use syncer.Core.Manifest.{normalize, check_normalized, parse}
use syncer.Core.Manifest.Safety.{IsSafe, check_normalized-join}

unfoldable pub has_parent : List Component → Bool
has_parent [] = false
has_parent (parent_dir ∷ rest) = true
has_parent (prefix s ∷ rest) = has_parent rest
has_parent (root_dir ∷ rest) = has_parent rest
has_parent (cur_dir ∷ rest) = has_parent rest
has_parent (normal s ∷ rest) = has_parent rest

unfoldable pub is_relative : List Component → Bool
is_relative [] = true
is_relative (root_dir ∷ rest) = false
is_relative (prefix s ∷ rest) = false
is_relative (parent_dir ∷ rest) = is_relative rest
is_relative (cur_dir ∷ rest) = is_relative rest
is_relative (normal s ∷ rest) = is_relative rest

part_components-is_relative : (parts : List Text) → is_relative (part_components parts) ≡ true
unfolding part_components is_relative
part_components-is_relative [] = refl
part_components-is_relative (s ∷ parts) = ground (arith, part_components-is_relative parts)

components-is_relative :
    (p : Text) → Paths.is_absolute p ≡ false → is_relative (Paths.components p) ≡ true
unfolding Paths.components is_relative leading
components-is_relative p h = rw h (go (Paths.split_slash p))
  where
    go :
        (parts : List Text)
        → is_relative (leading parts ++ part_components (Paths.split_slash p)) ≡ true
    go [] = part_components-is_relative (Paths.split_slash p)
    go (s ∷ parts) = elim (Bool-cases (s == codes ".")) [
      | inl e ↦ rw e (part_components-is_relative (Paths.split_slash p))
      | inr e ↦ rw e (part_components-is_relative (Paths.split_slash p))
    ]

parent-not_empty : (p : Text) → has_parent (Paths.components p) ≡ true → is_empty p ≡ false
unfolding Paths.components has_parent is_empty text_beq
parent-not_empty [] h = cc h
parent-not_empty (x ∷ p) h = refl

trim_end-cons : (x : ℕ) (n : Text) → is_empty n ≡ false → trim_end n ≡ n → trim_end (x ∷ n) ≡ x ∷ n
unfolding trim_end
trim_end-cons x n e t = rw (t, trim_end) (ground arith)

IsName-space : (n : Text) → IsName n → IsName (b' ' ∷ n)
unfolding is_name has_no_slash is_empty text_beq
IsName-space n h = ground arith

name-not_empty : (n : Text) → IsName n → is_empty n ≡ false
unfolding is_name
name-not_empty n h = ground arith

components_of_dot_space :
    (n : Text) → IsName n → Paths.components (codes "./ " ++ n) ≡ cur_dir ∷ normal (b' ' ∷ n) ∷ []
unfolding Paths.components text_beq is_empty
components_of_dot_space n h =
    rw (split_slash-name n (name-has_no_slash n h))
      (ap (cur_dir ∷◌) (part_components-names ((b' ' ∷ n) ∷ []) (IsName-space n h, tt)))

trim_space : (n : Text) → IsName n → trim_end n ≡ n → trim_start n ≡ n → trim (b' ' ∷ n) ≡ n
unfolding trim is_whitespace
trim_space n h e s = rw (trim_end-cons b' ' n (name-not_empty n h) e) s

trim_dot_space : (n : Text) → IsName n → trim_end n ≡ n → trim (codes "./ " ++ n) ≡ codes "./ " ++ n
unfolding trim is_whitespace is_empty
trim_dot_space n h e = rw (
    trim_end-cons b'.' (codes "/ " ++ n) refl
      (trim_end-cons b'/' (b' ' ∷ n) refl (trim_end-cons b' ' n (name-not_empty n h) e)))

module _ (c : Crates) (std : HasStdPaths c) where
  normalize-traversal :
      (components : List Component) (p : Text)
      → has_parent components ≡ true
      → is_relative components ≡ true
      → normalize c components p ≡ err traversal_relative_path
  unfolding normalize has_parent is_relative
  normalize-traversal [] p h r = cc
  normalize-traversal (normal s ∷ rest) p h r = normalize-traversal rest (c.push p s) h r
  normalize-traversal (cur_dir ∷ rest) p h r = normalize-traversal rest p h r
  normalize-traversal (parent_dir ∷ rest) p h r = refl
  normalize-traversal (root_dir ∷ rest) p h r = cc
  normalize-traversal (prefix s ∷ rest) p h r = cc

  -- `parse` past its first two tests.
  parse_steps :
      (value : Text)
      → is_empty (trim value) ≡ false
      → Paths.is_absolute (trim value) ≡ false
      → parse c value ≡ (normalize c (Paths.components (trim value)) [] >>= check_normalized c)
  unfolding parse
  parse_steps value e a = rw (e, std.is_absolute_lem, a, std.components_lem)

  -- A relative path with a component `..` anywhere in it is refused as a traversal.
  pub parse-traversal :
      (value : Text)
      → Paths.is_absolute (trim value) ≡ false
      → has_parent (Paths.components (trim value)) ≡ true
      → parse c value ≡ err traversal_relative_path
  parse-traversal value a h = rw (parse_steps value (parent-not_empty (trim value) h) a) (
      rw (
        normalize-traversal (Paths.components (trim value)) [] h
          (components-is_relative (trim value) a)))

  normalize-join :
      (names others : List Text)
      → All IsName names
      → All IsName others
      → normalize c (map normal others) (join_names names) ≡ ok (join_names (names ++ others))
  unfolding normalize
  normalize-join names [] hn ho = rw append-nil
  normalize-join names (n ∷ others) hn ho =
      rw (std.push_lem, push-join names n hn ho.0, normalize)
        (rw append_assoc at (
          normalize-join (names ++ n ∷ []) others (All-append IsName names (n ∷ []) hn (ho.0, tt))
            ho.1))

  parse-join :
      (value n : Text) (names : List Text)
      → trim value ≡ join_names (n ∷ names)
      → All IsName (n ∷ names)
      → parse c value ≡ check_normalized c (join_names (n ∷ names))
  unfolding join_names
  parse-join value n names t h =
      parse_steps value (rw t (is_empty-join n names h)) (rw t (is_absolute-join n names h))
      ∙ rw (t, components-join n names h, normalize-join [] (n ∷ names) tt h)

  -- A safe path without white space at its ends is returned as it is.
  pub parse_of_IsSafe : (p : Text) → IsSafe p → trim p ≡ p → parse c p ≡ ok p
  parse_of_IsSafe p safe t =
      parse-join p safe.first safe.others (t ∙ safe.joined) safe.names
      ∙ rw (check_normalized-join c std safe.first safe.others safe.names, safe.not_metadata)
          (ap ok (sym safe.joined))

  parse-dot_space :
      (n : Text) → IsName n → trim_end n ≡ n → parse c (codes "./ " ++ n) ≡ ok (b' ' ∷ n)
  unfolding join_names normalize text_beq is_empty Paths.is_absolute Paths.push
  parse-dot_space n h e =
      parse_steps (codes "./ " ++ n) (rw (trim_dot_space n h e)) (rw (trim_dot_space n h e))
      ∙ rw (trim_dot_space n h e, components_of_dot_space n h, std.push_lem)
          (check_normalized-join c std (b' ' ∷ n) [] (IsName-space n h, tt))

  -- `parse` is not idempotent: behind a leading `./` white space at the start of a name survives,
  -- and the path with it is taken for another path when it is parsed again.
  pub parse-drift :
      (n : Text)
      → IsName n
      → trim_end n ≡ n
      → trim_start n ≡ n
      → (n == codes ".syncer") ≡ false
      → (parse c (codes "./ " ++ n) ≡ ok (b' ' ∷ n)) × (parse c (b' ' ∷ n) ≡ ok n)
  unfolding join_names
  parse-drift n h e s m = (
    parse-dot_space n h e,
    parse-join (b' ' ∷ n) n [] (trim_space n h e s) (h, tt)
        ∙ rw (check_normalized-join c std n [] (h, tt), m),
  )
