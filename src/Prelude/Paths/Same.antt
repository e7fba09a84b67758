-- ===== src/Prelude/Paths/Same.antt =====
-- Paths that `==` takes for the same.
use mathlib.Core.Path.{◌≡◌, refl, sym, ap, ◌∙◌}
use mathlib.Core.Bool.{true}
use mathlib.Core.List.{List, [], ◌∷◌, map}
use native.Mathlib.Omega.{arith}
use syncer.Prelude.Lists.{All}
use syncer.Prelude.Texts.{Text, text_eq, text_eq_iff}
use syncer.Prelude.Paths.{
  Component, prefix, root_dir, cur_dir, parent_dir, normal, components, same_component,
  same_components, same_path,
}
use syncer.Prelude.Paths.Laws.{IsName, join_names, components-join}

abbrev pub IsSamePath : Text → Text → Type 0
IsSamePath p q = components p ≡ components q

same_component-eq : (a b : Component) → same_component a b ≡ true → a ≡ b
unfolding same_component
same_component-eq (prefix a) (prefix b) h = ap prefix ((text_eq_iff a b).0 h)
same_component-eq root_dir root_dir h = refl
same_component-eq cur_dir cur_dir h = refl
same_component-eq parent_dir parent_dir h = refl
same_component-eq (normal a) (normal b) h = ap normal ((text_eq_iff a b).0 h)
same_component-eq a b h = cc

same_components-eq : (ps qs : List Component) → same_components ps qs ≡ true → ps ≡ qs
unfolding same_components
same_components-eq [] [] h = refl
same_components-eq [] (b ∷ qs) h = cc
same_components-eq (a ∷ ps) [] h = cc
same_components-eq (a ∷ ps) (b ∷ qs) h =
    ground (arith, same_component-eq a b, same_components-eq ps qs)

pub same_path-IsSamePath : (p q : Text) → same_path p q ≡ true → IsSamePath p q
unfolding same_path
same_path-IsSamePath p q h = same_components-eq (components p) (components q) h

names-normal : (a b : List Text) → map normal a ≡ map normal b → a ≡ b
names-normal [] [] h = refl
names-normal [] (n ∷ b) h = cc
names-normal (m ∷ a) [] h = cc
names-normal (m ∷ a) (n ∷ b) h = ground (arith, names-normal a b)

-- Paths that are made of names are the same only as the same texts.
pub IsSamePath-join :
    (m n : Text) (a b : List Text)
    → All IsName (m ∷ a)
    → All IsName (n ∷ b)
    → IsSamePath (join_names (m ∷ a)) (join_names (n ∷ b))
    → join_names (m ∷ a) ≡ join_names (n ∷ b)
IsSamePath-join m n a b ha hb same =
    ap join_names
      (names-normal (m ∷ a) (n ∷ b) (sym (components-join m a ha) ∙ same ∙ components-join n b hb))
