-- ===== src/Prelude/Paths/Laws.antt =====
-- Paths that are made of names: taken apart by `components`, put together by `push`.
use Prim.Native.Nat.{ℕ}
use mathlib.Core.Path.{◌≡◌, refl, sym, ap, ◌∙◌}
use mathlib.Core.Bool.{Bool, true, false, not, ◌&&◌, ◌||◌}
use mathlib.Core.Logic.{inl, inr}
use mathlib.Core.List.{List, [], ◌∷◌, ◌++◌, map, append_assoc}
use native.Mathlib.Omega.{arith}
use syncer.Prelude.Tests.{◌==◌, nat_eq, if◌then◌else◌, Bool-cases}
use syncer.Prelude.Lists.{All, All-append}
use syncer.Prelude.Texts.{Text, text_eq, codes}
use syncer.Prelude.Paths.{
  is_empty, Component, root_dir, normal, cons_head, split_slash, part_components, leading,
  is_absolute, components, ends_with_slash, push,
}

unfoldable pub has_no_slash : Text → Bool
has_no_slash [] = true
has_no_slash (c ∷ s) = not (c == b'/') && has_no_slash s

-- A name in a directory: not empty, no slash in it, and neither `.` nor `..`.
unfoldable pub is_name : Text → Bool
unfolding has_no_slash is_empty
is_name s = has_no_slash s && not (is_empty s) && not (s == codes ".") && not (s == codes "..")

abbrev pub IsName : Text → Type 0
IsName s = is_name s ≡ true

unfoldable pub join_names : List Text → Text
join_names [] = []
join_names (n ∷ []) = n
join_names (n ∷ m ∷ names) = n ++ b'/' ∷ join_names (m ∷ names)

split_slash-append :
    (s t : Text) → has_no_slash s ≡ true → split_slash (s ++ b'/' ∷ t) ≡ s ∷ split_slash t
unfolding split_slash has_no_slash
split_slash-append [] t h = refl
split_slash-append (c ∷ s) t h = ground (arith, split_slash-append s t)

pub split_slash-name : (s : Text) → has_no_slash s ≡ true → split_slash s ≡ s ∷ []
unfolding split_slash has_no_slash
split_slash-name [] h = refl
split_slash-name (c ∷ s) h = ground (arith, split_slash-name s)

pub name-has_no_slash : (s : Text) → IsName s → has_no_slash s ≡ true
unfolding is_name
name-has_no_slash s h = ground arith

split_slash-join :
    (n : Text) (names : List Text)
    → All IsName (n ∷ names)
    → split_slash (join_names (n ∷ names)) ≡ n ∷ names
unfolding join_names
split_slash-join n [] h = split_slash-name n (name-has_no_slash n h.0)
split_slash-join n (m ∷ names) h =
    split_slash-append n (join_names (m ∷ names)) (name-has_no_slash n h.0)
    ∙ ap (n ∷◌) (split_slash-join m names h.1)

pub part_components-names :
    (names : List Text) → All IsName names → part_components names ≡ map normal names
unfolding part_components is_name
part_components-names [] h = refl
part_components-names (n ∷ names) h = ground (arith, part_components-names names)

is_absolute-name : (n t : Text) → IsName n → is_absolute (n ++ t) ≡ false
unfolding is_name is_absolute
is_absolute-name [] t h = ground arith
is_absolute-name (c ∷ n) t h = ground arith

pub is_absolute_of_name : (n : Text) → IsName n → is_absolute n ≡ false
unfolding is_name is_absolute
is_absolute_of_name [] h = refl
is_absolute_of_name (c ∷ n) h = ground arith

pub is_absolute-join :
    (n : Text) (names : List Text)
    → All IsName (n ∷ names)
    → is_absolute (join_names (n ∷ names)) ≡ false
unfolding join_names
is_absolute-join n [] h = is_absolute_of_name n h.0
is_absolute-join n (m ∷ names) h = is_absolute-name n (b'/' ∷ join_names (m ∷ names)) h.0

leading_of_name : (n : Text) (names : List Text) → IsName n → leading (n ∷ names) ≡ []
unfolding leading is_name
leading_of_name n names h = ground arith

-- What `components` finds in a path that is made of names.
pub components-join :
    (n : Text) (names : List Text)
    → All IsName (n ∷ names)
    → components (join_names (n ∷ names)) ≡ map normal (n ∷ names)
unfolding components
components-join n names h =
    rw (is_absolute-join n names h, split_slash-join n names h, leading_of_name n names h.0)
      (part_components-names (n ∷ names) h)

ends_with_slash-append :
    (s t : Text) → is_empty t ≡ false → ends_with_slash (s ++ t) ≡ ends_with_slash t
unfolding ends_with_slash is_empty
ends_with_slash-append [] t h = refl
ends_with_slash-append (c ∷ []) [] h = ground arith
ends_with_slash-append (c ∷ []) (d ∷ t) h = refl
ends_with_slash-append (c ∷ d ∷ s) t h = ends_with_slash-append (d ∷ s) t h

ends_with_slash_of_name : (n : Text) → has_no_slash n ≡ true → ends_with_slash n ≡ false
unfolding ends_with_slash has_no_slash
ends_with_slash_of_name [] h = refl
ends_with_slash_of_name (c ∷ []) h = ground arith
ends_with_slash_of_name (c ∷ d ∷ s) h = ends_with_slash_of_name (d ∷ s) (ground arith)

pub is_empty-join :
    (n : Text) (names : List Text)
    → All IsName (n ∷ names)
    → is_empty (join_names (n ∷ names)) ≡ false
unfolding join_names is_name
is_empty-join n [] h = ground arith
is_empty-join [] (m ∷ names) h = ground arith
is_empty-join (c ∷ n) (m ∷ names) h = refl

ends_with_slash-cons :
    (c : ℕ) (t : Text) → is_empty t ≡ false → ends_with_slash (c ∷ t) ≡ ends_with_slash t
unfolding ends_with_slash is_empty
ends_with_slash-cons c [] h = ground arith
ends_with_slash-cons c (d ∷ t) h = refl

ends_with_slash-join :
    (n : Text) (names : List Text)
    → All IsName (n ∷ names)
    → ends_with_slash (join_names (n ∷ names)) ≡ false
unfolding join_names is_empty
ends_with_slash-join n [] h = ends_with_slash_of_name n (name-has_no_slash n h.0)
ends_with_slash-join n (m ∷ names) h =
    ends_with_slash-append n (b'/' ∷ join_names (m ∷ names)) refl
    ∙ ends_with_slash-cons b'/' (join_names (m ∷ names)) (is_empty-join m names h.1)
    ∙ ends_with_slash-join m names h.1

join_names-append :
    (n m : Text) (names : List Text)
    → join_names (n ∷ names ++ m ∷ []) ≡ join_names (n ∷ names) ++ b'/' ∷ m
unfolding join_names
join_names-append n m [] = refl
join_names-append n m (k ∷ names) =
    rw (join_names-append k m names)
      (sym (append_assoc n (b'/' ∷ join_names (k ∷ names)) (b'/' ∷ m)))

-- Pushing a name onto a path that is made of names appends it.
pub push-join :
    (names : List Text) (m : Text)
    → All IsName names
    → IsName m
    → push (join_names names) m ≡ join_names (names ++ m ∷ [])
unfolding push join_names
push-join [] m h k = rw (is_absolute_of_name m k)
push-join (n ∷ names) m h k =
    rw (is_absolute_of_name m k, is_empty-join n names h, ends_with_slash-join n names h)
      (sym (join_names-append n m names))

-- The parts of a path have no slash, so its components of the kind `normal` are names.
abbrev pub IsNormalName : Component → Type 0
IsNormalName (normal s) = IsName s
IsNormalName _ = Unit

All-cons_head :
    (c : ℕ) (parts : List Text)
    → (c == b'/') ≡ false
    → All (λ p. has_no_slash p ≡ true) parts
    → All (λ p. has_no_slash p ≡ true) (cons_head c parts)
unfolding cons_head has_no_slash
All-cons_head c [] n h = (ground arith, tt)
All-cons_head c (p ∷ parts) n h = (ground (arith, h.0), h.1)

split_slash-has_no_slash : (s : Text) → All (λ p. has_no_slash p ≡ true) (split_slash s)
unfolding split_slash has_no_slash
split_slash-has_no_slash [] = (refl, tt)
split_slash-has_no_slash (c ∷ s) = elim (Bool-cases (c == b'/')) [
  | inl e ↦ rw e (refl, split_slash-has_no_slash s)
  | inr n ↦ rw n (All-cons_head c (split_slash s) n (split_slash-has_no_slash s))
]

part_components-IsNormalName :
    (parts : List Text)
    → All (λ p. has_no_slash p ≡ true) parts
    → All IsNormalName (part_components parts)
unfolding part_components is_name
part_components-IsNormalName [] h = tt
part_components-IsNormalName (s ∷ parts) h = elim (Bool-cases (is_empty s || s == codes ".")) [
  | inl e ↦ rw e (part_components-IsNormalName parts h.1)
  | inr n ↦ rw n (elim (Bool-cases (s == codes "..")) [
    | inl d ↦ rw d (tt, part_components-IsNormalName parts h.1)
    | inr k ↦ rw k (ground arith, part_components-IsNormalName parts h.1)
  ])
]

pub components-IsNormalName : (p : Text) → All IsNormalName (components p)
unfolding components
components-IsNormalName p =
    All-append IsNormalName (if is_absolute p then root_dir ∷ [] else leading (split_slash p))
      (part_components (split_slash p)) (head_part (is_absolute p) (split_slash p))
      (part_components-IsNormalName (split_slash p) (split_slash-has_no_slash p))
  where
    head_part :
        (b : Bool) (parts : List Text)
        → All IsNormalName (if b then root_dir ∷ [] else leading parts)
    head_part true parts = (tt, tt)
    head_part false [] = tt
    head_part false (s ∷ parts) = elim (Bool-cases (s == codes ".")) [
      | inl e ↦ rw (e, leading) (tt, tt)
      | inr n ↦ rw (n, leading) tt
    ]
