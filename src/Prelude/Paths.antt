-- ===== src/Prelude/Paths.antt =====
-- `std::path::Path` and `str::trim` on Unix, as the standard library documents them.
pub mod Laws
pub mod Trim
pub mod Same
use syncer.Prelude.Tests.{◌==◌, nat_eq, leb, if◌then◌else◌}
use syncer.Prelude.Texts.{Text, text_eq, codes}
use Prim.Native.Nat.{ℕ}
use mathlib.Core.Bool.{Bool, true, false, not, ◌&&◌, ◌||◌}
use mathlib.Core.List.{List, [], ◌∷◌, ◌++◌}

-- `char::is_whitespace`: the Unicode property White_Space.
unfoldable pub is_whitespace : ℕ → Bool
is_whitespace c =
    (leb 9 c && leb c 13)
    || c == 32
    || c == 0x85
    || c == 0xa0
    || c == 0x1680
    || (leb 0x2000 c && leb c 0x200a)
    || c == 0x2028
    || c == 0x2029
    || c == 0x202f
    || c == 0x205f
    || c == 0x3000

unfoldable pub is_empty : Text → Bool
is_empty [] = true
is_empty (c ∷ s) = false

unfoldable pub trim_start : Text → Text
trim_start [] = []
trim_start (c ∷ s) = let rest = trim_start s in if is_whitespace c then rest else c ∷ s

unfoldable pub trim_end : Text → Text
unfolding is_empty
trim_end [] = []
trim_end (c ∷ s) =
    let rest = trim_end s in if is_whitespace c && is_empty rest then [] else c ∷ rest

unfoldable pub trim : Text → Text
unfolding trim_start trim_end
trim s = trim_start (trim_end s)

pub data Component : Type 0 where
  prefix : Text → Component
  root_dir : Component
  cur_dir : Component
  parent_dir : Component
  normal : Text → Component

unfoldable pub as_str : Component → Text
as_str (prefix s) = s
as_str root_dir = codes "/"
as_str cur_dir = codes "."
as_str parent_dir = codes ".."
as_str (normal s) = s

unfoldable pub cons_head : ℕ → List Text → List Text
cons_head c [] = (c ∷ []) ∷ []
cons_head c (s ∷ rest) = (c ∷ s) ∷ rest

-- The parts between the slashes; one more than there are slashes.
unfoldable pub split_slash : Text → List Text
unfolding cons_head
split_slash [] = [] ∷ []
split_slash (c ∷ s) = let rest = split_slash s in if c == b'/' then [] ∷ rest else cons_head c rest

-- Empty parts and `.` are skipped.
unfoldable pub part_components : List Text → List Component
part_components [] = []
part_components (s ∷ parts) =
    let rest = part_components parts in
    if is_empty s || s == codes "."
    then rest
    else if s == codes ".."
    then parent_dir ∷ rest
    else normal s ∷ rest

-- A leading `.` is a component of its own.
unfoldable pub leading : List Text → List Component
leading [] = []
leading (s ∷ parts) = if s == codes "." then cur_dir ∷ [] else []

unfoldable pub is_absolute : Text → Bool
is_absolute [] = false
is_absolute (c ∷ s) = c == b'/'

unfoldable pub components : Text → List Component
unfolding part_components leading is_absolute split_slash
components p =
    (if is_absolute p then root_dir ∷ [] else leading (split_slash p))
    ++ part_components (split_slash p)

unfoldable pub ends_with_slash : Text → Bool
ends_with_slash [] = false
ends_with_slash (c ∷ []) = c == b'/'
ends_with_slash (c ∷ d ∷ s) = ends_with_slash (d ∷ s)

-- `PathBuf::push`, and `Path::join` which pushes onto a copy.
unfoldable pub push : Text → Text → Text
unfolding is_absolute is_empty ends_with_slash
push p s =
    if is_absolute s || is_empty p then s else if ends_with_slash p then p ++ s else p ++ b'/' ∷ s

unfoldable pub same_component : Component → Component → Bool
same_component (prefix a) (prefix b) = a == b
same_component root_dir root_dir = true
same_component cur_dir cur_dir = true
same_component parent_dir parent_dir = true
same_component (normal a) (normal b) = a == b
same_component a b = false

unfoldable pub same_components : List Component → List Component → Bool
unfolding same_component
same_components [] [] = true
same_components (a ∷ ps) (b ∷ qs) = same_component a b && same_components ps qs
same_components ps qs = false

-- `==` on paths compares their components.
unfoldable pub same_path : Text → Text → Bool
unfolding components same_components
same_path p q = same_components (components p) (components q)
