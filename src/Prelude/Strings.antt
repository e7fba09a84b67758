-- ===== src/Prelude/Strings.antt =====
-- The methods of Rust's `str` that the exchange between peers calls.
use Prim.Native.Nat.{ℕ, zero, suc, ◌+◌}
use mathlib.Core.Bool.{Bool, true, false, ◌&&◌}
use mathlib.Core.Option.{Option, none, some}
use mathlib.Core.List.{List, [], ◌∷◌, ◌++◌}
use syncer.Prelude.Tests.{◌==◌, nat_eq, leb, if◌then◌else◌}
use syncer.Prelude.Texts.{Text}
use syncer.Prelude.Paths.{is_whitespace}

-- Puts a character in front of the first part.
unfoldable pub cons_first : ℕ → List Text → List Text
cons_first c [] = (c ∷ []) ∷ []
cons_first c (part ∷ parts) = (c ∷ part) ∷ parts

-- A carriage return before a line feed belongs to the line end.
unfoldable pub strip_cr : Text → Text
strip_cr [] = []
strip_cr (c ∷ []) = if c == b'\r' then [] else c ∷ []
strip_cr (c ∷ d ∷ s) = c ∷ strip_cr (d ∷ s)

-- The lines of a text behind a part of the first one; the end of the text ends a line that is not
-- empty, and there it keeps its carriage return.
unfoldable pub lines_from : Text → Text → List Text
unfolding strip_cr
lines_from [] [] = []
lines_from (c ∷ line) [] = (c ∷ line) ∷ []
lines_from line (c ∷ s) =
    let next = lines_from [] s in
    let same = lines_from (line ++ c ∷ []) s in if c == b'\n' then strip_cr line ∷ next else same

-- `s.lines()`
unfoldable pub lines : Text → List Text
unfolding lines_from
lines s = lines_from [] s

-- `s.split_once(at)` and `s.split(at).next()`
unfoldable pub split_once : ℕ → Text → Option (Text × Text)
split_once at [] = none
split_once at (c ∷ s) =
    let rest = split_once at s in
    if c == at
    then some ([], s)
    else elim rest [ none ↦ none | some (before, after) ↦ some (c ∷ before, after) ]

unfoldable pub until : ℕ → Text → Text
until at [] = []
until at (c ∷ s) = let rest = until at s in if c == at then [] else c ∷ rest

-- `s.rsplit_once(at)`: the last occurrence.
unfoldable pub rsplit_once : ℕ → Text → Option (Text × Text)
rsplit_once at [] = none
rsplit_once at (c ∷ s) = elim (rsplit_once at s) [
  | some (before, after) ↦ some (c ∷ before, after)
  | none ↦ if c == at then some ([], s) else none
]

-- `s.strip_prefix(prefix)` and `s.starts_with(prefix)`
unfoldable pub strip_prefix : Text → Text → Option Text
strip_prefix [] s = some s
strip_prefix (p ∷ prefix) [] = none
strip_prefix (p ∷ prefix) (c ∷ s) =
    let rest = strip_prefix prefix s in if p == c then rest else none

unfoldable pub starts_with : Text → Text → Bool
unfolding strip_prefix
starts_with prefix s = elim (strip_prefix prefix s) [ none ↦ false | some rest ↦ true ]

-- `s.trim_start_matches(prefix)`: as often as it stands there, on fuel for the length of the text.
unfoldable pub trim_start_matches : ℕ → Text → Text → Text
unfolding strip_prefix
trim_start_matches zero prefix s = s
trim_start_matches (suc fuel) prefix s = elim (strip_prefix prefix s) [
  | none ↦ s
  | some rest ↦ trim_start_matches fuel prefix rest
]

-- `s.to_ascii_lowercase()`
unfoldable pub to_ascii_lowercase : Text → Text
to_ascii_lowercase [] = []
to_ascii_lowercase (c ∷ s) = (if leb b'A' c && leb c b'Z' then c + 32 else c) ∷ to_ascii_lowercase s

-- `s.split_whitespace()`, behind a part of a word.
unfoldable pub words_from : Text → Text → List Text
words_from [] [] = []
words_from (c ∷ word) [] = (c ∷ word) ∷ []
words_from [] (c ∷ s) =
    let next = words_from [] s in
    let same = words_from (c ∷ []) s in if is_whitespace c then next else same
words_from (d ∷ word) (c ∷ s) =
    let next = words_from [] s in
    let same = words_from (d ∷ word ++ c ∷ []) s in
    if is_whitespace c then (d ∷ word) ∷ next else same

unfoldable pub split_whitespace : Text → List Text
unfolding words_from
split_whitespace s = words_from [] s
