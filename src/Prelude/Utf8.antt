-- ===== src/Prelude/Utf8.antt =====
-- UTF-8 as `str::bytes` and `String::from_utf8` of the standard library have it.
pub mod Laws
use Prim.Native.Nat.{ℕ, ◌+◌, ◌-◌, ◌*◌, ◌/◌, ◌%◌}
use mathlib.Core.Bool.{Bool, true, false, not, ◌&&◌, ◌||◌}
use mathlib.Core.Option.{Option, none, some}
use mathlib.Core.List.{List, [], ◌∷◌, ◌++◌}
use syncer.Prelude.Tests.{ltb, leb, ◌==◌, nat_eq, if◌then◌else◌}
use syncer.Prelude.Texts.{Text}

unfoldable pub encode_char : ℕ → List ℕ
encode_char c =
    if ltb c 0x80
    then c ∷ []
    else if ltb c 0x800
    then (0xc0 + c / 64) ∷ (0x80 + c % 64) ∷ []
    else if ltb c 0x10000
    then (0xe0 + c / 4096) ∷ (0x80 + c / 64 % 64) ∷ (0x80 + c % 64) ∷ []
    else (0xf0 + c / 262144) ∷ (0x80 + c / 4096 % 64) ∷ (0x80 + c / 64 % 64) ∷ (0x80 + c % 64) ∷ []

-- `value.bytes()`
unfoldable pub bytes : Text → List ℕ
unfolding encode_char
bytes [] = []
bytes (c ∷ s) = encode_char c ++ bytes s

-- A Unicode scalar value, which every `char` is.
unfoldable pub is_scalar : ℕ → Bool
is_scalar c = ltb c 0xd800 || (leb 0xe000 c && leb c 0x10ffff)

-- Inside a character: how many bytes are missing, the bits so far, and the smallest character that
-- needs as many bytes.
pub data State : Type 0 where
  start : State
  inside : ℕ → ℕ → ℕ → State

pub data Next : Type 0 where
  invalid : Next
  emit : ℕ → Next
  more : ℕ → ℕ → ℕ → Next

unfoldable pub step : State → ℕ → Next
unfolding is_scalar
step start b =
    if ltb b 0x80
    then emit b
    else if ltb b 0xc0
    then invalid
    else if ltb b 0xe0
    then more 1 (b - 0xc0) 0x80
    else if ltb b 0xf0
    then more 2 (b - 0xe0) 0x800
    else if ltb b 0xf8
    then more 3 (b - 0xf0) 0x10000
    else invalid
step (inside missing bits low) b =
    let c = bits * 64 + (b - 0x80) in
    if not (leb 0x80 b && ltb b 0xc0)
    then invalid
    else if not (missing == 1)
    then more (missing - 1) c low
    else if leb low c && is_scalar c
    then emit c
    else invalid

unfoldable pub decode : State → List ℕ → Option Text
unfolding step
decode start [] = some []
decode (inside missing bits low) [] = none
decode state (b ∷ rest) = elim (step state b) [
  | invalid ↦ none
  | emit c ↦ elim (decode start rest) [ none ↦ none | some s ↦ some (c ∷ s) ]
  | more missing bits low ↦ decode (inside missing bits low) rest
]

-- `String::from_utf8`
unfoldable pub from_utf8 : List ℕ → Option Text
unfolding decode
from_utf8 input = decode start input
