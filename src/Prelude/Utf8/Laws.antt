-- ===== src/Prelude/Utf8/Laws.antt =====
-- Decoding what was encoded.
use Prim.Native.Nat.{ℕ, ◌+◌, ◌*◌, ◌/◌, ◌%◌}
use mathlib.Core.Path.{◌≡◌, refl, ap, ◌∙◌}
use mathlib.Core.Logic.{inl, inr}
use mathlib.Core.Bool.{true, false}
use mathlib.Core.Option.{Option, none, some}
use mathlib.Core.List.{List, [], ◌∷◌, ◌++◌}
use native.Mathlib.Omega.{arith}
use syncer.Prelude.Tests.{ltb, leb, nat_eq, Bool-cases}
use syncer.Prelude.Lists.{All}
use syncer.Prelude.Texts.{Text}
use syncer.Prelude.Utf8.{
  encode_char, bytes, is_scalar, State, start, inside, emit, more, step, decode, from_utf8,
}

abbrev pub IsScalar : ℕ → Type 0
IsScalar c = is_scalar c ≡ true

abbrev cons_to : ℕ → Option Text → Option Text
cons_to c none = none
cons_to c (some s) = some (c ∷ s)

decode-emit :
    (state : State) (b c : ℕ) (rest : List ℕ)
    → step state b ≡ emit c
    → decode state (b ∷ rest) ≡ cons_to c (decode start rest)
unfolding decode
decode-emit start b c rest h = rw (h, decode) (ground arith)
decode-emit (inside missing bits low) b c rest h = rw (h, decode) (ground arith)

decode-more :
    (state : State) (b missing bits low : ℕ) (rest : List ℕ)
    → step state b ≡ more missing bits low
    → decode state (b ∷ rest) ≡ decode (inside missing bits low) rest
unfolding decode
decode-more start b missing bits low rest h = rw (h, decode) refl
decode-more (inside m x l) b missing bits low rest h = rw (h, decode) refl

lead_two : (c : ℕ) → ltb c 0x800 ≡ true → step start (0xc0 + c / 64) ≡ more 1 (c / 64) 0x80
unfolding step
lead_two c h = ground arith

lead_three : (c : ℕ) → ltb c 0x10000 ≡ true → step start (0xe0 + c / 4096) ≡ more 2 (c / 4096) 0x800
unfolding step
lead_three c h = ground arith

lead_four : (c : ℕ) → IsScalar c → step start (0xf0 + c / 262144) ≡ more 3 (c / 262144) 0x10000
unfolding step
lead_four c h = ground arith

next_more :
    (missing bits low r : ℕ)
    → step (inside (2 + missing) bits low) (0x80 + r % 64)
      ≡ more (1 + missing) (bits * 64 + r % 64) low
unfolding step
next_more missing bits low r = ground arith

next_emit :
    (c bits low : ℕ)
    → IsScalar c
    → bits * 64 + c % 64 ≡ c
    → leb low c ≡ true
    → step (inside 1 bits low) (0x80 + c % 64) ≡ emit c
unfolding step
next_emit c bits low h e l = ground arith

digits : (c : ℕ) → c / 64 * 64 + c % 64 ≡ c
digits c = omega arith

digits2 : (c : ℕ) → (c / 4096 * 64 + c / 64 % 64) * 64 + c % 64 ≡ c
digits2 c = omega arith

digits3 : (c : ℕ) → ((c / 262144 * 64 + c / 4096 % 64) * 64 + c / 64 % 64) * 64 + c % 64 ≡ c
digits3 c = omega arith

decode-two :
    (c : ℕ) (rest : List ℕ)
    → IsScalar c
    → ltb c 0x80 ≡ false
    → ltb c 0x800 ≡ true
    → decode start ((0xc0 + c / 64) ∷ (0x80 + c % 64) ∷ rest) ≡ cons_to c (decode start rest)
decode-two c rest h over two =
    decode-more start _ 1 (c / 64) 0x80 _ (lead_two c two)
    ∙ decode-emit (inside 1 (c / 64) 0x80) _ c rest
        (next_emit c (c / 64) 0x80 h (digits c) (ground arith))

decode-three :
    (c : ℕ) (rest : List ℕ)
    → IsScalar c
    → ltb c 0x800 ≡ false
    → ltb c 0x10000 ≡ true
    → decode start ((0xe0 + c / 4096) ∷ (0x80 + c / 64 % 64) ∷ (0x80 + c % 64) ∷ rest)
      ≡ cons_to c (decode start rest)
decode-three c rest h over three =
    decode-more start _ 2 (c / 4096) 0x800 _ (lead_three c three)
    ∙ decode-more _ _ 1 (c / 4096 * 64 + c / 64 % 64) 0x800 _
        (next_more 0 (c / 4096) 0x800 (c / 64))
    ∙ decode-emit _ _ c rest (next_emit c _ 0x800 h (digits2 c) (ground arith))

decode-four :
    (c : ℕ) (rest : List ℕ)
    → IsScalar c
    → ltb c 0x10000 ≡ false
    → decode start (
        (0xf0 + c / 262144)
        ∷ (0x80 + c / 4096 % 64)
        ∷ (0x80 + c / 64 % 64)
        ∷ (0x80 + c % 64)
        ∷ rest)
      ≡ cons_to c (decode start rest)
decode-four c rest h over =
    decode-more start _ 3 (c / 262144) 0x10000 _ (lead_four c h)
    ∙ decode-more _ _ 2 (c / 262144 * 64 + c / 4096 % 64) 0x10000 _
        (next_more 1 (c / 262144) 0x10000 (c / 4096))
    ∙ decode-more _ _ 1 ((c / 262144 * 64 + c / 4096 % 64) * 64 + c / 64 % 64) 0x10000 _
        (next_more 0 _ 0x10000 (c / 64))
    ∙ decode-emit _ _ c rest (next_emit c _ 0x10000 h (digits3 c) (ground arith))

one_byte : (c : ℕ) → ltb c 0x80 ≡ true → step start c ≡ emit c
unfolding step
one_byte c h = ground arith

decode-encode_char :
    (c : ℕ) (rest : List ℕ)
    → IsScalar c
    → decode start (encode_char c ++ rest) ≡ cons_to c (decode start rest)
unfolding encode_char
decode-encode_char c rest h = elim (Bool-cases (ltb c 0x80)) [
  | inl one ↦ rw one (decode-emit start c c rest (one_byte c one))
  | inr over ↦ elim (Bool-cases (ltb c 0x800)) [
    | inl two ↦ rw (over, two) (decode-two c rest h over two)
    | inr over2 ↦ elim (Bool-cases (ltb c 0x10000)) [
      | inl three ↦ rw (over, over2, three) (decode-three c rest h over2 three)
      | inr over3 ↦ rw (over, over2, over3) (decode-four c rest h over3)
    ]
  ]
]

-- A text of scalar values comes back from its bytes.
pub from_utf8-bytes : (s : Text) → All IsScalar s → from_utf8 (bytes s) ≡ some s
unfolding from_utf8 bytes decode
from_utf8-bytes [] h = refl
from_utf8-bytes (c ∷ s) h =
    decode-encode_char c (bytes s) h.0 ∙ ap (cons_to c) (from_utf8-bytes s h.1)
