-- ===== src/Prelude/Decimal/Laws.antt =====
-- Reading a number that has been printed, and the characters of a printed number.
use Prim.Native.Nat.{ℕ, zero, suc, ◌+◌, ◌/◌, ◌%◌, ◌^◌, ◌≤◌, ◌<◌}
use mathlib.Core.Path.{◌≡◌, refl, ◌∙◌, ap, sym}
use mathlib.Core.Bool.{true, false}
use mathlib.Core.Logic.{inl, inr}
use mathlib.Core.Option.{some}
use mathlib.Core.List.{[], ◌∷◌, ◌++◌, append_assoc, append-nil}
use native.Mathlib.Omega.{arith}
use syncer.Prelude.Tests.{ltb, Bool-cases}
use syncer.Prelude.Lists.{All, All-append}
use syncer.Prelude.Texts.{Text}
use syncer.Prelude.Words.{ℤ, pos, negsuc, i64_max}
use syncer.Prelude.Decimal.{
  digits, display, display_i64, read_digits, read_number, parse_unsigned, parse_i64, negated,
}

abbrev pub IsDigit : ℕ → Type 0
IsDigit c = (b'0' ≤ c) × (c ≤ b'9')

-- The range of `i64`.
abbrev pub IsI64 : ℤ → Type 0
IsI64 (pos n) = n ≤ i64_max
IsI64 (negsuc n) = n ≤ i64_max

read_last :
    (max n : ℕ) (rest : Text)
    → n ≤ max
    → read_digits max (n / 10) ((b'0' + n % 10) ∷ rest) ≡ read_digits max n rest
unfolding read_digits
read_last max n rest fits = ground arith

read_one :
    (max n : ℕ) (rest : Text)
    → n < 10
    → n ≤ max
    → read_digits max 0 ((b'0' + n) ∷ rest) ≡ read_digits max n rest
unfolding read_digits
read_one max n rest small fits = ground arith

digits_one : (fuel n : ℕ) → ltb n 10 ≡ true → digits (suc fuel) n ≡ (b'0' + n) ∷ []
unfolding digits
digits_one fuel n small = rw (small, digits)

digits_more :
    (fuel n : ℕ)
    → ltb n 10 ≡ false
    → digits (suc fuel) n ≡ digits fuel (n / 10) ++ (b'0' + n % 10) ∷ []
unfolding digits
digits_more fuel n large = rw (large, digits)

-- Reading on behind a printed number starts at that number.
read_digits-digits :
    (max fuel n : ℕ) (rest : Text)
    → n < fuel
    → n ≤ max
    → read_digits max 0 (digits fuel n ++ rest) ≡ read_digits max n rest
read_digits-digits max zero n rest enough fits = absurd (omega arith)
read_digits-digits max (suc fuel) n rest enough fits = elim (Bool-cases (ltb n 10)) [
  | inl small ↦ rw (digits_one fuel n small) (read_one max n rest (ground arith) fits)
  | inr large ↦ rw (digits_more fuel n large) (
      ap (read_digits max 0) (append_assoc (digits fuel (n / 10)) ((b'0' + n % 10) ∷ []) rest)
      ∙ read_digits-digits max fuel (n / 10) ((b'0' + n % 10) ∷ rest) (ground arith) (omega arith)
      ∙ read_last max n rest fits)
]

digits-IsDigit : (fuel n : ℕ) → All IsDigit (digits fuel n)
unfolding digits
digits-IsDigit zero n = tt
digits-IsDigit (suc fuel) n = elim (Bool-cases (ltb n 10)) [
  | inl small ↦ rw (digits_one fuel n small) (ground arith)
  | inr large ↦
      rw (digits_more fuel n large) (
        All-append IsDigit (digits fuel (n / 10)) _ (digits-IsDigit fuel (n / 10))
          (omega arith, tt))
]

pub display-IsDigit : (n : ℕ) → All IsDigit (display n)
unfolding display
display-IsDigit n = digits-IsDigit (suc n) n

digits-first : (fuel n : ℕ) → n < fuel → (d : ℕ) × (s : Text) × (digits fuel n ≡ d ∷ s) × IsDigit d
digits-first zero n enough = absurd (omega arith)
digits-first (suc fuel) n enough = elim (Bool-cases (ltb n 10)) [
  | inl small ↦ (b'0' + n, [], digits_one fuel n small, ground arith)
  | inr large ↦
      let (d, s, same, is_one) = digits-first fuel (n / 10) (ground arith) in
      (
        d,
        s ++ (b'0' + n % 10) ∷ [],
        digits_more fuel n large ∙ ap (λ t. t ++ (b'0' + n % 10) ∷ []) same,
        is_one,
      )
]

pub display-first : (n : ℕ) → (d : ℕ) × (s : Text) × (display n ≡ d ∷ s) × IsDigit d
unfolding display
display-first n = digits-first (suc n) n (omega arith)

read_number-cons : (max d : ℕ) (s : Text) → read_number max (d ∷ s) ≡ read_digits max 0 (d ∷ s)
unfolding read_number
read_number-cons max d s = refl

read_digits-display : (max n : ℕ) → n ≤ max → read_digits max 0 (display n) ≡ some n
unfolding display read_digits
read_digits-display max n fits =
    ap (read_digits max 0) (sym (append-nil (digits (suc n) n)))
    ∙ read_digits-digits max (suc n) n [] (omega arith) fits

pub read_number-display : (max n : ℕ) → n ≤ max → read_number max (display n) ≡ some n
read_number-display max n fits =
    let (d, s, same, is_one) = display-first n in
    rw same (read_number-cons max d s ∙ rw (← same) (read_digits-display max n fits))

-- A printed number is read back where it fits the type.
pub parse_unsigned-display : (max n : ℕ) → n ≤ max → parse_unsigned max (display n) ≡ some n
unfolding parse_unsigned
parse_unsigned-display max n fits =
    let (d, s, same, is_one) = display-first n in
    rw same (ground (arith, read_number-display max n fits, same, is_one))

pub parse_i64-display : (t : ℤ) → IsI64 t → parse_i64 (display_i64 t) ≡ some t
unfolding parse_i64 display_i64 negated
parse_i64-display (pos n) fits =
    let (d, s, same, is_one) = display-first n in
    rw same (ground (arith, read_number-display i64_max n fits, same, is_one))
parse_i64-display (negsuc n) fits =
    ground (arith, read_number-display (2 ^ 63) (suc n) (omega arith))
