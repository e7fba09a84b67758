-- ===== src/Prelude/Decimal.antt =====
-- `Display` and `FromStr` of Rust's integers.
pub mod Laws
use Prim.Native.Nat.{ℕ, zero, suc, ◌+◌, ◌-◌, ◌*◌, ◌/◌, ◌%◌, ◌^◌}
use mathlib.Core.Bool.{Bool, true, false, ◌&&◌}
use mathlib.Core.Option.{Option, none, some}
use mathlib.Core.List.{List, [], ◌∷◌, ◌++◌}
use syncer.Prelude.Tests.{ltb, leb, ◌==◌, nat_eq, if◌then◌else◌}
use syncer.Prelude.Texts.{Text}
use syncer.Prelude.Words.{ℤ, pos, negsuc, u64_max, i64_max}

-- The digits, most significant first, on fuel: a number has fewer digits than its successor.
unfoldable pub digits : ℕ → ℕ → Text
digits zero n = []
digits (suc fuel) n = elim (ltb n 10) [
  | true ↦ (b'0' + n) ∷ []
  | false ↦ digits fuel (n / 10) ++ (b'0' + n % 10) ∷ []
]

-- `n.to_string()`
unfoldable pub display : ℕ → Text
unfolding digits
display n = digits (suc n) n

unfoldable pub display_i64 : ℤ → Text
unfolding display
display_i64 (pos n) = display n
display_i64 (negsuc n) = b'-' ∷ display (suc n)

unfoldable pub is_digit : ℕ → Bool
is_digit c = leb b'0' c && leb c b'9'

-- The loop, which stops at a value above `max`.
unfoldable pub read_digits : ℕ → ℕ → Text → Option ℕ
unfolding is_digit
read_digits max value [] = some value
read_digits max value (c ∷ s) =
    let next = value * 10 + (c - b'0') in
    let rest = read_digits max next s in if is_digit c && leb next max then rest else none

-- At least one digit.
unfoldable pub read_number : ℕ → Text → Option ℕ
unfolding read_digits
read_number max [] = none
read_number max (c ∷ s) = read_digits max 0 (c ∷ s)

-- `s.parse::<u64>()`, `s.parse::<u16>()`: a sign + is allowed.
unfoldable pub parse_unsigned : ℕ → Text → Option ℕ
unfolding read_number
parse_unsigned max [] = none
parse_unsigned max (c ∷ s) = if c == b'+' then read_number max s else read_number max (c ∷ s)

unfoldable pub negated : ℕ → ℤ
negated zero = pos 0
negated (suc n) = negsuc n

-- `s.parse::<i64>()`
unfoldable pub parse_i64 : Text → Option ℤ
unfolding read_number negated
parse_i64 [] = none
parse_i64 (c ∷ s) =
    if c == b'-'
    then elim (read_number (2 ^ 63) s) [ none ↦ none | some n ↦ some (negated n) ]
    else elim (if c == b'+' then read_number i64_max s else read_number i64_max (c ∷ s)) [
      | none ↦ none
      | some n ↦ some (pos n)
    ]
