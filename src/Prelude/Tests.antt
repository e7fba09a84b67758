-- ===== src/Prelude/Tests.antt =====
-- Boolean tests on the native numbers, the conditional, and decidable equality as an interface.
use Prim.Native.Nat.{ℕ, compare, Ordering}
use Prim.Native.String.{String}
use mathlib.Core.Path.{◌≡◌, refl}
use mathlib.Core.Logic.{◌↔◌, ◌⊎◌, inl, inr}
use mathlib.Core.Bool.{Bool, true, false}
use mathlib.Core.Option.{Option, none, some}
use native.Mathlib.Omega.{arith}
use text.Mathlib.Text.{◌==◌ as str_eq}
use text.Mathlib.TextEquality.{eq_iff}

abbrev pub ltb : ℕ → ℕ → Bool
ltb a b = elim (compare a b) [ Ordering.lt ↦ true | _ ↦ false ]

abbrev pub leb : ℕ → ℕ → Bool
leb a b = elim (compare a b) [ Ordering.gt ↦ false | _ ↦ true ]

abbrev pub nat_beq : ℕ → ℕ → Bool
nat_beq a b = elim (compare a b) [ Ordering.eq ↦ true | _ ↦ false ]

infix 1 if◌then◌else◌
abbrev pub if◌then◌else◌ {ℓ} : {A : Type ℓ} → Bool → A → A → A
if true then x else y = x
if false then x else y = y

pub nat_beq_iff : (a b : ℕ) → (nat_beq a b ≡ true) ↔ (a ≡ b)
nat_beq_iff a b = ground arith

-- To split on a computed value and keep the equation.
pub Bool-cases : (b : Bool) → (b ≡ true) ⊎ (b ≡ false)
Bool-cases true = inl refl
Bool-cases false = inr refl

pub Option-cases {ℓ} : {A : Type ℓ} (o : Option A) → (o ≡ none) ⊎ ((a : A) × (o ≡ some a))
Option-cases none = inl refl
Option-cases (some a) = inr (a, refl)

-- Rust's `PartialEq` where it is the equality of values.
pub record PartialEq {ℓ} (T : Type ℓ) : Type ℓ where
  pub eq_test : T → T → Bool
  pub eq_test_iff : (x y : T) → (eq_test x y ≡ true) ↔ (x ≡ y)

infix 50 ◌==◌
abbrev pub ◌==◌ {ℓ} : {T : Type ℓ} ⦃eq : PartialEq T⦄ → T → T → Bool
◌==◌ ⦃eq⦄ x y = eq.eq_test x y

instance abbrev pub nat_eq : PartialEq ℕ
nat_eq = record { eq_test = nat_beq; eq_test_iff = nat_beq_iff }

instance abbrev pub string_eq : PartialEq String
string_eq = record { eq_test = str_eq; eq_test_iff = eq_iff }

-- `Option<String>`, as the fields for content hashes have it.
unfoldable pub option_string_beq : Option String → Option String → Bool
option_string_beq none none = true
option_string_beq none (some b) = false
option_string_beq (some a) none = false
option_string_beq (some a) (some b) = a == b

pub option_string_beq_iff : (a b : Option String) → (option_string_beq a b ≡ true) ↔ (a ≡ b)
unfolding option_string_beq
option_string_beq_iff none none = ground arith
option_string_beq_iff none (some b) = ground arith
option_string_beq_iff (some a) none = ground arith
option_string_beq_iff (some a) (some b) = ground (arith, eq_iff a b)

instance abbrev pub option_string_eq : PartialEq (Option String)
option_string_eq = record { eq_test = option_string_beq; eq_test_iff = option_string_beq_iff }

unfoldable pub option_nat_beq : Option ℕ → Option ℕ → Bool
option_nat_beq none none = true
option_nat_beq none (some b) = false
option_nat_beq (some a) none = false
option_nat_beq (some a) (some b) = a == b

pub option_nat_beq_iff : (a b : Option ℕ) → (option_nat_beq a b ≡ true) ↔ (a ≡ b)
unfolding option_nat_beq
option_nat_beq_iff none none = ground arith
option_nat_beq_iff none (some b) = ground arith
option_nat_beq_iff (some a) none = ground arith
option_nat_beq_iff (some a) (some b) = ground arith

instance abbrev pub option_nat_eq : PartialEq (Option ℕ)
option_nat_eq = record { eq_test = option_nat_beq; eq_test_iff = option_nat_beq_iff }

module _ {ℓ} {A : Type ℓ} ⦃e : PartialEq A⦄ where
  pub beq_refl : (a : A) → (a == a) ≡ true
  beq_refl a = (e.eq_test_iff a a).1 refl

  pub beq→eq : (a b : A) → (a == b) ≡ true → a ≡ b
  beq→eq a b h = (e.eq_test_iff a b).0 h
