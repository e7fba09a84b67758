-- ===== src/Prelude/Results.antt =====
-- Rust's `Result` with the operator `?`, which `do` blocks stand for.
use mathlib.Core.Path.{◌≡◌, refl}
use mathlib.Core.Bool.{Bool, true, false}
use mathlib.Core.Option.{Option, none, some}
use mathlib.Core.List.{List, [], ◌∷◌}
use syncer.Prelude.Tests.{if◌then◌else◌}

pub data Result {ℓ} (E : Type 0) (A : Type ℓ) : Type ℓ where
  ok : A → Result E A
  err : E → Result E A

-- `option.ok_or(e)`
abbrev pub ok_or {ℓ} : {E : Type 0} {A : Type ℓ} → E → Option A → Result E A
ok_or e none = err e
ok_or e (some a) = ok a

-- `result.map_err(f)`
abbrev pub map_err {ℓ} : {E F : Type 0} {A : Type ℓ} → (E → F) → Result E A → Result F A
map_err f (ok a) = ok a
map_err f (err e) = err (f e)

infixl 5 ◌>>=◌ ◌>>◌
abbrev pub ◌>>=◌ {ℓ κ} :
    {E : Type 0} {A : Type ℓ} {B : Type κ} → Result E A → (A → Result E B) → Result E B
err error >>= next = err error
ok value >>= next = next value

-- `if !test { return Err(e); }`
abbrev pub guard : {E : Type 0} → Bool → E → Result E (Unit {0})
guard test error = if test then ok tt else err error

abbrev pub ◌>>◌ {ℓ} : {E : Type 0} {B : Type ℓ} → Result E (Unit {0}) → Result E B → Result E B
first >> second = first >>= λ _. second

-- `iter().map(f).collect::<Result<Vec<_>, _>>()`: the first error ends it.
unfoldable pub try_map {ℓ κ} :
    {E : Type 0} {A : Type ℓ} {B : Type κ} → (A → Result E B) → List A → Result E (List B)
try_map f [] = ok []
try_map f (x ∷ xs) = do y ← f x; ys ← try_map f xs; ok (y ∷ ys)

-- A chain that succeeds, taken apart.
pub >>=-eq-ok {ℓ κ} :
    {E : Type 0} {A : Type ℓ} {B : Type κ} (first : Result E A) (next : A → Result E B) {result : B}
    → (first >>= next) ≡ ok result
    → (value : A) × (first ≡ ok value) × (next value ≡ ok result)
>>=-eq-ok (err error) next same = cc
>>=-eq-ok (ok value) next same = (value, refl, same)

pub guard-eq-ok :
    {E : Type 0} (test : Bool) (error : E) {done : Unit {0}}
    → guard test error ≡ ok done
    → test ≡ true
guard-eq-ok true error same = refl
guard-eq-ok false error same = cc

pub ok_or-eq-ok {ℓ} :
    {E : Type 0} {A : Type ℓ} (error : E) (o : Option A) {a : A} → ok_or error o ≡ ok a → o ≡ some a
ok_or-eq-ok error none same = cc
ok_or-eq-ok error (some a) same = cc

pub map_err-eq-ok {ℓ} :
    {E F : Type 0} {A : Type ℓ} (f : E → F) (r : Result E A) {a : A} → map_err f r ≡ ok a → r ≡ ok a
map_err-eq-ok f (ok a) same = cc
map_err-eq-ok f (err e) same = cc

pub ok_injective {ℓ} :
    {E : Type 0} {A : Type ℓ} (a b : A) → (let r : Result E A = ok a in r ≡ ok b) → a ≡ b
ok_injective a b same = cc
