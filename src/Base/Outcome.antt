-- ===== src/Base/Outcome.antt =====
-- How a call of the program ends: core.hpp's `die`, exceptions, and undefined behaviour as values.
use mathlib.Core.Path.{◌≡◌, refl}
use mathlib.Core.Bool.{Bool, true, false}
use mathlib.Core.Option.{Option, none, some}

-- `die` and `abort()`, the exceptions that the standard library throws, and undefined behaviour
-- (an index out of bounds, a null or an indeterminate pointer, a division by zero).
pub data Error : Type 0 where
  died out_of_range invalid_argument bad_alloc undefined_behaviour : Error

-- What a call returns, or how it ended.
pub data Result {ℓ} (Value : Type ℓ) : Type ℓ where
  err : (error : Error) → Result Value
  ok : (value : Value) → Result Value

-- Goes on only if the test fails.
abbrev pub stop_if : Bool → Error → Result (Unit {0})
stop_if true e = err e
stop_if false e = ok tt

abbrev pub or_fail {ℓ} : {A : Type ℓ} → Option A → Error → Result A
or_fail none e = err e
or_fail (some a) e = ok a

module _ {ℓ κ} {A : Type ℓ} {B : Type κ} where
  infixl 5 ◌>>=◌
  abbrev pub ◌>>=◌ : Result A → (A → Result B) → Result B
  err error >>= continue = err error
  ok value >>= continue = continue value

infixl 5 ◌>>◌
abbrev pub ◌>>◌ {ℓ} : {B : Type ℓ} (check : Result (Unit {0})) (continue : Result B) → Result B
check >> continue = check >>= λ done. continue

-- A chain that returns a value has returned one at its first call.
pub >>=-inverts {ℓ κ} :
    {A : Type ℓ} {B : Type κ} {b : B} (first : Result A) (next : A → Result B)
    → (first >>= next) ≡ ok b
    → (a : A) × (next a ≡ ok b) × (first ≡ ok a)
>>=-inverts (err e) next h = cc
>>=-inverts (ok a) next h = (a, h, refl)

pub or_fail-inverts {ℓ} :
    {A : Type ℓ} {a : A} (o : Option A) (e : Error) → or_fail o e ≡ ok a → o ≡ some a
or_fail-inverts none e h = cc
or_fail-inverts (some x) e h = cc

pub ok_injective {ℓ} : {A : Type ℓ} {x y : A} → ok x ≡ ok y → x ≡ y
ok_injective h = cc
