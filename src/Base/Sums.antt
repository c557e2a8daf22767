-- ===== src/Base/Sums.antt =====
-- Sums over lists and over the identifiers below a bound, which a change at one identifier moves by
-- the difference.
use Prim.Native.Nat.{ℕ, zero, suc, ◌+◌, ◌*◌, ◌<◌, ◌≤◌}
use mathlib.Core.Path.{◌≡◌, refl, ap}
use mathlib.Core.Logic.{◌≢◌}
use mathlib.Core.List.{List, [], ◌∷◌, ◌++◌}
use native.Mathlib.Omega.{arith}
use native.Mathlib.Decide.{ℕ_discrete, dec_lt}
use ispd_exa_engine.Base.Lists.{All, length}

module _ {ℓ} {A : Type ℓ} where
  abbrev pub sum_by : (A → ℕ) → List A → ℕ
  sum_by f [] = 0
  sum_by f (x ∷ xs) = f x + sum_by f xs

  pub sum_by-append : (f : A → ℕ) (xs ys : List A) → sum_by f (xs ++ ys) ≡ sum_by f xs + sum_by f ys
  sum_by-append f [] ys = omega arith
  sum_by-append f (x ∷ xs) ys = omega (arith, sum_by-append f xs ys)

  -- An element in the middle is one summand.
  pub sum_by_middle :
      (f : A → ℕ) (before after : List A) (x : A)
      → sum_by f (before ++ x ∷ after) ≡ f x + sum_by f (before ++ after)
  sum_by_middle f [] after x = refl
  sum_by_middle f (b ∷ bs) after x = omega (arith, sum_by_middle f bs after x)

  -- A sum that is not 0 has a summand that is not 0.
  pub sum_by_positive :
      (f : A → ℕ) (xs : List A)
      → 1 ≤ sum_by f xs
      → (before : List A) × (x : A) × (after : List A) × (xs ≡ before ++ x ∷ after) × (1 ≤ f x)
  sum_by_positive f [] h = absurd (omega (arith, h))
  sum_by_positive f (x ∷ xs) h = elim (dec_lt 0 (f x)) [
    | yes p ↦ ([], x, xs, refl, omega (arith, p))
    | no none ↦
        let (before, y, after, e, p) = sum_by_positive f xs (omega (arith, h, none)) in
        (x ∷ before, y, after, ap (λ ys. x ∷ ys) e, p)
  ]

  pub sum_by-const :
      (f : A → ℕ) (k : ℕ) (xs : List A) → All (λ x. f x ≡ k) xs → sum_by f xs ≡ length xs * k
  sum_by-const f k [] h = omega arith
  sum_by-const f k (x ∷ xs) (h, hs) = grind (arith, h, sum_by-const f k xs hs)

-- The sum of the values of the identifiers below `n`.
abbrev pub sum_below : ℕ → (ℕ → ℕ) → ℕ
sum_below zero f = 0
sum_below (suc n) f = sum_below n f + f n

pub sum_below-same :
    (n : ℕ) (f g : ℕ → ℕ) → ((i : ℕ) → i < n → f i ≡ g i) → sum_below n f ≡ sum_below n g
sum_below-same zero f g h = refl
sum_below-same (suc n) f g h =
    omega (arith, h n (omega arith), sum_below-same n f g (λ i lt. h i (omega arith)))

-- Nothing but the first value.
pub sum_below_first : (n : ℕ) (f : ℕ → ℕ) → ((i : ℕ) → i ≢ 0 → f i ≡ 0) → sum_below (suc n) f ≡ f 0
sum_below_first zero f h = omega arith
sum_below_first (suc n) f h =
    omega (arith, sum_below_first n f h, h (suc n) (λ e. omega (arith, e)))

pub sum_below_one : (n id : ℕ) (f : ℕ → ℕ) → id < n → f id ≤ sum_below n f
sum_below_one zero id f lt = elim lt [ ]
sum_below_one (suc n) id f lt = elim (ℕ_discrete id n) [
  | yes e ↦ rw e (omega arith)
  | no ne ↦ omega (arith, sum_below_one n id f (omega arith))
]

-- Two functions that differ at one identifier only.
pub sum_below_change :
    (n id : ℕ) (f g : ℕ → ℕ)
    → id < n
    → ((i : ℕ) → id ≢ i → f i ≡ g i)
    → sum_below n f + g id ≡ sum_below n g + f id
sum_below_change zero id f g lt h = elim lt [ ]
sum_below_change (suc n) id f g lt h = elim (ℕ_discrete id n) [
  | yes e ↦ rw e (omega (arith, sum_below-same n f g (λ i lt. h i (omega (arith, e)))))
  | no ne ↦ omega (arith, h n ne, sum_below_change n id f g (omega arith) h)
]
