-- ===== src/Double.antt =====
-- The `double` values of the source (`timestamp_t`, sizes, powers, load factors). The type and its
-- operations are parameters: the formulas of the code are kept operation for operation, and proofs
-- use only the laws below, which hold of IEEE 754 with rounding, infinities and NaN.
use ispd_exa_engine.Base.{
  ℕ, ◌+◌, ◌-◌, ◌*◌, ◌/◌, ◌≡◌, Bool, true, false, arith, ltb, leb, if◌then◌else◌,
}

pub record Double (D : Type 0) : Type 0 where
  pub nought : D
  pub one : D
  -- `std::numeric_limits<timestamp_t>::max()`
  pub max_value : D
  -- the conversion of a non-negative `int`
  pub of_nat : ℕ → D
  pub add : D → D → D
  pub sub : D → D → D
  pub mul : D → D → D
  pub div : D → D → D
  pub lt : D → D → Bool
  pub le : D → D → Bool

module _ {D : Type 0} ⦃d : Double D⦄ where
  infixl 65 ◌⊕◌ ◌⊖◌
  infixl 70 ◌⊗◌ ◌⊘◌
  infix 50 ◌⊲◌ ◌⊴◌
  infix 4 ◌≼◌
  abbrev pub ◌⊕◌ : D → D → D
  ◌⊕◌ = d.add

  abbrev pub ◌⊖◌ : D → D → D
  ◌⊖◌ = d.sub

  abbrev pub ◌⊗◌ : D → D → D
  ◌⊗◌ = d.mul

  abbrev pub ◌⊘◌ : D → D → D
  ◌⊘◌ = d.div

  -- The tests `a < b` and `a <= b`.
  abbrev pub ◌⊲◌ : D → D → Bool
  ◌⊲◌ = d.lt

  abbrev pub ◌⊴◌ : D → D → Bool
  ◌⊴◌ = d.le

  abbrev pub ◌≼◌ : D → D → Type 0
  a ≼ b = d.le a b ≡ true

  -- `std::max(0.0, x)`
  abbrev pub max_nought : D → D
  max_nought x = if d.lt d.nought x then x else d.nought

-- NaN is not `<=` itself, so these laws ask nothing of it.
pub record IsOrdered (D : Type 0) ⦃d : Double D⦄ : Type 0 where
  pub nought_refl : d.nought ≼ d.nought
  pub refl_of_le : (a b : D) → a ≼ b → (a ≼ a) × (b ≼ b)
  pub le_trans : (a b c : D) → a ≼ b → b ≼ c → a ≼ c
  pub lt_irrefl : (a : D) → d.lt a a ≡ false
  pub le_of_lt : (a b : D) → d.lt a b ≡ true → a ≼ b
  pub lt_trans : (a b c : D) → d.lt a b ≡ true → d.lt b c ≡ true → d.lt a c ≡ true
  pub le-add : (a b : D) → d.nought ≼ a → d.nought ≼ b → a ≼ d.add a b

-- Whole ticks meet the laws.
abbrev pub Ticks : Type 0
Ticks = ℕ

instance abbrev pub ticks : Double Ticks
ticks = record {
  nought = 0;
  one = 1;
  max_value = 1_000_000_000;
  of_nat = λ n. n;
  add = ◌+◌;
  sub = ◌-◌;
  mul = ◌*◌;
  div = ◌/◌;
  lt = ltb;
  le = leb;
}

pub Ticks-IsOrdered : IsOrdered Ticks
Ticks-IsOrdered = ground arith
