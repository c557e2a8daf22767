-- ===== src/Szudzik/Pairing.antt =====
-- include/math/utility.hpp: keys do not overflow and do not collide.
use native.Mathlib.Nat.{mul-le-mul}
use ispd_exa_engine.Base.{
  ℕ, ◌+◌, ◌*◌, ◌≤◌, ◌<◌, ◌≡◌, arith, leb, u32_mod, u64_mod, u32, if◌then◌else◌,
}
use ispd_exa_engine.Szudzik.{szudzik}

-- The pairing over unbounded numbers.
abbrev pair : ℕ → ℕ → ℕ
pair a b = if leb b a then a * a + a + b else a + b * b

abbrev larger : ℕ → ℕ → ℕ
larger a b = if leb b a then a else b

-- A pair lies in the shell of its larger member.
pair_shell :
    (a b : ℕ)
    → (larger a b * larger a b ≤ pair a b) × (pair a b < (larger a b + 1) * (larger a b + 1))
pair_shell a b = ground arith

square_lt : (m n p q : ℕ) → m * m ≤ p → p ≡ q → q < (n + 1) * (n + 1) → m ≤ n
square_lt m n p q h e k = grind arith

same_larger : (a b c d : ℕ) → pair a b ≡ pair c d → larger a b ≡ larger c d
same_larger a b c d e =
    let s = pair_shell a b in
    let t = pair_shell c d in
    omega (
      arith,
      square_lt (larger a b) (larger c d) _ _ s.0 e t.1,
      square_lt (larger c d) (larger a b) _ _ t.0 (omega arith) s.1,
    )

pair_injective : (a b c d : ℕ) → pair a b ≡ pair c d → (a ≡ c) × (b ≡ d)
pair_injective a b c d e = let m = same_larger a b c d e in ground arith

pair-lt : (a b : ℕ) → a < u32_mod → b < u32_mod → pair a b < u64_mod
pair-lt a b h k =
    let s = (pair_shell a b).1 in
    let m : larger a b + 1 ≤ u32_mod = ground arith in omega (arith, mul-le-mul m m)

-- On 32-bit arguments no sum or product of `szudzik` leaves the range of `uint64_t`.
pub szudzik_fits :
    (a b : ℕ)
    → a < u32_mod
    → b < u32_mod
    → szudzik a b ≡ (if leb b a then a * a + a + b else a + b * b)
unfolding szudzik
szudzik_fits a b h k =
    let ea : u32 a ≡ a = omega arith in
    let eb : u32 b ≡ b = omega arith in rw (ea, eb) (ground (arith, pair-lt a b h k))

-- Two pairs of 32-bit identifiers with the same key are the same pair.
pub szudzik_injective :
    (a b c d : ℕ)
    → a < u32_mod
    → b < u32_mod
    → c < u32_mod
    → d < u32_mod
    → szudzik a b ≡ szudzik c d
    → (a ≡ c) × (b ≡ d)
szudzik_injective a b c d ha hb hc hd e =
    pair_injective a b c d (rw (szudzik_fits a b ha hb, szudzik_fits c d hc hd) at e)
