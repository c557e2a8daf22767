-- ===== src/TestProgram/ToString.antt =====
-- `std::to_string` of an unsigned number, which the programs of src/test write and
-- include/routing/table.hpp reads back by `std::stoul`.
use ispd_exa_engine.Base.{
  ℕ, zero, suc, ◌+◌, ◌-◌, ◌*◌, ◌/◌, ◌%◌, ◌≤◌, ◌≡◌, refl, ◌∙◌, List, [], ◌∷◌, ◌++◌, arith, All,
  All-append, true, ltb, Bool-cases, inl, inr, if◌then◌else◌,
}
use ispd_exa_engine.Routing.Stoul.{is_digit, digits_value, IsNumeral}

-- The decimal digits, with fuel for all but the last.
unfoldable digits : ℕ → ℕ → List ℕ
digits zero n = (b'0' + n % 10) ∷ []
digits (suc fuel) n =
    let front = digits fuel (n / 10) in
    if ltb n 10 then (b'0' + n) ∷ [] else front ++ (b'0' + n % 10) ∷ []

unfoldable pub to_string : ℕ → List ℕ
unfolding digits
to_string n = digits n n

abbrev AreDigits : List ℕ → Type 0
AreDigits = All (λ c. is_digit c ≡ true)

IsNumeral-append : (w : List ℕ) (c : ℕ) → AreDigits w → is_digit c ≡ true → IsNumeral (w ++ c ∷ [])
IsNumeral-append [] c h k = (k, tt)
IsNumeral-append (x ∷ w) c (h, hs) k =
    (h, All-append (λ c. is_digit c ≡ true) w (c ∷ []) hs (k, tt))

AreDigits-of_IsNumeral : (w : List ℕ) → IsNumeral w → AreDigits w
AreDigits-of_IsNumeral [] h = absurd h
AreDigits-of_IsNumeral (c ∷ w) h = h

digits-IsNumeral : (fuel n : ℕ) → IsNumeral (digits fuel n)
unfolding digits
digits-IsNumeral zero n = (ground arith, tt)
digits-IsNumeral (suc fuel) n = elim (Bool-cases (ltb n 10)) [
  | inl small ↦ rw small (ground arith, tt)
  | inr large ↦ rw large (
      IsNumeral-append (digits fuel (n / 10)) (b'0' + n % 10)
        (AreDigits-of_IsNumeral _ (digits-IsNumeral fuel (n / 10))) (ground arith))
]

digits_value-append :
    (acc : ℕ) (w : List ℕ) (c : ℕ)
    → AreDigits w
    → is_digit c ≡ true
    → digits_value acc (w ++ c ∷ []) ≡ digits_value acc w * 10 + (c - b'0')
unfolding digits_value
digits_value-append acc [] c h k = rw (digits_value, k) refl
digits_value-append acc (x ∷ w) c (h, hs) k =
    rw (digits_value, h) (digits_value-append (acc * 10 + (x - b'0')) w c hs k)

digits_value-digits : (fuel n : ℕ) → n ≤ fuel → digits_value 0 (digits fuel n) ≡ n
unfolding digits digits_value
digits_value-digits zero n h = let e : n ≡ 0 = omega arith in rw e refl
digits_value-digits (suc fuel) n h = elim (Bool-cases (ltb n 10)) [
  | inl small ↦ rw small (ground arith)
  | inr large ↦
      let ten : 10 ≤ n = ground arith in
      let front = digits_value-digits fuel (n / 10) (omega (arith, ten, h)) in
      rw large (
        digits_value-append 0 (digits fuel (n / 10)) (b'0' + n % 10)
          (AreDigits-of_IsNumeral _ (digits-IsNumeral fuel (n / 10))) (ground arith)
        ∙ omega (arith, front, ten))
]

pub to_string-IsNumeral : (n : ℕ) → IsNumeral (to_string n)
unfolding to_string
to_string-IsNumeral n = digits-IsNumeral n n

pub digits_value-to_string : (n : ℕ) → digits_value 0 (to_string n) ≡ n
unfolding to_string
digits_value-to_string n = digits_value-digits n n (omega arith)
