-- ===== src/Routing/Stoul.antt =====
-- `std::stoul` in base 10, as `RoutingTableReader::readRoute` calls it.
use ispd_exa_engine.Base.{
  ℕ, ◌+◌, ◌-◌, ◌*◌, ◌≡◌, ◌≢◌, ◌<◌, All, arith, undefined_behaviour, Bool, true, false, ◌&&◌, ◌||◌,
  List, [], ◌∷◌, leb, ◌==◌, if◌then◌else◌, u64_mod, u64_sub, Result, ok, err, invalid_argument,
  out_of_range,
}

abbrev pub is_digit : ℕ → Bool
is_digit c = leb b'0' c && leb c b'9'

-- `isspace` in the C locale.
abbrev pub is_space : ℕ → Bool
is_space c = c == b' ' || (leb 9 c && leb c 13)

unfoldable pub skip_spaces : List ℕ → List ℕ
skip_spaces [] = []
skip_spaces (c ∷ cs) = if is_space c then skip_spaces cs else c ∷ cs

-- The value of the leading digits; what follows them is ignored.
unfoldable pub digits_value : ℕ → List ℕ → ℕ
digits_value acc [] = acc
digits_value acc (c ∷ cs) = elim (is_digit c) [
  | true ↦ digits_value (acc * 10 + (c - b'0')) cs
  | false ↦ acc
]

-- At least one digit, and a value that `unsigned long` holds.
unfoldable pub unsigned_part : List ℕ → Result ℕ
unfolding digits_value
unsigned_part [] = err invalid_argument
unsigned_part (c ∷ cs) =
    if is_digit c
    then (let n = digits_value 0 (c ∷ cs) in if leb u64_mod n then err out_of_range else ok n)
    else err invalid_argument

negate : Result ℕ → Result ℕ
negate (ok n) = ok (u64_sub 0 n)
negate (err e) = err e

-- A sign may stand before the digits; a minus negates the value modulo 2^64.
signed_part : List ℕ → Result ℕ
unfolding negate
signed_part [] = err invalid_argument
signed_part (c ∷ cs) =
    if c == b'+'
    then unsigned_part cs
    else if c == b'-'
    then negate (unsigned_part cs)
    else unsigned_part (c ∷ cs)

unfoldable pub stoul : List ℕ → Result ℕ
unfolding skip_spaces signed_part unsigned_part
stoul s = signed_part (skip_spaces s)

unsigned_part_defined : (s : List ℕ) → unsigned_part s ≢ err undefined_behaviour
unfolding unsigned_part
unsigned_part_defined [] = ground arith
unsigned_part_defined (c ∷ cs) = ground arith

signed_part_defined : (s : List ℕ) → signed_part s ≢ err undefined_behaviour
unfolding signed_part negate
signed_part_defined [] = ground arith
signed_part_defined (c ∷ cs) =
    ground (arith, unsigned_part_defined cs, unsigned_part_defined (c ∷ cs))

-- A bad numeral is an exception.
pub stoul_defined : (s : List ℕ) → stoul s ≢ err undefined_behaviour
unfolding stoul
stoul_defined s = signed_part_defined (skip_spaces s)

-- A non-empty list of digits.
abbrev pub IsNumeral : List ℕ → Type 0
IsNumeral [] = ⊥
IsNumeral (c ∷ cs) = All (λ k. is_digit k ≡ true) (c ∷ cs)

unsigned_part-numeral :
    (c : ℕ) (cs : List ℕ)
    → is_digit c ≡ true
    → digits_value 0 (c ∷ cs) < u64_mod
    → unsigned_part (c ∷ cs) ≡ ok (digits_value 0 (c ∷ cs))
unfolding unsigned_part
unsigned_part-numeral c cs h k = rw h (ground arith)

pub stoul-numeral :
    (w : List ℕ) → IsNumeral w → digits_value 0 w < u64_mod → stoul w ≡ ok (digits_value 0 w)
unfolding stoul skip_spaces signed_part
stoul-numeral [] h k = absurd h
stoul-numeral (c ∷ cs) h k =
    let space : is_space c ≡ false = ground arith in
    let plus : (c == b'+') ≡ false = ground arith in
    let minus : (c == b'-') ≡ false = ground arith in
    rw (space, signed_part, plus, minus) (unsigned_part-numeral c cs h.0 k)
