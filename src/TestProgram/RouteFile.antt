-- ===== src/TestProgram/RouteFile.antt =====
-- The route files that the programs of test write, as the reader of include/routing/table.hpp takes
-- them.
use mathlib.Core.List.{append_assoc}
use ispd_exa_engine.Base.{
  ◌/◌, ◌%◌, ◌==◌, ◌⊎◌, inl, inr, Bool-cases, length, get_elem?, ℕ, zero, suc, ◌+◌, ◌-◌, ◌*◌, ◌≤◌,
  ◌<◌, ◌≡◌, refl, sym, ap, ◌∙◌, subst, List, [], ◌∷◌, ◌++◌, map, arith, All, Bool, some, u32_mod,
  if◌then◌else◌,
}
use ispd_exa_engine.Routing.Reader.RoundTrip.{line_of, IsIdentifier}
use ispd_exa_engine.Routing.Reader.File.{Entry, IsEntry, Differs, file_of}
use ispd_exa_engine.Routing.Stoul.{digits_value}
use ispd_exa_engine.TestProgram.{route_loop, link_loop}
use ispd_exa_engine.TestProgram.ToString.{to_string, to_string-IsNumeral, digits_value-to_string}

-- The identifiers of a loop that counts in steps of two.
pub shifted : (first i : ℕ) → first + 2 + 2 * i ≡ first + 2 * suc i
shifted first i = omega arith

-- `first`, `first + 2`, …
abbrev pub ids_from : ℕ → ℕ → List ℕ
ids_from zero id = []
ids_from (suc rounds) id = id ∷ ids_from rounds (id + 2)

pub length-ids_from : (rounds id : ℕ) → length (ids_from rounds id) ≡ rounds
length-ids_from zero id = refl
length-ids_from (suc rounds) id = ap suc (length-ids_from rounds (id + 2))

pub get_elem?-ids_from_within :
    (rounds id i : ℕ) → i < rounds → get_elem? (ids_from rounds id) i ≡ some (id + 2 * i)
get_elem?-ids_from_within zero id i lt = elim lt [ ]
get_elem?-ids_from_within (suc rounds) id zero lt = ap some (omega arith)
get_elem?-ids_from_within (suc rounds) id (suc i) lt =
    get_elem?-ids_from_within rounds (id + 2) i (omega arith) ∙ ap some (shifted id i)

pub ids_from-fit :
    (rounds id : ℕ) → id + 2 * rounds < u32_mod + 2 → All (λ n. n < u32_mod) (ids_from rounds id)
ids_from-fit zero id h = tt
ids_from-fit (suc rounds) id h = (omega (arith, h), ids_from-fit rounds (id + 2) (omega (arith, h)))

-- Links have odd identifiers, machines even ones from 2 on.
pub odd_or_even :
    (id : ℕ) → ((i : ℕ) × (1 + 2 * i ≡ id)) ⊎ (((i : ℕ) × (2 + 2 * i ≡ id)) ⊎ (id ≡ 0))
odd_or_even zero = inr (inr refl)
odd_or_even (suc id) = elim (Bool-cases (id % 2 == 0)) [
  | inl even ↦ inl (id / 2, ground arith)
  | inr odd ↦ inr (inl (id / 2, ground arith))
]

to_string-IsIdentifier : (n : ℕ) → n < u32_mod → IsIdentifier (to_string n)
to_string-IsIdentifier n h = (to_string-IsNumeral n, omega (arith, h, digits_value-to_string n))

AreIdentifiers : (ns : List ℕ) → All (λ n. n < u32_mod) ns → All IsIdentifier (map to_string ns)
AreIdentifiers [] hs = tt
AreIdentifiers (n ∷ ns) (h, hs) = (to_string-IsIdentifier n h, AreIdentifiers ns hs)

pub line_of-link_loop :
    (w : List ℕ) (rounds id : ℕ)
    → line_of w (map to_string (ids_from rounds id)) ++ b' ' ∷ [] ≡ w ++ b' ' ∷ link_loop rounds id
unfolding line_of link_loop
line_of-link_loop w zero id = refl
line_of-link_loop w (suc rounds) id =
    append_assoc w (b' ' ∷ line_of (to_string id) (map to_string (ids_from rounds (id + 2))))
      (b' ' ∷ [])
    ∙ ap (λ l. w ++ b' ' ∷ l) (line_of-link_loop (to_string id) rounds (id + 2))

-- `inner` has the links of each machine; `spaced` says whether a space ends the line.
module _ (inner : ℕ → List ℕ) (spaced : Bool) where
  -- The line of a machine.
  abbrev pub entry_at : ℕ → Entry
  entry_at id = record {
    source = b'0' ∷ [];
    destination = to_string id;
    inner = map to_string (inner id);
    spaced = spaced;
  }

  abbrev pub entries : ℕ → ℕ → List Entry
  entries zero id = []
  entries (suc rounds) id = entry_at id ∷ entries rounds (id + 2)

  -- The text of the links is that of the line.
  abbrev pub IsLine : (ℕ → List ℕ) → ℕ → Type 0
  IsLine links id =
      line_of (to_string id) (map to_string (inner id)) ++ (if spaced then b' ' ∷ [] else [])
      ≡ to_string id ++ b' ' ∷ links id

  pub route_loop-file_of :
      (links : ℕ → List ℕ) (rounds id : ℕ)
      → ((i : ℕ) → i < rounds → IsLine links (id + 2 * i))
      → route_loop links rounds id ≡ file_of (entries rounds id)
  unfolding route_loop file_of line_of
  route_loop-file_of links zero id all = refl
  route_loop-file_of links (suc rounds) id all =
      let rest = file_of (entries rounds (id + 2)) in
      let here : id + 2 * 0 ≡ id = omega arith in
      ap (λ l. b'0' ∷ b' ' ∷ (to_string id ++ b' ' ∷ (links id ++ b'\n' ∷ l)))
        (route_loop-file_of links rounds (id + 2)
          (λ i lt. subst (IsLine links) (sym (shifted id i)) (all (suc i) (omega arith))))
      ∙ ap (λ l. b'0' ∷ b' ' ∷ l)
          (sym (append_assoc (to_string id) (b' ' ∷ links id) (b'\n' ∷ rest)))
      ∙ ap (λ l. b'0' ∷ b' ' ∷ (l ++ b'\n' ∷ rest))
          (sym (subst (IsLine links) here (all 0 (omega arith))))

  -- All identifiers fit into 32 bits.
  abbrev pub Fits : ℕ → Type 0
  Fits id = (id < u32_mod) × All (λ n. n < u32_mod) (inner id)

  entry_at-IsEntry : (id : ℕ) → Fits id → IsEntry (entry_at id)
  unfolding digits_value
  entry_at-IsEntry id (small, smalls) = (
    ((refl, tt), omega arith),
    (to_string-IsIdentifier id small, AreIdentifiers (inner id) smalls),
  )

  pub entries-IsEntry :
      (rounds id : ℕ) → ((i : ℕ) → i < rounds → Fits (id + 2 * i)) → All IsEntry (entries rounds id)
  entries-IsEntry zero id h = tt
  entries-IsEntry (suc rounds) id h =
      let here : id + 2 * 0 ≡ id = omega arith in
      (
        entry_at-IsEntry id (subst Fits here (h 0 (omega arith))),
        entries-IsEntry rounds (id + 2)
            (λ i lt. subst Fits (sym (shifted id i)) (h (suc i) (omega arith))),
      )

  -- The lines of two loops.
  pub entries-append :
      (some_rounds more id : ℕ)
      → entries some_rounds id ++ entries more (id + 2 * some_rounds)
        ≡ entries (some_rounds + more) id
  entries-append zero more id =
      let here : id + 2 * 0 ≡ id = omega arith in
      let all : more ≡ 0 + more = omega arith in ap (entries more) here ∙ ap (λ r. entries r id) all
  entries-append (suc rounds) more id =
      let all : suc (rounds + more) ≡ suc rounds + more = omega arith in
      ap (λ es. entry_at id ∷ es)
        (ap (λ j. entries rounds (id + 2) ++ entries more j) (sym (shifted id rounds))
          ∙ entries-append rounds more (id + 2))
      ∙ ap (λ r. entries r id) all

  -- The line of the machine with the given place among them, and the lines around it.
  pub entries_around :
      (k rounds id : ℕ)
      → k < rounds
      → entries rounds id
        ≡ entries k id ++ entry_at (id + 2 * k) ∷ entries (rounds - k - 1) (id + 2 * k + 2)
  entries_around k zero id h = elim h [ ]
  entries_around zero (suc rounds) id h =
      let here : id ≡ id + 2 * 0 = omega arith in
      let all : rounds ≡ suc rounds - 0 - 1 = omega arith in
      ap (λ j. entry_at j ∷ entries rounds (j + 2)) here
      ∙ ap (λ r. entry_at (id + 2 * 0) ∷ entries r (id + 2 * 0 + 2)) all
  entries_around (suc k) (suc rounds) id h =
      let left : rounds - k - 1 ≡ suc rounds - suc k - 1 = omega arith in
      ap (λ es. entry_at id ∷ es)
        (entries_around k rounds (id + 2) (omega arith)
          ∙ ap (λ j. entries k (id + 2) ++ entry_at j ∷ entries (rounds - k - 1) (j + 2))
              (shifted id k)
          ∙ ap
              (λ r.
                entries k (id + 2) ++ entry_at (id + 2 * suc k) ∷ entries r (id + 2 * suc k + 2))
              left)

  -- No other line has the same destination.
  pub entries-Differs :
      (rounds id other : ℕ)
      → id + 2 * rounds ≤ other
      → All (Differs (entry_at other)) (entries rounds id)
  entries-Differs zero id other h = tt
  entries-Differs (suc rounds) id other h = (
    (λ e. omega (arith, e.1, digits_value-to_string id, digits_value-to_string other, h)),
    entries-Differs rounds (id + 2) other (omega (arith, h)),
  )
