-- ===== src/Routing/Reader/Bounds.antt =====
-- include/routing/table.hpp: `readRoute` never writes outside the path that it allocates.
use ispd_exa_engine.Base.{
  ℕ, suc, zero, ◌+◌, ◌≤◌, ◌≡◌, ◌≢◌, refl, ap, u32, List, [], ◌∷◌, ◌++◌, arith, ◌==◌, length,
  length-set, length-replicate, Bool-cases, ◌⊎◌, inl, inr, some, none, Result, ok, err, ◌>>=◌,
  undefined_behaviour, bad_alloc,
}
use ispd_exa_engine.Routing.Stoul.{stoul, stoul_defined}
use ispd_exa_engine.Routing.Reader.{
  Progress, ParsingStage, source_vertex, destination_vertex, inner_vertex, count_spaces, write_path,
  store, take_part, scan, read_route, initial,
}

-- How many parts come before those that are written to the path.
abbrev pending : ParsingStage → ℕ
pending source_vertex = 2
pending destination_vertex = 1
pending inner_vertex = 0

-- With `parts` parts to come, the writes fit into a path of `n` elements.
abbrev Fits : ℕ → ℕ → Progress → Type 0
Fits parts n p = (p.path_index + parts ≤ n + pending p.stage) × (length p.path ≡ n)

-- A step with no undefined behaviour, and what holds of its result.
abbrev Keeps : ℕ → ℕ → Result Progress → Type 0
Keeps parts n (ok p) = Fits parts n p
Keeps parts n (err e) = e ≢ undefined_behaviour

Keeps-weaken : (parts n : ℕ) (r : Result Progress) → Keeps (suc parts) n r → Keeps parts n r
Keeps-weaken parts n (ok p) k = omega arith
Keeps-weaken parts n (err e) k = k

store-Keeps :
    (stage : ParsingStage) (p : Progress) (parts n value : ℕ)
    → p.stage ≡ stage
    → Fits (suc parts) n p
    → Keeps parts n (store stage p value)
unfolding store write_path
store-Keeps source_vertex p parts n value e f = ground arith
store-Keeps destination_vertex p parts n value e f = ground arith
store-Keeps inner_vertex p parts n value e f =
    ground (arith, length-set p.path p.path_index (some (u32 value)))

take_part-Keeps :
    (p : Progress) (part : List ℕ) (parts n : ℕ)
    → Fits (suc parts) n p
    → Keeps parts n (take_part p part)
unfolding take_part
take_part-Keeps p part parts n f = of_number (stoul part) (stoul_defined part)
  where
    of_number :
        (r : Result ℕ) → r ≢ err undefined_behaviour → Keeps parts n (r >>= λ k. store p.stage p k)
    of_number (ok k) h = store-Keeps p.stage p parts n k refl f
    of_number (err e) h = λ eq. h (ap err eq)

Keeps-bind :
    (parts n : ℕ) (r : Result Progress) (f : Progress → Result Progress)
    → ((p : Progress) → Fits parts n p → Keeps 0 n (f p))
    → Keeps parts n r
    → Keeps 0 n (r >>= f)
Keeps-bind parts n (ok p) f h k = h p k
Keeps-bind parts n (err e) f h k = k

scan-Keeps :
    (p : Progress) (part line : List ℕ) (n : ℕ)
    → Fits (count_spaces line + 1) n p
    → Keeps 0 n (scan p part line)
unfolding scan count_spaces
scan-Keeps p part [] n f = take_part-Keeps p part 0 n (omega arith)
scan-Keeps p part (c ∷ []) n f = ground (
  arith,
  take_part-Keeps p part 0 n (ground arith),
  take_part-Keeps p (part ++ c ∷ []) 0 n (ground arith),
)
scan-Keeps p part (c ∷ d ∷ cs) n f = elim (Bool-cases (c == b' ')) [
  | inl space ↦
      let rest = count_spaces (d ∷ cs) + 1 in
      rw (space, scan)
        (Keeps-bind rest n (take_part p part) (λ p'. scan p' [] (d ∷ cs))
          (λ p' k. scan-Keeps p' [] (d ∷ cs) n k) (take_part-Keeps p part rest n (ground arith)))
  | inr letter ↦ rw (letter, scan) (scan-Keeps p (part ++ c ∷ []) (d ∷ cs) n (ground arith))
]

initial-Fits : (n : ℕ) → Fits (suc n + 1) n (initial n)
initial-Fits n = (omega arith, length-replicate n none)

read_route_cases :
    (line : List ℕ)
    → ((count_spaces line ≡ 0) × (read_route line ≡ err bad_alloc))
      ⊎ ((n : ℕ) × (count_spaces line ≡ suc n) × Keeps 0 n (read_route line))
unfolding read_route
read_route_cases line = by_spaces (count_spaces line) refl
  where
    by_spaces :
        (k : ℕ)
        → count_spaces line ≡ k
        → ((count_spaces line ≡ 0) × (read_route line ≡ err bad_alloc))
          ⊎ ((n : ℕ) × (count_spaces line ≡ suc n) × Keeps 0 n (read_route line))
    by_spaces zero e = inl (e, rw (e, read_route))
    by_spaces (suc n) e =
        inr (n, e, rw (e, read_route) (scan-Keeps (initial n) [] line n (rw e (initial-Fits n))))

abbrev pub ReadsWithin : List ℕ → Result Progress → Type 0
ReadsWithin line (ok p) = length p.path + 1 ≡ count_spaces line
ReadsWithin line (err e) = e ≢ undefined_behaviour

-- No line makes `readRoute` write outside its path or meet any other undefined behaviour, and a
-- result's path has one element less than the line has spaces.
pub read_route_bounds : (line : List ℕ) → ReadsWithin line (read_route line)
read_route_bounds line = elim (read_route_cases line) [
  | inl (e, r) ↦ rw r (λ h. cc)
  | inr (n, e, k) ↦ within n (read_route line) e k
]
  where
    within :
        (n : ℕ) (r : Result Progress) → count_spaces line ≡ suc n → Keeps 0 n r → ReadsWithin line r
    within n (ok p) e k = omega arith
    within n (err x) e k = k
