-- ===== src/Routing/Reader/RoundTrip.antt =====
-- include/routing/table.hpp: `readRoute` on a line of numerals with single spaces between them.
use mathlib.Core.List.{append_assoc, append-nil}
use ispd_exa_engine.Base.{
  ◌+◌, ℕ, suc, ◌<◌, ◌≡◌, refl, sym, ap, ◌∙◌, List, [], ◌∷◌, ◌++◌, map, arith, All, length,
  replicate, set, ◌==◌, true, false, Option, some, none, Result, ok, err, ◌>>=◌, u32, u32_mod,
  length-append, ltb, ltb-true,
}
use ispd_exa_engine.Routing.Stoul.{is_digit, digits_value, IsNumeral, stoul-numeral}
use ispd_exa_engine.Routing.Reader.{
  Progress, inner_vertex, count_spaces, write_path, store, take_part, scan, initial, read_route,
}

-- Words with single spaces between them.
unfoldable pub line_of : List ℕ → List (List ℕ) → List ℕ
line_of w [] = w
line_of w (v ∷ vs) = w ++ b' ' ∷ line_of v vs

-- The number that a numeral stands for.
abbrev pub value : List ℕ → ℕ
value w = digits_value 0 w

-- The numeral of a 32-bit identifier.
abbrev pub IsIdentifier : List ℕ → Type 0
IsIdentifier w = IsNumeral w × (value w < u32_mod)

abbrev pub NoSpace : List ℕ → Type 0
NoSpace = All (λ c. (c == b' ') ≡ false)

NoSpace-of_digits : (w : List ℕ) → All (λ c. is_digit c ≡ true) w → NoSpace w
NoSpace-of_digits [] h = tt
NoSpace-of_digits (c ∷ cs) h = (ground arith, NoSpace-of_digits cs h.1)

pub NoSpace-of_identifier : (w : List ℕ) → IsIdentifier w → NoSpace w
NoSpace-of_identifier [] h = tt
NoSpace-of_identifier (c ∷ cs) h = NoSpace-of_digits (c ∷ cs) h.0

pub count_spaces-append :
    (w rest : List ℕ) → NoSpace w → count_spaces (w ++ rest) ≡ count_spaces rest
unfolding count_spaces
count_spaces-append [] rest h = refl
count_spaces-append (c ∷ cs) rest h = rw h.0 (omega (arith, count_spaces-append cs rest h.1))

pub count_spaces-line_of :
    (w : List ℕ) (vs : List (List ℕ))
    → All IsIdentifier (w ∷ vs)
    → count_spaces (line_of w vs) ≡ length vs
unfolding line_of count_spaces
count_spaces-line_of w [] h =
    ap count_spaces (sym (append-nil w)) ∙ count_spaces-append w [] (NoSpace-of_identifier w h.0)
count_spaces-line_of w (v ∷ vs) h = omega (
  arith,
  count_spaces-append w (b' ' ∷ line_of v vs) (NoSpace-of_identifier w h.0),
  count_spaces-line_of v vs h.1,
)

-- The last part runs to the end of the line.
scan_last : (p : Progress) (part w : List ℕ) → NoSpace w → scan p part w ≡ take_part p (part ++ w)
unfolding scan
scan_last p part [] h = rw (append-nil part)
scan_last p part (c ∷ []) h = rw h.0
scan_last p part (c ∷ x ∷ w) h =
    rw (h.0, scan)
      (scan_last p (part ++ c ∷ []) (x ∷ w) h.1
        ∙ ap (take_part p) (append_assoc part (c ∷ []) (x ∷ w)))

-- A part ends at a space, and the next one begins behind it.
pub scan_word :
    (p : Progress) (part w : List ℕ) (x : ℕ) (rest : List ℕ)
    → NoSpace w
    → scan p part (w ++ b' ' ∷ x ∷ rest) ≡ (take_part p (part ++ w) >>= λ p'. scan p' [] (x ∷ rest))
unfolding scan
scan_word p part [] x rest h = rw (append-nil part)
scan_word p part (c ∷ []) x rest h = rw (h.0, scan)
scan_word p part (c ∷ y ∷ w) x rest h =
    rw (h.0, scan)
      (scan_word p (part ++ c ∷ []) (y ∷ w) x rest h.1
        ∙ ap (λ q. take_part p q >>= λ p'. scan p' [] (x ∷ rest))
            (append_assoc part (c ∷ []) (y ∷ w)))

-- The parts one after the other.
unfoldable pub take_all : Progress → List (List ℕ) → Result Progress
take_all p [] = ok p
take_all p (w ∷ ws) = take_part p w >>= λ p'. take_all p' ws

pub line_of-cons :
    (c : ℕ) (cs : List ℕ) (vs : List (List ℕ)) → line_of (c ∷ cs) vs ≡ c ∷ line_of cs vs
unfolding line_of
line_of-cons c cs [] = refl
line_of-cons c cs (v ∷ vs) = refl

pub >>=-ok {ℓ} : {A : Type ℓ} (m : Result A) → (m >>= λ a. ok a) ≡ m
>>=-ok (ok a) = refl
>>=-ok (err e) = refl

scan-line_of :
    (p : Progress) (w : List ℕ) (vs : List (List ℕ))
    → All IsIdentifier (w ∷ vs)
    → scan p [] (line_of w vs) ≡ take_all p (w ∷ vs)
unfolding line_of take_all
scan-line_of p w [] h =
    scan_last p [] w (NoSpace-of_identifier w h.0) ∙ sym (>>=-ok (take_part p w))
scan-line_of p w ([] ∷ vs) h = absurd h.1.0.0
scan-line_of p w ((c ∷ cs) ∷ vs) h =
    ap (λ l. scan p [] (w ++ b' ' ∷ l)) (line_of-cons c cs vs)
    ∙ scan_word p [] w c (line_of cs vs) (NoSpace-of_identifier w h.0)
    ∙ ap (λ l. take_part p w >>= λ p'. scan p' [] l) (sym (line_of-cons c cs vs))
    ∙ ap (λ f. take_part p w >>= f) (λ i p'. scan-line_of p' (c ∷ cs) vs h.1 i)

-- What a numeral's part does.
take_part-numeral :
    (p : Progress) (w : List ℕ) → IsIdentifier w → take_part p w ≡ store p.stage p (value w)
unfolding take_part
take_part-numeral p w h = rw (stoul-numeral w h.0 (omega (arith, h.1))) refl

u32-value : (w : List ℕ) → IsIdentifier w → u32 (value w) ≡ value w
u32-value w h = omega (arith, h.1)

set-at_length {ℓ} :
    {A : Type ℓ} (xs ys : List A) (y z : A)
    → set (xs ++ y ∷ ys) (length xs) z ≡ (xs ++ z ∷ []) ++ ys
set-at_length [] ys y z = refl
set-at_length (x ∷ xs) ys y z = ap (◌∷◌ x) (set-at_length xs ys y z)

-- Where the inner vertices are read: those in `done` are written, `n` are still to come.
abbrev pub within_path : Option ℕ → Option ℕ → List (Option ℕ) → ℕ → Progress
within_path src dest done n = record {
  stage = inner_vertex;
  src = src;
  dest = dest;
  path_index = length done;
  path = done ++ replicate n none;
}

take_part-inner :
    (src dest : Option ℕ) (done : List (Option ℕ)) (n : ℕ) (w : List ℕ)
    → IsIdentifier w
    → take_part (within_path src dest done (suc n)) w
      ≡ ok (within_path src dest (done ++ some (value w) ∷ []) n)
unfolding store write_path
take_part-inner src dest done n w h =
    let room : ltb (length done) (length (done ++ replicate (suc n) none)) ≡ true =
      ltb-true (length done) (length (done ++ replicate (suc n) none))
        (omega (arith, length-append done (replicate (suc n) none))) in
    take_part-numeral (within_path src dest done (suc n)) w h
    ∙ rw
        (
          room,
          u32-value w h,
          set-at_length done (replicate n none) none (some (value w)),
          length-append done (some (value w) ∷ []),
        )
        refl

abbrev pub values : List (List ℕ) → List (Option ℕ)
values ws = map (λ w. some (value w)) ws

-- `spare` elements of the path stay unwritten.
take_all-inner :
    (src dest : Option ℕ) (done : List (Option ℕ)) (spare : ℕ) (ws : List (List ℕ))
    → All IsIdentifier ws
    → take_all (within_path src dest done (length ws + spare)) ws
      ≡ ok (within_path src dest (done ++ values ws) spare)
unfolding take_all
take_all-inner src dest done spare [] h =
    let none_read : 0 + spare ≡ spare = omega arith in rw (none_read, append-nil done) refl
take_all-inner src dest done spare (w ∷ ws) h =
    let one_read : suc (length ws) + spare ≡ suc (length ws + spare) = omega arith in
    rw (one_read, take_part-inner src dest done (length ws + spare) w h.0)
      (take_all-inner src dest (done ++ some (value w) ∷ []) spare ws h.1
        ∙ ap (λ l. ok (within_path src dest l spare))
            (append_assoc done (some (value w) ∷ []) (values ws)))

pub read_route_of_count :
    (line : List ℕ) (n : ℕ) → count_spaces line ≡ suc n → read_route line ≡ scan (initial n) [] line
unfolding read_route
read_route_of_count line n h = rw (read_route, h) refl

pub take_all-ends :
    (s d : List ℕ) (ws : List (List ℕ)) (spare : ℕ)
    → All IsIdentifier (s ∷ d ∷ ws)
    → take_all (initial (length ws + spare)) (s ∷ d ∷ ws)
      ≡ ok (within_path (some (value s)) (some (value d)) (values ws) spare)
unfolding take_all store
take_all-ends s d ws spare h =
    rw (take_part-numeral (initial (length ws + spare)) s h.0, u32-value s h.0)
      (rw (take_part-numeral _ d h.1.0, u32-value d h.1.0)
        (take_all-inner (some (value s)) (some (value d)) [] spare ws h.1.1))

-- A line of a source, a destination and inner vertices, numerals of 32-bit identifiers with single
-- spaces between them, is read as that source, that destination and the path of those vertices.
pub read_route-line_of :
    (s d : List ℕ) (ws : List (List ℕ))
    → All IsIdentifier (s ∷ d ∷ ws)
    → read_route (line_of s (d ∷ ws))
      ≡ ok (within_path (some (value s)) (some (value d)) (values ws) 0)
read_route-line_of s d ws h =
    read_route_of_count (line_of s (d ∷ ws)) (length ws) (count_spaces-line_of s (d ∷ ws) h)
    ∙ scan-line_of (initial (length ws)) s (d ∷ ws) h
    ∙ ap (λ n. take_all (initial n) (s ∷ d ∷ ws)) (omega arith)
    ∙ take_all-ends s d ws 0 h
