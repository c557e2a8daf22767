-- ===== src/Routing/Reader/TrailingSpace.antt =====
-- include/routing/table.hpp: `readRoute` on a line that ends with a space.
use mathlib.Core.List.{append_assoc, append-nil}
use ispd_exa_engine.Base.{
  ℕ, suc, ◌+◌, ◌≡◌, refl, sym, ap, ◌∙◌, List, [], ◌∷◌, ◌++◌, arith, All, length, some, ok, ◌>>=◌,
}
use ispd_exa_engine.Routing.Reader.{Progress, count_spaces, take_part, scan, initial, read_route}
use ispd_exa_engine.Routing.Reader.RoundTrip.{
  line_of, value, values, within_path, IsIdentifier, NoSpace, NoSpace-of_identifier, take_all,
  take_all-ends, read_route_of_count, count_spaces-line_of, line_of-cons, >>=-ok, scan_word,
}

scan_word_space :
    (p : Progress) (part w : List ℕ)
    → NoSpace w
    → scan p part (w ++ b' ' ∷ []) ≡ take_part p (part ++ w)
unfolding scan
scan_word_space p part [] h = rw (append-nil part)
scan_word_space p part (c ∷ []) h = rw (h.0, scan)
scan_word_space p part (c ∷ x ∷ w) h =
    rw (h.0, scan)
      (scan_word_space p (part ++ c ∷ []) (x ∷ w) h.1
        ∙ ap (take_part p) (append_assoc part (c ∷ []) (x ∷ w)))

scan-line_of_space :
    (p : Progress) (w : List ℕ) (vs : List (List ℕ))
    → All IsIdentifier (w ∷ vs)
    → scan p [] (line_of w vs ++ b' ' ∷ []) ≡ take_all p (w ∷ vs)
unfolding line_of take_all
scan-line_of_space p w [] h =
    scan_word_space p [] w (NoSpace-of_identifier w h.0) ∙ sym (>>=-ok (take_part p w))
scan-line_of_space p w ([] ∷ vs) h = absurd h.1.0.0
scan-line_of_space p w ((c ∷ cs) ∷ vs) h =
    let shift = ap (λ l. l ++ b' ' ∷ []) (line_of-cons c cs vs) in
    ap (scan p []) (append_assoc w (b' ' ∷ line_of (c ∷ cs) vs) (b' ' ∷ []))
    ∙ ap (λ l. scan p [] (w ++ b' ' ∷ l)) shift
    ∙ scan_word p [] w c (line_of cs vs ++ b' ' ∷ []) (NoSpace-of_identifier w h.0)
    ∙ ap (λ l. take_part p w >>= λ p'. scan p' [] l) (sym shift)
    ∙ ap (λ f. take_part p w >>= f) (λ i p'. scan-line_of_space p' (c ∷ cs) vs h.1 i)

count_spaces_end : (line : List ℕ) → count_spaces (line ++ b' ' ∷ []) ≡ suc (count_spaces line)
unfolding count_spaces
count_spaces_end [] = refl
count_spaces_end (c ∷ cs) = omega (arith, count_spaces_end cs)

-- A space at the end of such a line gives the path one element more than there are inner vertices:
-- it is never written.
pub read_route_space :
    (s d : List ℕ) (ws : List (List ℕ))
    → All IsIdentifier (s ∷ d ∷ ws)
    → read_route (line_of s (d ∷ ws) ++ b' ' ∷ [])
      ≡ ok (within_path (some (value s)) (some (value d)) (values ws) 1)
read_route_space s d ws h =
    read_route_of_count (line_of s (d ∷ ws) ++ b' ' ∷ []) (length ws + 1)
      (omega (arith, count_spaces_end (line_of s (d ∷ ws)), count_spaces-line_of s (d ∷ ws) h))
    ∙ scan-line_of_space (initial (length ws + 1)) s (d ∷ ws) h
    ∙ take_all-ends s d ws 1 h
