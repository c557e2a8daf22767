-- ===== src/Routing/Reader/File.antt =====
-- include/routing/table.hpp: `RoutingTableReader::read` on a file of well-formed lines.
use mathlib.Core.List.{append_assoc, append-nil}
use native.Mathlib.Decide.{ℕ_discrete}
use ispd_exa_engine.Base.{
  ℕ, ◌≡◌, refl, ap, ◌∙◌, List, [], ◌∷◌, ◌++◌, arith, All, All-append, length, ◌==◌, true, false,
  some, none, ok, err, out_of_range, Bool, Bool-cases, inl, inr, if◌then◌else◌, Option, replicate,
}
use ispd_exa_engine.UnorderedMap.{find, at}
use ispd_exa_engine.Routing.{Route, RoutingTable, add_route, get_route}
use ispd_exa_engine.Routing.Lookup.{get_route-add_route_self, get_route-add_route_other}
use ispd_exa_engine.Routing.Stoul.{is_digit}
use ispd_exa_engine.Routing.Reader.{read_line, read_lines, lines, read, read_route}
use ispd_exa_engine.Routing.Reader.TrailingSpace.{read_route_space}
use ispd_exa_engine.Routing.Reader.RoundTrip.{
  line_of, value, values, IsIdentifier, read_route-line_of, within_path,
}

-- A line's source, destination and inner vertices, and whether a space ends it.
pub record Entry : Type 0 where
  pub source : List ℕ
  pub destination : List ℕ
  pub inner : List (List ℕ)
  pub spaced : Bool

abbrev pub IsEntry : Entry → Type 0
IsEntry e = All IsIdentifier (e.source ∷ e.destination ∷ e.inner)

-- Another pair of services.
abbrev pub Differs : Entry → Entry → Type 0
Differs e e' = ¬ ((value e'.source ≡ value e.source) × (value e'.destination ≡ value e.destination))

-- Behind a space at the end there is one element more, which is never written.
abbrev pub path_of : Entry → List (Option ℕ)
path_of e = values e.inner ++ replicate (if e.spaced then 1 else 0) none

abbrev pub route_of : Entry → Route
route_of e = record { length = length (path_of e); path = path_of e }

abbrev pub line_of_entry : Entry → List ℕ
line_of_entry e = line_of e.source (e.destination ∷ e.inner) ++ (if e.spaced then b' ' ∷ [] else [])

abbrev pub with_entry : RoutingTable → Entry → RoutingTable
with_entry t e = add_route t (value e.source) (value e.destination) (route_of e)

-- The bytes of a file with these lines.
unfoldable pub file_of : List Entry → List ℕ
file_of [] = []
file_of (e ∷ es) = line_of_entry e ++ b'\n' ∷ file_of es

unfoldable pub table_of : RoutingTable → List Entry → RoutingTable
table_of t [] = t
table_of t (e ∷ es) = table_of (with_entry t e) es

abbrev OneLine : List ℕ → Type 0
OneLine = All (λ c. (c == b'\n') ≡ false)

OneLine-digits : (w : List ℕ) → All (λ c. is_digit c ≡ true) w → OneLine w
OneLine-digits [] h = tt
OneLine-digits (c ∷ cs) h = (ground arith, OneLine-digits cs h.1)

OneLine-identifier : (w : List ℕ) → IsIdentifier w → OneLine w
OneLine-identifier [] h = tt
OneLine-identifier (c ∷ cs) h = OneLine-digits (c ∷ cs) h.0

OneLine-line_of :
    (w : List ℕ) (vs : List (List ℕ)) → All IsIdentifier (w ∷ vs) → OneLine (line_of w vs)
unfolding line_of
OneLine-line_of w [] h = OneLine-identifier w h.0
OneLine-line_of w (v ∷ vs) h =
    All-append (λ c. (c == b'\n') ≡ false) w (b' ' ∷ line_of v vs) (OneLine-identifier w h.0)
      (refl, OneLine-line_of v vs h.1)

lines-append :
    (part line rest : List ℕ)
    → OneLine line
    → lines part (line ++ b'\n' ∷ rest) ≡ (part ++ line) ∷ lines [] rest
unfolding lines
lines-append part [] rest h = rw (append-nil part)
lines-append part (c ∷ cs) rest h =
    rw (h.0, lines)
      (lines-append (part ++ c ∷ []) cs rest h.1
        ∙ ap (λ l. l ∷ lines [] rest) (append_assoc part (c ∷ []) cs))

OneLine-entry : (e : Entry) → IsEntry e → OneLine (line_of_entry e)
OneLine-entry e h =
    All-append (λ c. (c == b'\n') ≡ false) (line_of e.source (e.destination ∷ e.inner))
      (if e.spaced then b' ' ∷ [] else []) (OneLine-line_of e.source _ h)
      (elim (Bool-cases e.spaced) [ inl ends ↦ rw ends (refl, tt) | inr plain ↦ rw plain tt ])

read_route-entry :
    (e : Entry)
    → IsEntry e
    → read_route (line_of_entry e)
      ≡ ok (
          within_path
            (some (value e.source))
            (some (value e.destination))
            (values e.inner)
            (if e.spaced then 1 else 0))
read_route-entry e h = elim (Bool-cases e.spaced) [
  | inl ends ↦ rw ends (read_route_space e.source e.destination e.inner h)
  | inr plain ↦ rw plain (
      ap read_route (append-nil (line_of e.source (e.destination ∷ e.inner)))
      ∙ read_route-line_of e.source e.destination e.inner h)
]

read_line-entry :
    (t : RoutingTable) (e : Entry) → IsEntry e → read_line t (line_of_entry e) ≡ ok (with_entry t e)
unfolding read_line
read_line-entry t e h = rw (read_route-entry e h) refl

read_lines-file_of :
    (t : RoutingTable) (es : List Entry)
    → All IsEntry es
    → read_lines t (lines [] (file_of es)) ≡ ok (table_of t es)
unfolding read_lines file_of table_of lines
read_lines-file_of t [] h = refl
read_lines-file_of t (e ∷ es) h =
    ap (read_lines t) (lines-append [] (line_of_entry e) (file_of es) (OneLine-entry e h.0))
    ∙ rw (read_line-entry t e h.0, read_lines) (read_lines-file_of (with_entry t e) es h.1)

get_route-add_other :
    (t : RoutingTable) (e e' : Entry)
    → IsEntry e
    → IsEntry e'
    → Differs e e'
    → get_route (with_entry t e') (value e.source) (value e.destination)
      ≡ get_route t (value e.source) (value e.destination)
get_route-add_other t e e' h h' differ =
    get_route-add_route_other t _ _ _ _ (route_of e') h'.0.1 h'.1.0.1 h.0.1 h.1.0.1 differ

-- A route that is found stays.
get_route-add_kept :
    (t : RoutingTable) (e e' : Entry) (r : Route)
    → IsEntry e
    → IsEntry e'
    → get_route t (value e.source) (value e.destination) ≡ ok r
    → get_route (with_entry t e') (value e.source) (value e.destination) ≡ ok r
get_route-add_kept t e e' r h h' found = elim (ℕ_discrete (value e'.source) (value e.source)) [
  | no s ↦ get_route-add_other t e e' h h' (λ k. s k.0) ∙ found
  | yes s ↦ elim (ℕ_discrete (value e'.destination) (value e.destination)) [
    | no d ↦ get_route-add_other t e e' h h' (λ k. d k.1) ∙ found
    | yes d ↦
        rw (s, d)
          (get_route-add_route_self t (value e.source) (value e.destination) (route_of e')
            ∙ rw found)
  ]
]

table_of-kept :
    (t : RoutingTable) (e : Entry) (es : List Entry) (r : Route)
    → IsEntry e
    → All IsEntry es
    → get_route t (value e.source) (value e.destination) ≡ ok r
    → get_route (table_of t es) (value e.source) (value e.destination) ≡ ok r
unfolding table_of
table_of-kept t e [] r h hs found = found
table_of-kept t e (e' ∷ es) r h hs found =
    table_of-kept (with_entry t e') e es r h hs.1 (get_route-add_kept t e e' r h hs.0 found)

pub table_of-first :
    (t : RoutingTable) (before after : List Entry) (e : Entry)
    → All IsEntry (before ++ e ∷ after)
    → IsEntry e
    → All (Differs e) before
    → get_route t (value e.source) (value e.destination) ≡ err out_of_range
    → get_route (table_of t (before ++ e ∷ after)) (value e.source) (value e.destination)
      ≡ ok (route_of e)
unfolding table_of
table_of-first t [] after e hs h differ missing =
    table_of-kept (with_entry t e) e after (route_of e) h hs.1
      (get_route-add_route_self t (value e.source) (value e.destination) (route_of e) ∙ rw missing)
table_of-first t (b ∷ bs) after e hs h differ missing =
    table_of-first (with_entry t b) bs after e hs.1 h differ.1
      (get_route-add_other t e b h hs.0 differ.0 ∙ missing)

pub IsEntry-among :
    (before after : List Entry) (e : Entry) → All IsEntry (before ++ e ∷ after) → IsEntry e
IsEntry-among [] after e h = h.0
IsEntry-among (b ∷ bs) after e h = IsEntry-among bs after e h.1

pub read-table_of :
    (es : List Entry) → All IsEntry es → read (some (file_of es)) ≡ ok (table_of [] es)
unfolding read
read-table_of es hs = read_lines-file_of [] es hs

-- A file of well-formed lines, which may end with a space, is read without an error, and the table
-- then has, for the services of each line whose pair no line before it has, the route of that line,
-- with one indeterminate element more behind a space at the end.
pub read-file_of :
    (before after : List Entry) (e : Entry)
    → All IsEntry (before ++ e ∷ after)
    → All (Differs e) before
    → (t : RoutingTable) × (read (some (file_of (before ++ e ∷ after))) ≡ ok t)
      × (get_route t (value e.source) (value e.destination) ≡ ok (route_of e))
unfolding read get_route at find
read-file_of before after e hs differ = (
  table_of [] (before ++ e ∷ after),
  read-table_of (before ++ e ∷ after) hs,
  table_of-first [] before after e hs (IsEntry-among before after e hs) differ refl,
)
