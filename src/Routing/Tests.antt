-- ===== src/Routing/Tests.antt =====
-- include/routing/table.hpp on a small table and on one line of a file.
use ispd_exa_engine.Base.{true, false, none, ◌≡◌, refl, some, [], ◌∷◌, arith, ok}
use ispd_exa_engine.Szudzik.{szudzik}
use ispd_exa_engine.UnorderedMap.{find, at}
use ispd_exa_engine.Routing.{Route, RoutingTable, add_route, get_route}
use ispd_exa_engine.Routing.Lookup.{get_route-add_route_self, get_route-add_route_other}
use ispd_exa_engine.Routing.Stoul.{digits_value}
use ispd_exa_engine.Routing.Reader.File.{Entry, IsEntry, file_of, read-file_of}
use ispd_exa_engine.Routing.Reader.{read, read_route}
use ispd_exa_engine.Routing.Reader.Bounds.{ReadsWithin, read_route_bounds}

abbrev old_route : Route
old_route = record { length = 1; path = some 1 ∷ [] }

abbrev new_route : Route
new_route = record { length = 2; path = some 1 ∷ some 3 ∷ [] }

abbrev table : RoutingTable
table = (4, old_route) ∷ []

get_route-add_route_self_example : get_route (add_route table 0 2 new_route) 0 2 ≡ ok old_route
unfolding get_route at find szudzik
get_route-add_route_self_example = get_route-add_route_self table 0 2 new_route

get_route-add_route_other_example : get_route (add_route table 2 0 new_route) 0 2 ≡ ok old_route
unfolding get_route at find szudzik
get_route-add_route_other_example =
    get_route-add_route_other table 2 0 0 2 new_route (omega arith) (omega arith) (omega arith)
      (omega arith) (λ e. ground arith)

-- A space at the end of the line: one part too few for the path, and nothing is written outside it.
read_route_bounds_example :
    ReadsWithin
      (b'0' ∷ b' ' ∷ b'2' ∷ b' ' ∷ b'1' ∷ b' ' ∷ [])
      (read_route (b'0' ∷ b' ' ∷ b'2' ∷ b' ' ∷ b'1' ∷ b' ' ∷ []))
read_route_bounds_example = read_route_bounds (b'0' ∷ b' ' ∷ b'2' ∷ b' ' ∷ b'1' ∷ b' ' ∷ [])

abbrev entry : Entry
entry = record {
  source = b'0' ∷ [];
  destination = b'4' ∷ [];
  inner = (b'1' ∷ []) ∷ (b'1' ∷ b'3' ∷ []) ∷ [];
  spaced = false;
}

abbrev back : Entry
back = record {
  source = b'4' ∷ [];
  destination = b'0' ∷ [];
  inner = (b'1' ∷ b'3' ∷ []) ∷ (b'1' ∷ []) ∷ [];
  spaced = true;
}

entry-IsEntry : IsEntry entry
unfolding digits_value
entry-IsEntry = (
  ((refl, tt), omega arith),
  (((refl, tt), omega arith), (((refl, tt), omega arith), (((refl, (refl, tt)), omega arith), tt))),
)

back-IsEntry : IsEntry back
unfolding digits_value
back-IsEntry = (
  ((refl, tt), omega arith),
  (((refl, tt), omega arith), (((refl, (refl, tt)), omega arith), (((refl, tt), omega arith), tt))),
)

-- The pair from 0 to 4 stands in the first and in the third line of the file; the line between them
-- ends with a space.
read-file_of_example :
    (t : RoutingTable) × (read (some (file_of (entry ∷ back ∷ entry ∷ []))) ≡ ok t)
    × (get_route t 4 0 ≡ ok (record { length = 3; path = some 13 ∷ some 1 ∷ none ∷ [] }))
unfolding digits_value
read-file_of_example =
    read-file_of (entry ∷ []) (entry ∷ []) back (entry-IsEntry, (back-IsEntry, (entry-IsEntry, tt)))
      ((λ e. ground arith), tt)
