-- ===== src/Network/Routes.antt =====
-- The lines are no longer than the routes of the routing table: include/routing/table.hpp.
use ispd_exa_engine.Base.{
  ℕ, zero, suc, ◌+◌, ◌≤◌, ◌<◌, ◌≡◌, List, [], ◌∷◌, arith, some, All, length, get_elem?, ok,
}
use ispd_exa_engine.UnorderedMap.{UnorderedMap, find, at}
use ispd_exa_engine.Szudzik.{szudzik}
use ispd_exa_engine.Routing.{Route, RoutingTable, get_route, index}
use ispd_exa_engine.Network.Placement.{Place, Line}

-- No route of the table has more than `longest + 1` elements.
abbrev pub AreShort : ℕ → RoutingTable → Type 0
AreShort longest table = All (λ entry. length entry.1.path ≤ longest + 1) table

find-All :
    {V : Type 0} (P : V → Type 0) (m : UnorderedMap V) (k : ℕ) (v : V)
    → All (λ entry. P entry.1) m
    → find k m ≡ some v
    → P v
unfolding find
find-All P [] k v h e = cc
find-All P ((j, w) ∷ m) k v (h, hs) e = ground (arith, find-All P m k v hs)

get_elem?-lt : {A : Type 0} (xs : List A) (i : ℕ) (a : A) → get_elem? xs i ≡ some a → i < length xs
get_elem?-lt [] i a e = cc
get_elem?-lt (x ∷ xs) zero a e = omega arith
get_elem?-lt (x ∷ xs) (suc i) a e = omega (arith, get_elem?-lt xs i a e)

index-lt : (r : Route) (i id : ℕ) → index r i ≡ ok id → i < length r.path
unfolding index
index-lt r i id e = ground (arith, get_elem?-lt r.path i (some id))

pub Line-last :
    (longest : ℕ) (topology : ℕ → Place) (table : RoutingTable)
    → AreShort longest table
    → (src dest : ℕ) (l : Line topology table src dest) → l.last ≤ longest
unfolding get_route at
Line-last longest topology table short src dest l =
    let found : find (szudzik src dest) table ≡ some l.route = ground (arith, l.routed) in
    let bound = find-All (λ r. length r.path ≤ longest + 1) table _ l.route short found in
    let inside = index-lt l.route l.last (l.link l.last) (l.reads l.last (omega arith)) in
    omega (arith, bound, inside)
