-- ===== src/Routing/Lookup.antt =====
-- include/routing/table.hpp: `addRoute` against `getRoute`.
use ispd_exa_engine.Base.{ℕ, suc, ◌<◌, ◌≡◌, arith, u32_mod, ok, err}
use ispd_exa_engine.Szudzik.{szudzik}
use ispd_exa_engine.Szudzik.Pairing.{szudzik_injective}
use ispd_exa_engine.UnorderedMap.{at, find-insert_self, find-insert_ne, length-insert}
use ispd_exa_engine.Routing.{Route, RoutingTable, add_route, get_route, get_routes_size}

-- The first route that is added for a pair of services is the one that is returned; a later one
-- for the same pair is dropped.
pub get_route-add_route_self :
    (t : RoutingTable) (src dest : ℕ) (route : Route)
    → get_route (add_route t src dest route) src dest
      ≡ elim (get_route t src dest) [ ok old ↦ ok old | err e ↦ ok route ]
unfolding get_route add_route at
get_route-add_route_self t src dest route =
    ground (arith, find-insert_self (szudzik src dest) route t)

-- Adding a route changes no other pair of 32-bit identifiers: their keys never collide.
pub get_route-add_route_other :
    (t : RoutingTable) (src dest src' dest' : ℕ) (route : Route)
    → src < u32_mod
    → dest < u32_mod
    → src' < u32_mod
    → dest' < u32_mod
    → ¬ ((src ≡ src') × (dest ≡ dest'))
    → get_route (add_route t src dest route) src' dest' ≡ get_route t src' dest'
unfolding get_route add_route at
get_route-add_route_other t src dest src' dest' route a b c d h = rw (
    find-insert_ne (szudzik src dest) (szudzik src' dest') route t
      (λ e. h (szudzik_injective src dest src' dest' a b c d e)))

-- Adding a route makes the table's size grow by one exactly if its pair had no route.
pub get_routes_size-add_route :
    (t : RoutingTable) (src dest : ℕ) (route : Route)
    → get_routes_size (add_route t src dest route)
      ≡ elim (get_route t src dest) [ ok old ↦ get_routes_size t | err e ↦ suc (get_routes_size t) ]
unfolding get_route add_route at get_routes_size
get_routes_size-add_route t src dest route =
    ground (arith, length-insert (szudzik src dest) route t)
