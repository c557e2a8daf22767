-- ===== src/Routing.antt =====
-- include/routing/table.hpp: routes and the routing table.
pub mod Lookup
pub mod Stoul
pub mod Reader
pub mod Tests
use ispd_exa_engine.Base.{
  ℕ, Option, none, some, List, arith, length, get_elem?, Result, ok, err, undefined_behaviour,
  u64_mod, u32,
}
use ispd_exa_engine.Szudzik.{szudzik}
use ispd_exa_engine.UnorderedMap.{UnorderedMap, insert, at}

-- The elements of `new std::uint32_t[length]` are indeterminate (`none`) until they are written.
pub record Route : Type 0 where
  pub length : ℕ
  pub path : List (Option ℕ)

unfoldable pub get_length : Route → ℕ
get_length r = r.length

-- `(*route)[n]`. A read out of bounds or of an element never written is undefined behaviour.
unfoldable pub index : Route → ℕ → Result ℕ
index r n = elim (get_elem? r.path n) [ some (some id) ↦ ok id | _ ↦ err undefined_behaviour ]

abbrev pub RoutingTable : Type 0
RoutingTable = UnorderedMap Route

unfoldable pub add_route : RoutingTable → ℕ → ℕ → Route → RoutingTable
add_route t src dest route = insert (szudzik src dest) route t

unfoldable pub get_route : RoutingTable → ℕ → ℕ → Result Route
get_route t src dest = at t (szudzik src dest)

unfoldable pub get_routes_size : RoutingTable → ℕ
get_routes_size t = length t
