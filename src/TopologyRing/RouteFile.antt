-- ===== src/TopologyRing/RouteFile.antt =====
-- The route file of test/topology_ring/main.cpp, and the table that it reads.
use mathlib.Core.List.{append_assoc}
use ispd_exa_engine.Base.{
  ℕ, zero, suc, ◌+◌, ◌-◌, ◌*◌, ◌/◌, ◌≤◌, ◌<◌, ◌≡◌, ◌∙◌, refl, sym, ap, List, [], ◌∷◌, ◌++◌, map,
  some, ok, arith, inl, inr, length, false, true, u32_mod, leb, All, Bool-cases,
}
use ispd_exa_engine.Routing.{RoutingTable}
use ispd_exa_engine.Routing.Reader.{read}
use ispd_exa_engine.Routing.Reader.RoundTrip.{line_of}
use ispd_exa_engine.Routing.Reader.File.{Entry, file_of, line_of_entry}
use ispd_exa_engine.Network.Routes.{AreShort}
use ispd_exa_engine.TestProgram.{link_loop, route_loop}
use ispd_exa_engine.TestProgram.ToString.{to_string}
use ispd_exa_engine.TestProgram.RouteFile.{
  Fits, IsLine, entries, entries-append, length-ids_from, ids_from-fit, line_of-link_loop,
  route_loop-file_of,
}
use ispd_exa_engine.TestProgram.Table.{
  HasRoutes, test_table, test_table-AreShort, test_table-HasRoutes, read-test_table,
}
use ispd_exa_engine.TopologyRing.{machine_half_id, link_loop_down, create_ring_topology_routing}
use ispd_exa_engine.TopologyRing.Places.{ring_links, ids_down, length-ids_down}

abbrev pub ring_table : ℕ → RoutingTable
ring_table machines = test_table (ring_links machines) true 2 machines

ids_down-fit : (rounds id : ℕ) → id < u32_mod → All (λ n. n < u32_mod) (ids_down rounds id)
ids_down-fit zero id h = tt
ids_down-fit (suc rounds) id h = (h, ids_down-fit rounds (id - 2) (omega (arith, h)))

ring_links-Fits :
    (machines i : ℕ)
    → 2 * machines + 2 < u32_mod
    → i < machines
    → Fits (ring_links machines) true (2 + 2 * i)
ring_links-Fits machines i small lt = (
  omega (arith, small),
  elim (Bool-cases (leb (2 + 2 * i) (machine_half_id machines))) [
    | inl near ↦ rw near (ids_from-fit ((2 + 2 * i) / 2) 1 (omega (arith, small)))
    | inr far ↦ rw far (
        ids_down-fit ((2 * machines + 2 - (2 + 2 * i)) / 2) (2 * machines + 1)
          (omega (arith, small)))
  ],
)

length-ring_links :
    (machines i : ℕ) → i < machines → length (ring_links machines (2 + 2 * i)) ≤ machines
length-ring_links machines i lt = elim (Bool-cases (leb (2 + 2 * i) (machine_half_id machines))) [
  | inl near ↦ rw near (omega (arith, length-ids_from ((2 + 2 * i) / 2) 1))
  | inr far ↦
      rw far
        (omega (arith, length-ids_down ((2 * machines + 2 - (2 + 2 * i)) / 2) (2 * machines + 1)))
]

pub ring_table-AreShort : (machines : ℕ) → AreShort machines (ring_table machines)
ring_table-AreShort machines =
    test_table-AreShort (ring_links machines) true machines 2 machines
      (λ i lt. length-ring_links machines i lt)

pub ring_table-HasRoutes :
    (machines : ℕ)
    → 2 * machines + 2 < u32_mod
    → HasRoutes (ring_links machines) 2 machines (ring_table machines)
ring_table-HasRoutes machines small =
    test_table-HasRoutes (ring_links machines) true 2 machines
      (λ i lt. ring_links-Fits machines i small lt)

line_of-link_loop_down :
    (w : List ℕ) (rounds id : ℕ)
    → line_of w (map to_string (ids_down rounds id)) ++ b' ' ∷ []
      ≡ w ++ b' ' ∷ link_loop_down rounds id
unfolding line_of link_loop_down
line_of-link_loop_down w zero id = refl
line_of-link_loop_down w (suc rounds) id =
    append_assoc w (b' ' ∷ line_of (to_string id) (map to_string (ids_down rounds (id - 2))))
      (b' ' ∷ [])
    ∙ ap (λ l. w ++ b' ' ∷ l) (line_of-link_loop_down (to_string id) rounds (id - 2))

-- The half is even and among the machines or right behind them.
half_even :
    (machines : ℕ)
    → (2 * (machine_half_id machines / 2) ≡ machine_half_id machines)
      × (machine_half_id machines ≤ machines + 1)
unfolding machine_half_id
half_even machines = ground arith

file_of-append : (xs ys : List Entry) → file_of (xs ++ ys) ≡ file_of xs ++ file_of ys
unfolding file_of
file_of-append [] ys = refl
file_of-append (x ∷ xs) ys =
    ap (λ l. line_of_entry x ++ b'\n' ∷ l) (file_of-append xs ys)
    ∙ sym (append_assoc (line_of_entry x) (b'\n' ∷ file_of xs) (file_of ys))

near_lines :
    (machines i : ℕ)
    → 2 + 2 * i ≤ machine_half_id machines
    → IsLine (ring_links machines) true (λ id. link_loop (id / 2) 1) (2 + 2 * i)
near_lines machines i h =
    let near : leb (2 + 2 * i) (machine_half_id machines) ≡ true = ground arith in
    rw near (line_of-link_loop (to_string (2 + 2 * i)) ((2 + 2 * i) / 2) 1)

far_lines :
    (machines id : ℕ)
    → machine_half_id machines < id
    → IsLine
        (ring_links machines)
        true
        (λ id. link_loop_down ((2 * machines + 2 - id) / 2) (2 * machines + 1))
        id
far_lines machines id h =
    let far : leb id (machine_half_id machines) ≡ false = ground arith in
    rw far (line_of-link_loop_down (to_string id) ((2 * machines + 2 - id) / 2) (2 * machines + 1))

create_ring-file_of :
    (machines : ℕ)
    → 1 ≤ machines
    → create_ring_topology_routing machines
      ≡ file_of (entries (ring_links machines) true machines 2)
unfolding create_ring_topology_routing
create_ring-file_of machines positive =
    let half = machine_half_id machines in
    let up = half / 2 in
    let down = machines - up in
    let (even, small) = half_even machines in
    let all : up + down ≡ machines = omega (arith, even, small, positive) in
    let behind : half + 2 ≡ 2 + 2 * up = omega (arith, even) in
    let links_down = λ (id : ℕ). link_loop_down ((2 * machines + 2 - id) / 2) (2 * machines + 1) in
    let near =
      route_loop-file_of (ring_links machines) true (λ id. link_loop (id / 2) 1) up 2
        (λ i lt. near_lines machines i (omega (arith, even))) in
    let far =
      route_loop-file_of (ring_links machines) true links_down down (half + 2)
        (λ i lt. far_lines machines (half + 2 + 2 * i) (omega arith)) in
    ap (λ l. l ++ route_loop links_down down (half + 2)) near
    ∙ ap (λ l. file_of (entries (ring_links machines) true up 2) ++ l) far
    ∙ sym (
        file_of-append (entries (ring_links machines) true up 2)
          (entries (ring_links machines) true down (half + 2)))
    ∙ ap
        (λ j.
          file_of
            (entries (ring_links machines) true up 2 ++ entries (ring_links machines) true down j))
        behind
    ∙ ap file_of (entries-append (ring_links machines) true up down 2)
    ∙ ap (λ n. file_of (entries (ring_links machines) true n 2)) all

-- What the program has written it reads without an error.
pub read-create_ring :
    (machines : ℕ)
    → 1 ≤ machines
    → 2 * machines + 2 < u32_mod
    → read (some (create_ring_topology_routing machines)) ≡ ok (ring_table machines)
read-create_ring machines positive small =
    read-test_table (ring_links machines) true (create_ring_topology_routing machines) 2 machines
      (λ i lt. ring_links-Fits machines i small lt) (create_ring-file_of machines positive)
