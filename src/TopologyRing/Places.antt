-- ===== src/TopologyRing/Places.antt =====
-- Where the services of test/topology_ring/main.cpp stand, and the lines to its machines.
use ispd_exa_engine.Base.{
  ℕ, zero, suc, ◌+◌, ◌-◌, ◌*◌, ◌/◌, ◌%◌, ◌<◌, ◌≡◌, ◌≢◌, ◌∙◌, refl, sym, ap, List, [], ◌∷◌, some, ok,
  arith, ◌==◌, ltb, leb, u64_mod, if◌then◌else◌, inl, inr, get_elem?, length, Bool-cases,
}
use ispd_exa_engine.Routing.{RoutingTable, Route, get_route, index}
use ispd_exa_engine.Network.Placement.{
  Place, link_place, machine_place, master_place, dummy_place, Line,
}
use ispd_exa_engine.TestProgram.RouteFile.{ids_from, get_elem?-ids_from_within}
use ispd_exa_engine.TestProgram.Table.{HasRoutes}
use ispd_exa_engine.TopologyRing.{machine_half_id}

-- Machines at 2, 4, …, 2 * machines, links between them and the master, and one from the last machine
-- to the master.
abbrev pub ring_place : ℕ → ℕ → Place
ring_place machines id =
    if id == 0
    then master_place
    else if ltb (2 * machines + 1) id
    then dummy_place
    else if id % 2 == 0
    then machine_place
    else if id == 2 * machines + 1
    then link_place (2 * machines) 0
    else link_place (id - 1) (id + 1)

-- `last`, `last - 2`, …
abbrev pub ids_down : ℕ → ℕ → List ℕ
ids_down zero id = []
ids_down (suc rounds) id = id ∷ ids_down rounds (id - 2)

-- The links that a packet to a machine passes.
abbrev pub ring_links : ℕ → ℕ → List ℕ
ring_links machines id =
    if leb id (machine_half_id machines)
    then ids_from (id / 2) 1
    else ids_down ((2 * machines + 2 - id) / 2) (2 * machines + 1)

pub get_elem?-ids_down :
    (rounds id i : ℕ) → i < rounds → get_elem? (ids_down rounds id) i ≡ some (id - 2 * i)
get_elem?-ids_down zero id i lt = elim lt [ ]
get_elem?-ids_down (suc rounds) id zero lt = ap some (omega arith)
get_elem?-ids_down (suc rounds) id (suc i) lt =
    get_elem?-ids_down rounds (id - 2) i (omega arith) ∙ ap some (omega arith)

pub length-ids_down : (rounds id : ℕ) → length (ids_down rounds id) ≡ rounds
length-ids_down zero id = refl
length-ids_down (suc rounds) id = ap suc (length-ids_down rounds (id - 2))

pub machine_at : (machines i : ℕ) → i < machines → ring_place machines (2 + 2 * i) ≡ machine_place
machine_at machines i lt = ground arith

pub link_at :
    (machines i : ℕ)
    → i < machines
    → ring_place machines (1 + 2 * i) ≡ link_place (1 + 2 * i - 1) (1 + 2 * i + 1)
link_at machines i lt = ground arith

pub last_at : (machines : ℕ) → ring_place machines (2 * machines + 1) ≡ link_place (2 * machines) 0
last_at machines = ground arith

pub nothing_at :
    (machines id : ℕ) → ¬ (id < suc (2 * machines + 1)) → ring_place machines id ≡ dummy_place
nothing_at machines id out = ground arith

pub master_at : (machines id : ℕ) → ring_place machines id ≡ master_place → id ≡ 0
master_at machines id e = ground arith

ring_link :
    (machines i : ℕ)
    → i < machines
    → ring_place machines (1 + 2 * i) ≡ link_place (2 * i) (2 * suc i)
ring_link machines i lt =
    let left : 1 + 2 * i - 1 ≡ 2 * i = omega arith in
    let right : 1 + 2 * i + 1 ≡ 2 * suc i = omega arith in
    link_at machines i lt
    ∙ ap (λ a. link_place a (1 + 2 * i + 1)) left
    ∙ ap (link_place (2 * i)) right

-- The services on the way down from the master.
abbrev down_node : ℕ → ℕ → ℕ
down_node machines zero = 0
down_node machines (suc i) = 2 * machines - 2 * i

down_link :
    (machines i : ℕ)
    → i < machines
    → ring_place machines (2 * machines + 1 - 2 * i)
      ≡ link_place (down_node machines (suc i)) (down_node machines i)
down_link machines zero lt =
    let here : 2 * machines + 1 - 2 * 0 ≡ 2 * machines + 1 = omega arith in
    let end : 2 * machines ≡ 2 * machines - 2 * 0 = omega arith in
    ap (ring_place machines) here ∙ last_at machines ∙ ap (λ a. link_place a 0) end
down_link machines (suc i) lt =
    let k = machines - suc i in
    let here : 2 * machines + 1 - 2 * suc i ≡ 1 + 2 * k = omega arith in
    let from : 2 * k ≡ 2 * machines - 2 * suc i = omega arith in
    let to : 2 * suc k ≡ 2 * machines - 2 * i = omega arith in
    ap (ring_place machines) here
    ∙ ring_link machines k (omega arith)
    ∙ ap (λ a. link_place a (2 * suc k)) from
    ∙ ap (link_place (2 * machines - 2 * suc i)) to

-- The reading of a route, for a machine with these links.
abbrev Reads : (table : RoutingTable) (id : ℕ) → List ℕ → Type 0
Reads table id links =
    (route : Route) × (get_route table 0 id ≡ ok route)
    × ((i v : ℕ) → get_elem? links i ≡ some v → index route i ≡ ok v)

up_line :
    (machines : ℕ) (table : RoutingTable)
    → machines + 1 < u64_mod
    → (k : ℕ) → k < machines
    → Reads table (2 + 2 * k) (ids_from ((2 + 2 * k) / 2) 1)
    → Line (ring_place machines) table 0 (2 + 2 * k)
up_line machines table small k lt (route, routed, reads) = record {
  last = k;
  node = λ i. 2 * i;
  link = λ i. 1 + 2 * i;
  route = route;
  small = omega (arith, small);
  starts = omega arith;
  ends = omega arith;
  origin = refl;
  sink = machine_at machines k lt;
  routed = routed;
  reads = λ i h.
      reads i (1 + 2 * i) (get_elem?-ids_from_within ((2 + 2 * k) / 2) 1 i (omega (arith, h)));
  distinct = λ i h. omega arith;
  wired = λ i h. inl (ring_link machines i (omega arith));
  relays = λ i h. inr (
    let here : 2 + 2 * i ≡ 2 * suc i = omega arith in
        ap (ring_place machines) (sym here) ∙ machine_at machines i (omega arith),
    omega arith,
  );
}

down_line :
    (machines : ℕ) (table : RoutingTable)
    → machines + 1 < u64_mod
    → (k : ℕ) → k < machines
    → Reads table (2 + 2 * k) (ids_down ((2 * machines + 2 - (2 + 2 * k)) / 2) (2 * machines + 1))
    → Line (ring_place machines) table 0 (2 + 2 * k)
down_line machines table small k lt (route, routed, reads) = record {
  last = machines - k - 1;
  node = down_node machines;
  link = λ i. 2 * machines + 1 - 2 * i;
  route = route;
  small = omega (arith, small);
  starts = refl;
  ends = omega arith;
  origin = refl;
  sink = machine_at machines k lt;
  routed = routed;
  reads = λ i h. reads i (2 * machines + 1 - 2 * i) (
      get_elem?-ids_down ((2 * machines + 2 - (2 + 2 * k)) / 2) (2 * machines + 1) i
        (omega (arith, h)));
  distinct = λ i h. apart i (omega (arith, h));
  wired = λ i h. inr (down_link machines i (omega (arith, h)));
  relays = λ i h. inr (
    let j = machines - i - 1 in
        let here : 2 + 2 * j ≡ 2 * machines - 2 * i = omega (arith, h) in
        ap (ring_place machines) (sym here) ∙ machine_at machines j (omega (arith, h)),
    omega (arith, h),
  );
}
  where
    apart : (i : ℕ) → i < machines → down_node machines i ≢ down_node machines (suc i)
    apart zero lt = omega arith
    apart (suc i) lt = omega arith

pub ring_line :
    (machines : ℕ) (table : RoutingTable)
    → machines + 1 < u64_mod
    → HasRoutes (ring_links machines) 2 machines table
    → (k : ℕ) → k < machines
    → Line (ring_place machines) table 0 (2 + 2 * k)
ring_line machines table small routes k lt =
    elim (Bool-cases (leb (2 + 2 * k) (machine_half_id machines))) [
      | inl near ↦ up_line machines table small k lt (rw near at (routes k lt))
      | inr far ↦ down_line machines table small k lt (rw far at (routes k lt))
    ]
