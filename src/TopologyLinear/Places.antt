-- ===== src/TopologyLinear/Places.antt =====
-- Where the services of test/topology_linear/main.cpp stand, and the lines to its machines.
use ispd_exa_engine.Base.{
  ℕ, suc, ◌+◌, ◌-◌, ◌*◌, ◌/◌, ◌%◌, ◌<◌, ◌≡◌, ◌∙◌, refl, sym, ap, List, arith, ◌==◌, ltb, u64_mod,
  if◌then◌else◌, inl, inr,
}
use ispd_exa_engine.Routing.{RoutingTable}
use ispd_exa_engine.Network.Placement.{
  Place, link_place, machine_place, master_place, dummy_place, Line,
}
use ispd_exa_engine.TestProgram.RouteFile.{ids_from, get_elem?-ids_from_within}
use ispd_exa_engine.TestProgram.Table.{HasRoutes}

-- Machines at 2, 4, …, 2 * machines, and links between them and the master.
abbrev pub linear_place : ℕ → ℕ → Place
linear_place machines id =
    if id == 0
    then master_place
    else if ltb (2 * machines) id
    then dummy_place
    else if id % 2 == 0
    then machine_place
    else link_place (id - 1) (id + 1)

-- The links before a machine.
abbrev pub links_before : ℕ → List ℕ
links_before id = ids_from (id / 2) 1

pub machine_at : (machines i : ℕ) → i < machines → linear_place machines (2 + 2 * i) ≡ machine_place
machine_at machines i lt = ground arith

pub link_at :
    (machines i : ℕ)
    → i < machines
    → linear_place machines (1 + 2 * i) ≡ link_place (1 + 2 * i - 1) (1 + 2 * i + 1)
link_at machines i lt = ground arith

pub nothing_at :
    (machines id : ℕ) → ¬ (id < suc (2 * machines)) → linear_place machines id ≡ dummy_place
nothing_at machines id out = ground arith

pub master_at : (machines id : ℕ) → linear_place machines id ≡ master_place → id ≡ 0
master_at machines id e = ground arith

linear_link :
    (machines i : ℕ)
    → i < machines
    → linear_place machines (1 + 2 * i) ≡ link_place (2 * i) (2 * suc i)
linear_link machines i lt =
    let left : 1 + 2 * i - 1 ≡ 2 * i = omega arith in
    let right : 1 + 2 * i + 1 ≡ 2 * suc i = omega arith in
    link_at machines i lt
    ∙ ap (λ a. link_place a (1 + 2 * i + 1)) left
    ∙ ap (link_place (2 * i)) right

pub linear_line :
    (machines : ℕ) (table : RoutingTable)
    → machines + 1 < u64_mod
    → HasRoutes links_before 2 machines table
    → (k : ℕ) → k < machines
    → Line (linear_place machines) table 0 (2 + 2 * k)
linear_line machines table small routes k lt =
    let (route, routed, reads) = routes k lt in
    record {
      last = k;
      node = λ i. 2 * i;
      link = λ i. 1 + 2 * i;
      route = route;
      small = omega (arith, small);
      starts = omega arith;
      ends = omega arith;
      origin = refl;
      sink = machine_at machines k lt;
      routed = routed;
      reads = λ i h.
          reads i (1 + 2 * i) (get_elem?-ids_from_within ((2 + 2 * k) / 2) 1 i (omega (arith, h)));
      distinct = λ i h. omega arith;
      wired = λ i h. inl (linear_link machines i (omega arith));
      relays = λ i h. inr (
        let here : 2 + 2 * i ≡ 2 * suc i = omega arith in
            ap (linear_place machines) (sym here) ∙ machine_at machines i (omega arith),
        omega arith,
      );
    }
