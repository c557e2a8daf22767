-- ===== src/TopologyStar/Places.antt =====
-- Where the services of test/topology_star/main.cpp stand, and the lines to its machines.
use ispd_exa_engine.Base.{
  ℕ, suc, ◌+◌, ◌-◌, ◌*◌, ◌%◌, ◌<◌, ◌≡◌, ◌∙◌, refl, ap, List, [], ◌∷◌, some, arith, ◌==◌, ltb,
  if◌then◌else◌, inl,
}
use ispd_exa_engine.Routing.{RoutingTable}
use ispd_exa_engine.Network.Placement.{
  Place, link_place, machine_place, master_place, dummy_place, Line,
}
use ispd_exa_engine.TestProgram.Table.{HasRoutes}

-- Machines at 2, 4, …, 2 * machines, and before each the link that joins it with the master.
abbrev pub star_place : ℕ → ℕ → Place
star_place machines id =
    if id == 0
    then master_place
    else if ltb (2 * machines) id
    then dummy_place
    else if id % 2 == 0
    then machine_place
    else link_place 0 (id + 1)

-- The link of a machine.
abbrev pub own_link : ℕ → List ℕ
own_link id = (id - 1) ∷ []

pub machine_at : (machines i : ℕ) → i < machines → star_place machines (2 + 2 * i) ≡ machine_place
machine_at machines i lt = ground arith

pub link_at :
    (machines i : ℕ) → i < machines → star_place machines (1 + 2 * i) ≡ link_place 0 (1 + 2 * i + 1)
link_at machines i lt = ground arith

pub nothing_at :
    (machines id : ℕ) → ¬ (id < suc (2 * machines)) → star_place machines id ≡ dummy_place
nothing_at machines id out = ground arith

pub master_at : (machines id : ℕ) → star_place machines id ≡ master_place → id ≡ 0
master_at machines id e = ground arith

star_link :
    (machines k : ℕ) → k < machines → star_place machines (1 + 2 * k) ≡ link_place 0 (2 + 2 * k)
star_link machines k lt =
    let right : 1 + 2 * k + 1 ≡ 2 + 2 * k = omega arith in
    link_at machines k lt ∙ ap (link_place 0) right

pub star_line :
    (machines : ℕ) (table : RoutingTable)
    → HasRoutes own_link 2 machines table
    → (k : ℕ) → k < machines
    → Line (star_place machines) table 0 (2 + 2 * k)
star_line machines table routes k lt =
    let (route, routed, reads) = routes k lt in
    record {
      last = 0;
      node = λ i. i * (2 + 2 * k);
      link = λ i. 1 + 2 * k;
      route = route;
      small = omega arith;
      starts = omega arith;
      ends = omega arith;
      origin = refl;
      sink = machine_at machines k lt;
      routed = routed;
      reads = λ i h.
          let first : i ≡ 0 = omega arith in rw first (reads 0 (1 + 2 * k) (ap some (omega arith)));
      distinct = λ i h. let first : i ≡ 0 = omega arith in rw first (omega arith);
      wired = λ i h.
          let first : i ≡ 0 = omega arith in
          let from : 0 ≡ 0 * (2 + 2 * k) = omega arith in
          let to : 2 + 2 * k ≡ suc 0 * (2 + 2 * k) = omega arith in
          rw first (
            inl (
              star_link machines k lt
              ∙ ap (λ a. link_place a (2 + 2 * k)) from
              ∙ ap (link_place (0 * (2 + 2 * k))) to));
      relays = λ i h. absurd (omega arith);
    }
