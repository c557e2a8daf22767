-- ===== src/TopologyStarSwitched/Places.antt =====
-- Where the services of test/topology_star_switched/main.cpp stand, and the lines to its machines.
use ispd_exa_engine.Base.{
  ℕ, zero, suc, ◌+◌, ◌-◌, ◌*◌, ◌%◌, ◌≤◌, ◌<◌, ◌≡◌, ◌≢◌, ◌∙◌, ◌⊎◌, refl, ap, List, [], ◌∷◌, some,
  get_elem?, ok, arith, ◌==◌, ltb, if◌then◌else◌, inl, inr,
}
use ispd_exa_engine.Routing.{RoutingTable, Route, index}
use ispd_exa_engine.Network.Placement.{
  Place, link_place, machine_place, master_place, switch_place, dummy_place, Line,
}
use ispd_exa_engine.TestProgram.RouteFile.{odd_or_even}
use ispd_exa_engine.TestProgram.Table.{HasRoutes}

-- The switch at 2 behind the link 1, machines at 4, …, 2 * machines + 2, and before each the link that
-- joins it with the switch.
abbrev pub switched_place : ℕ → ℕ → Place
switched_place machines id =
    if id == 0
    then master_place
    else if ltb (2 * machines + 2) id
    then dummy_place
    else if id == 1
    then link_place 0 2
    else if id == 2
    then switch_place
    else if id % 2 == 0
    then machine_place
    else link_place 2 (id + 1)

-- The link to the switch and that of a machine.
abbrev pub both_links : ℕ → List ℕ
both_links id = 1 ∷ (id - 1) ∷ []

pub machine_at :
    (machines i : ℕ) → i < machines → switched_place machines (4 + 2 * i) ≡ machine_place
machine_at machines i lt = ground arith

pub link_at :
    (machines i : ℕ)
    → i < machines
    → switched_place machines (3 + 2 * i) ≡ link_place 2 (3 + 2 * i + 1)
link_at machines i lt = ground arith

pub switch_at : (machines : ℕ) → switched_place machines 2 ≡ switch_place
switch_at machines = ground arith

pub first_at : (machines : ℕ) → switched_place machines 1 ≡ link_place 0 2
first_at machines = ground arith

pub nothing_at :
    (machines id : ℕ) → ¬ (id < suc (2 * machines + 2)) → switched_place machines id ≡ dummy_place
nothing_at machines id out = ground arith

pub master_at : (machines id : ℕ) → switched_place machines id ≡ master_place → id ≡ 0
master_at machines id e = ground arith

-- The first link, the switch, another link, a machine or the master.
pub switched_cases :
    (machines id : ℕ)
    → id < suc (2 * machines + 2)
    → (id ≡ 1)
      ⊎ ((id ≡ 2)
          ⊎ (((i : ℕ) × (i < machines) × (3 + 2 * i ≡ id))
              ⊎ (((i : ℕ) × (i < machines) × (4 + 2 * i ≡ id)) ⊎ (id ≡ 0))))
switched_cases machines id lt = elim (odd_or_even id) [
  | inl (zero, odd) ↦ inl (omega (arith, odd))
  | inl (suc i, odd) ↦ inr (inr (inl (i, omega (arith, odd), omega (arith, odd))))
  | inr (inl (zero, even)) ↦ inr (inl (omega (arith, even)))
  | inr (inl (suc i, even)) ↦ inr (inr (inr (inl (i, omega (arith, even), omega (arith, even)))))
  | inr (inr is_zero) ↦ inr (inr (inr (inr is_zero)))
]

-- The services that a packet to a machine comes to, and the links before them.
abbrev node_to : ℕ → ℕ → ℕ
node_to id zero = 0
node_to id (suc zero) = 2
node_to id (suc (suc i)) = id

abbrev link_to : ℕ → ℕ → ℕ
link_to id zero = 1
link_to id (suc i) = id - 1

wired_to :
    (machines k : ℕ)
    → k < machines
    → (i : ℕ) → i ≤ 1
    → switched_place machines (link_to (4 + 2 * k) i)
      ≡ link_place (node_to (4 + 2 * k) i) (node_to (4 + 2 * k) (suc i))
wired_to machines k lt zero h = first_at machines
wired_to machines k lt (suc zero) h =
    let here : 4 + 2 * k - 1 ≡ 3 + 2 * k = omega arith in
    let to : 3 + 2 * k + 1 ≡ 4 + 2 * k = omega arith in
    ap (switched_place machines) here ∙ link_at machines k lt ∙ ap (link_place 2) to
wired_to machines k lt (suc (suc i)) h = absurd (omega arith)

pub switched_line :
    (machines : ℕ) (table : RoutingTable)
    → HasRoutes both_links 4 machines table
    → (k : ℕ) → k < machines
    → Line (switched_place machines) table 0 (4 + 2 * k)
switched_line machines table routes k lt =
    let (route, routed, reads) = routes k lt in
    record {
      last = 1;
      node = node_to (4 + 2 * k);
      link = link_to (4 + 2 * k);
      route = route;
      small = omega arith;
      starts = refl;
      ends = refl;
      origin = refl;
      sink = machine_at machines k lt;
      routed = routed;
      reads = reads_to route reads;
      distinct = apart;
      wired = λ i h. inl (wired_to machines k lt i h);
      relays = λ i h.
          let first : i ≡ 0 = omega arith in
          inl (
            ap (λ i. switched_place machines (node_to (4 + 2 * k) (suc i))) first
            ∙ switch_at machines);
    }
  where
    apart : (i : ℕ) → i ≤ 1 → node_to (4 + 2 * k) i ≢ node_to (4 + 2 * k) (suc i)
    apart zero h = omega arith
    apart (suc zero) h = omega arith
    apart (suc (suc i)) h = absurd (omega arith)

    reads_to :
        (route : Route)
        → ((i v : ℕ) → get_elem? (both_links (4 + 2 * k)) i ≡ some v → index route i ≡ ok v)
        → (i : ℕ) → i ≤ 1
        → index route i ≡ ok (link_to (4 + 2 * k) i)
    reads_to route reads zero h = reads 0 1 refl
    reads_to route reads (suc zero) h = reads 1 (4 + 2 * k - 1) refl
    reads_to route reads (suc (suc i)) h = absurd (omega arith)
