-- ===== src/TopologyRing.antt =====
-- test/topology_ring/main.cpp: a master 0 and machines 2, 4, … in a ring, with the links 1, 3, …
-- between them and one more behind the last machine.
pub mod Places
pub mod RouteFile
pub mod SetUp
pub mod Simulation
pub mod Tests
use ispd_exa_engine.Base.{
  leb, stop_if, died, ◌>>◌, some, Option, ℕ, zero, suc, ◌+◌, ◌-◌, ◌*◌, ◌/◌, ◌%◌, ◌==◌, ◌++◌, List,
  [], ◌∷◌, Result, ◌>>=◌, if◌then◌else◌,
}
use ispd_exa_engine.Double.{Double}
use ispd_exa_engine.Customer.{Message}
use ispd_exa_engine.Simulator.{Simulator, new_simulator, register_service_finalizer}
use ispd_exa_engine.Network.{Network}
use ispd_exa_engine.Model.{new_model_builder, round_robin, register_master}
use ispd_exa_engine.TestProgram.ToString.{to_string}
use ispd_exa_engine.TestProgram.{
  every_other, link_loop, route_loop, print_metrics, with_slaves, register_test_machine,
  register_test_link, Arguments, run_main,
}

-- `machineHalfId`, which is made even.
unfoldable pub machine_half_id : ℕ → ℕ
machine_half_id machines = let half = 2 * machines / 2 in if half % 2 == 0 then half else half + 1

-- The loop over the links behind a machine, from the last one down.
unfoldable pub link_loop_down : ℕ → ℕ → List ℕ
link_loop_down zero link_id = []
link_loop_down (suc rounds) link_id =
    to_string link_id ++ b' ' ∷ link_loop_down rounds (link_id - 2)

-- The bytes of the route file: the machines up to the half are reached over the links before them,
-- the others over those behind them.
unfoldable pub create_ring_topology_routing : ℕ → List ℕ
unfolding link_loop link_loop_down route_loop machine_half_id
create_ring_topology_routing machines =
    let higher = 2 * machines in
    let half = machine_half_id machines in
    route_loop (λ machine_id. link_loop (machine_id / 2) 1) (half / 2) 2
    ++ route_loop (λ machine_id. link_loop_down ((higher + 2 - machine_id) / 2) (higher + 1))
        (machines - half / 2) (half + 2)

module _ {D : Type 0} ⦃d : Double D⦄ where
  -- A round of the loop: a machine and the link before it.
  unfoldable pub register_ring_pair : (ℕ → Option D) → ℕ → Simulator D → Result (Simulator D)
  unfolding register_test_machine register_test_link
  register_ring_pair memory id sim = register_test_machine memory id sim >>= λ sim'.
      register_test_link (id - 1 - 1) (id - 1 + 1) (id - 1) sim'

  -- What `main` registers, for the arguments -m and -t; `memory` is what `rs_malloc` returns.
  unfoldable pub ring_simulator :
      (memory : ℕ → Option D) (tasks machines : ℕ) → Result (Simulator D)
  unfolding with_slaves register_ring_pair every_other register_test_link
  ring_simulator memory tasks machines = new_model_builder (some new_simulator) >>= λ builder.
      register_master builder 0 round_robin (with_slaves 2 tasks machines) >>= λ sim0.
      every_other (register_ring_pair memory) machines 2 sim0 >>= λ sim1.
      register_test_link (2 * machines) 0 (2 * machines + 1) sim1 >>= λ sim2.
      register_service_finalizer sim2 0 print_metrics >>= λ sim3.
      register_service_finalizer sim3 2 print_metrics

-- `main`, which stops with fewer than two machines. `pick` is the order of the deliveries, and `none` means that the fuel has run out.
unfoldable pub ring_program :
    {D R : Type 0}
    → ⦃d : Double D⦄ → (random : R → D × R) (memory : ℕ → Option D) (pick : List (Message D) → ℕ)
    → (fuel : ℕ) → Arguments
    → R
    → Result (Option (Network D R))
unfolding run_main
ring_program random memory pick fuel args r =
    stop_if (leb args.machines 1) died
    >> run_main random pick fuel (create_ring_topology_routing args.machines)
        (ring_simulator memory args.tasks args.machines) args r
