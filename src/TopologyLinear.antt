-- ===== src/TopologyLinear.antt =====
-- test/topology_linear/main.cpp: a master 0 and machines 2, 4, … in a row, with the links 1, 3, …
-- between them.
pub mod Places
pub mod SetUp
pub mod Simulation
pub mod Tests
use ispd_exa_engine.Base.{◌/◌, some, Option, ℕ, ◌+◌, ◌-◌, List, Result, ◌>>=◌}
use ispd_exa_engine.Double.{Double}
use ispd_exa_engine.Customer.{Message}
use ispd_exa_engine.Simulator.{Simulator, new_simulator, register_service_finalizer}
use ispd_exa_engine.Network.{Network}
use ispd_exa_engine.Model.{new_model_builder, round_robin, register_master}
use ispd_exa_engine.TestProgram.{
  every_other, link_loop, route_loop, print_metrics, with_slaves, register_test_machine,
  register_test_link, Arguments, run_main,
}

-- The bytes of the route file: the links before a machine are half its identifier.
unfoldable pub create_linear_topology_routing : ℕ → List ℕ
unfolding link_loop route_loop
create_linear_topology_routing machines =
    route_loop (λ machine_id. link_loop (machine_id / 2) 1) machines 2

module _ {D : Type 0} ⦃d : Double D⦄ where
  unfoldable pub register_linear_link : ℕ → Simulator D → Result (Simulator D)
  unfolding register_test_link
  register_linear_link id sim = register_test_link (id - 1) (id + 1) id sim

  -- What `main` registers, for the arguments -m and -t; `memory` is what `rs_malloc` returns.
  unfoldable pub linear_simulator :
      (memory : ℕ → Option D) (tasks machines : ℕ) → Result (Simulator D)
  unfolding with_slaves register_test_machine register_linear_link every_other
  linear_simulator memory tasks machines = new_model_builder (some new_simulator) >>= λ builder.
      register_master builder 0 round_robin (with_slaves 2 tasks machines) >>= λ sim0.
      every_other (register_test_machine memory) machines 2 sim0 >>= λ sim1.
      every_other register_linear_link machines 1 sim1 >>= λ sim2.
      register_service_finalizer sim2 0 print_metrics >>= λ sim3.
      register_service_finalizer sim3 2 print_metrics

-- `main`. `pick` is the order of the deliveries, and `none` means that the fuel has run out.
unfoldable pub linear_program :
    {D R : Type 0}
    → ⦃d : Double D⦄ → (random : R → D × R) (memory : ℕ → Option D) (pick : List (Message D) → ℕ)
    → (fuel : ℕ) → Arguments
    → R
    → Result (Option (Network D R))
unfolding run_main
linear_program random memory pick fuel args r =
    run_main random pick fuel (create_linear_topology_routing args.machines)
      (linear_simulator memory args.tasks args.machines) args r
