-- ===== src/TopologyStar.antt =====
-- test/topology_star/main.cpp: a master 0 and machines 2, 4, …, each with a link of its own.
pub mod Places
pub mod SetUp
pub mod Simulation
pub mod Tests
use ispd_exa_engine.Base.{some, Option, ℕ, ◌-◌, List, Result, ◌>>=◌}
use ispd_exa_engine.Double.{Double}
use ispd_exa_engine.Customer.{Message}
use ispd_exa_engine.Simulator.{Simulator, new_simulator, register_service_finalizer}
use ispd_exa_engine.Network.{Network}
use ispd_exa_engine.Model.{new_model_builder, round_robin, register_master}
use ispd_exa_engine.TestProgram.ToString.{to_string}
use ispd_exa_engine.TestProgram.{
  every_other, route_loop, print_metrics, with_slaves, register_test_machine, register_test_link,
  Arguments, run_main,
}

-- The bytes of the route file.
unfoldable pub create_star_topology_routing : ℕ → List ℕ
unfolding route_loop
create_star_topology_routing machines =
    route_loop (λ machine_id. to_string (machine_id - 1)) machines 2

module _ {D : Type 0} ⦃d : Double D⦄ where
  -- A round of the loop: a machine and its link to the master.
  unfoldable pub register_star_pair : (ℕ → Option D) → ℕ → Simulator D → Result (Simulator D)
  unfolding register_test_machine register_test_link
  register_star_pair memory id sim =
      register_test_machine memory id sim >>= λ sim'. register_test_link 0 id (id - 1) sim'

  -- What `main` registers, for the arguments -m and -t; `memory` is what `rs_malloc` returns.
  unfoldable pub star_simulator :
      (memory : ℕ → Option D) (tasks machines : ℕ) → Result (Simulator D)
  unfolding with_slaves register_star_pair every_other
  star_simulator memory tasks machines = new_model_builder (some new_simulator) >>= λ builder.
      register_master builder 0 round_robin (with_slaves 2 tasks machines) >>= λ sim0.
      every_other (register_star_pair memory) machines 2 sim0 >>= λ sim1.
      register_service_finalizer sim1 0 print_metrics >>= λ sim2.
      register_service_finalizer sim2 2 print_metrics

-- `main`. `pick` is the order of the deliveries, and `none` means that the fuel has run out.
unfoldable pub star_program :
    {D R : Type 0}
    → ⦃d : Double D⦄ → (random : R → D × R) (memory : ℕ → Option D) (pick : List (Message D) → ℕ)
    → (fuel : ℕ) → Arguments
    → R
    → Result (Option (Network D R))
unfolding run_main
star_program random memory pick fuel args r =
    run_main random pick fuel (create_star_topology_routing args.machines)
      (star_simulator memory args.tasks args.machines) args r
