-- ===== src/TopologyTree.antt =====
-- test/topology_tree/main.cpp: a master 0 whose slaves are the masters 2 and 4, with three machines
-- each.
pub mod SetUp
pub mod Unended
pub mod Tests
use ispd_exa_engine.Base.{some, Option, ℕ, List, [], ◌∷◌, Result, ok, ◌>>=◌}
use ispd_exa_engine.Base.Int.{pos}
use ispd_exa_engine.Double.{Double}
use ispd_exa_engine.Customer.{Message}
use ispd_exa_engine.Workload.{uniform_random}
use ispd_exa_engine.Service.Master.{Master, points_to, add_slave}
use ispd_exa_engine.Simulator.{Simulator, new_simulator, register_service_finalizer}
use ispd_exa_engine.Network.{Network}
use ispd_exa_engine.Model.{new_model_builder, round_robin, register_master}
use ispd_exa_engine.TestProgram.{
  print_metrics, start_of, register_test_machine, register_test_link, Arguments, run_main,
}

module _ {D : Type 0} ⦃d : Double D⦄ where
  -- The callback of the master 0.
  unfoldable pub with_masters : (tasks : ℕ) → Master D → Result (Master D × List (Message D))
  unfolding add_slave
  with_masters tasks m =
      let m' = record m {
        workload =
            points_to
              (uniform_random (pos tasks) (d.of_nat 10) (d.of_nat 15) (d.of_nat 20) (d.of_nat 50));
      } in
      let m'' = add_slave (add_slave m' 2) 4 in ok (m'', start_of m'' ∷ [])

  -- The callbacks of the masters 2 and 4, which set no workload.
  unfoldable pub with_machines : (a b c : ℕ) → Master D → Result (Master D × List (Message D))
  unfolding add_slave
  with_machines a b c m =
      let m' = add_slave (add_slave (add_slave m a) b) c in ok (m', start_of m' ∷ [])

  -- What `main` registers, for the argument -t; `memory` is what `rs_malloc` returns.
  unfoldable pub tree_masters : (tasks : ℕ) → Simulator D → Result (Simulator D)
  unfolding with_masters with_machines
  tree_masters tasks builder = register_master builder 0 round_robin (with_masters tasks) >>= λ s0.
      register_master s0 2 round_robin (with_machines 6 8 10) >>= λ s2.
      register_master s2 4 round_robin (with_machines 12 14 16)

  unfoldable pub tree_machines : (memory : ℕ → Option D) → Simulator D → Result (Simulator D)
  unfolding register_test_machine
  tree_machines memory sim = register_test_machine memory 6 sim >>= λ s6.
      register_test_machine memory 8 s6 >>= λ s8. register_test_machine memory 10 s8 >>= λ s10.
      register_test_machine memory 12 s10 >>= λ s12.
      register_test_machine memory 14 s12 >>= λ s14. register_test_machine memory 16 s14

  unfoldable pub tree_links : Simulator D → Result (Simulator D)
  unfolding register_test_link
  tree_links sim = register_test_link 0 2 1 sim >>= λ s1. register_test_link 0 4 3 s1 >>= λ s3.
      register_test_link 2 6 5 s3 >>= λ s5. register_test_link 2 8 7 s5 >>= λ s7.
      register_test_link 2 10 9 s7 >>= λ s9. register_test_link 4 12 11 s9 >>= λ s11.
      register_test_link 4 14 13 s11 >>= λ s13. register_test_link 14 16 15 s13

  unfoldable pub tree_simulator : (memory : ℕ → Option D) (tasks : ℕ) → Result (Simulator D)
  unfolding tree_masters tree_machines tree_links
  tree_simulator memory tasks = new_model_builder (some new_simulator) >>= λ builder.
      tree_masters tasks builder >>= λ masters. tree_machines memory masters >>= λ machines.
      tree_links machines >>= λ links. register_service_finalizer links 0 print_metrics >>= λ f0.
      register_service_finalizer f0 2 print_metrics >>= λ f2.
      register_service_finalizer f2 6 print_metrics >>= λ f6.
      register_service_finalizer f6 16 print_metrics

-- `main`, which reads the route file that it finds and uses the argument -m nowhere. `pick` is the
-- order of the deliveries, and `none` means that the fuel has run out.
unfoldable pub tree_program :
    {D R : Type 0}
    → ⦃d : Double D⦄ → (random : R → D × R) (memory : ℕ → Option D) (pick : List (Message D) → ℕ)
    → (fuel : ℕ) → (route_file : List ℕ) → Arguments
    → R
    → Result (Option (Network D R))
unfolding run_main
tree_program random memory pick fuel route_file args r =
    run_main random pick fuel route_file (tree_simulator memory args.tasks) args r
