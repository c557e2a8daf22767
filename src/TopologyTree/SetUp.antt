-- ===== src/TopologyTree/SetUp.antt =====
-- What test/topology_tree/main.cpp registers.
use ispd_exa_engine.Base.{Option, ℕ, ◌≡◌, refl, false, ok, length, arith}
use ispd_exa_engine.Double.{Double}
use ispd_exa_engine.UnorderedMap.{find, insert}
use ispd_exa_engine.Scheduler.{add_resource}
use ispd_exa_engine.Service.Master.{add_slave}
use ispd_exa_engine.Simulator.{Simulator, register_service, register_service_finalizer}
use ispd_exa_engine.Model.{is_out_of_unit, register_master, register_machine, register_link}
use ispd_exa_engine.Network.Unset.{BuildsUnset}
use ispd_exa_engine.TestProgram.{register_test_machine, register_test_link}
use ispd_exa_engine.TopologyTree.{
  tree_simulator, tree_masters, tree_machines, tree_links, with_masters, with_machines,
}

module _ {D : Type 0} ⦃d : Double D⦄ (memory : ℕ → Option D) (tasks : ℕ) where
  -- All services are registered, among them the master 2, which gets no workload.
  pub tree_simulator-BuildsUnset :
      d.le (d.of_nat 2) d.nought ≡ false
      → is_out_of_unit d.nought ≡ false
      → (sim : Simulator D) × (tree_simulator memory tasks ≡ ok sim)
        × BuildsUnset sim 2
        × (length sim.service_initializers ≡ 17)
  unfolding tree_simulator tree_masters tree_machines tree_links with_masters with_machines
      register_test_machine register_test_link register_machine register_link register_master
      register_service register_service_finalizer add_slave add_resource find insert
  tree_simulator-BuildsUnset strong inside =
      rw (strong, inside)
        (
          _,
          refl,
          record {
            service = _;
            sent = _;
            registered = refl;
            lacks = (_, refl, refl);
            awaited = omega arith;
          },
          refl,
        )
