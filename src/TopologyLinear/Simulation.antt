-- ===== src/TopologyLinear/Simulation.antt =====
-- The program of test/topology_linear/main.cpp from its route file to the end of its simulation.
use ispd_exa_engine.Base.{Option, ℕ, ◌+◌, ◌*◌, ◌≤◌, ◌<◌, ◌≡◌, refl, List, false, u32_mod}
use ispd_exa_engine.Double.{Double, IsOrdered}
use ispd_exa_engine.Customer.{Message}
use ispd_exa_engine.Model.{is_out_of_unit}
use ispd_exa_engine.Service.Machine.{int_max}
use ispd_exa_engine.Network.Cost.{rounds}
use ispd_exa_engine.TestProgram.{Arguments}
use ispd_exa_engine.TestProgram.Simulation.{Ends, run_main-Ends}
use ispd_exa_engine.TopologyLinear.{
  linear_simulator, linear_program, create_linear_topology_routing,
}
use ispd_exa_engine.TopologyLinear.Places.{linear_place}
use ispd_exa_engine.TopologyLinear.SetUp.{
  linear_table, linear_table-AreShort, read-create_linear, linear_simulator-IsSetUp,
}

module _ {D R : Type 0} ⦃d : Double D⦄ (laws : IsOrdered D) (random : R → D × R)
    (memory : ℕ → Option D) (pick : List (Message D) → ℕ) (args : Arguments) where
  -- The program of the linear topology with at least one machine, whose identifiers fit into 32
  -- bits, no more tasks than an `int` counts, and `double` values of which `2.0 <= 0.0` and `1.0 <
  -- 0.0` are false: it reads the route file that it has written, registers all services without
  -- stopping, and its simulation ends, in whatever order the messages are delivered, with all tasks
  -- completed; or it meets undefined behaviour, and then an event was pending that is not before the
  -- largest finite time, or the block that `rs_malloc` returns for the two cores of a machine has
  -- not a number for each of them, or none that is before the largest finite time. `4 * (machines +
  -- 1)` deliveries for each task and one more than that for the start are enough.
  pub linear_program-Ends :
      1 ≤ args.machines
      → 2 * args.machines + 2 < u32_mod
      → d.le (d.of_nat 2) d.nought ≡ false
      → d.lt d.one d.nought ≡ false
      → args.tasks ≤ int_max
      → (fuel : ℕ) (r : R) → rounds args.machines + 1 + args.tasks * rounds args.machines ≤ fuel
      → Ends random memory args.tasks
          (create_linear_topology_routing args.machines)
          (linear_simulator memory args.tasks args.machines)
          r
          (linear_program random memory pick fuel args r)
  unfolding linear_program
  linear_program-Ends positive small strong inside few fuel r enough =
      let inside' : is_out_of_unit d.nought ≡ false = rw (laws.lt_irrefl d.nought, inside) refl in
      let (sim, ran, u) =
        linear_simulator-IsSetUp memory args.tasks args.machines strong inside' positive small in
      run_main-Ends laws random memory (linear_table args.machines) (linear_place args.machines) sim
        2 args.tasks args.machines (2 * args.machines) args.machines pick u
        (create_linear_topology_routing args.machines) (read-create_linear args.machines small)
        (linear_simulator memory args.tasks args.machines) ran (linear_table-AreShort args.machines)
        few fuel args r enough
