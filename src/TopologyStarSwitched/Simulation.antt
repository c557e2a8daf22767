-- ===== src/TopologyStarSwitched/Simulation.antt =====
-- The program of test/topology_star_switched/main.cpp from its route file to the end of its simulation.
use ispd_exa_engine.Base.{Option, ℕ, ◌+◌, ◌*◌, ◌≤◌, ◌<◌, ◌≡◌, refl, List, false, u32_mod}
use ispd_exa_engine.Double.{Double, IsOrdered}
use ispd_exa_engine.Customer.{Message}
use ispd_exa_engine.Model.{is_out_of_unit}
use ispd_exa_engine.Service.Machine.{int_max}
use ispd_exa_engine.Network.Cost.{rounds}
use ispd_exa_engine.TestProgram.{Arguments}
use ispd_exa_engine.TestProgram.Simulation.{Ends, run_main-Ends}
use ispd_exa_engine.TopologyStarSwitched.{
  star_switched_simulator, star_switched_program, create_star_switched_topology_routing,
}
use ispd_exa_engine.TopologyStarSwitched.Places.{switched_place}
use ispd_exa_engine.TopologyStarSwitched.SetUp.{
  switched_table, switched_table-AreShort, read-create_star_switched,
  star_switched_simulator-IsSetUp,
}

module _ {D R : Type 0} ⦃d : Double D⦄ (laws : IsOrdered D) (random : R → D × R)
    (memory : ℕ → Option D) (pick : List (Message D) → ℕ) (args : Arguments) where
  -- The program of the star topology with a switch with at least one machine, whose identifiers fit
  -- into 32 bits, no more tasks than an `int` counts, and `double` values of which `2.0 <= 0.0` and
  -- `1.0 < 0.0` are false: it reads the route file that it has written, registers all services
  -- without stopping, and its simulation ends, in whatever order the messages are delivered, with
  -- all tasks completed; or it meets undefined behaviour, and then an event was pending that is not
  -- before the largest finite time, or the block that `rs_malloc` returns for the two cores of a
  -- machine has not a number for each of them, or none that is before the largest finite time.
  -- Twelve deliveries for each task and one more than that for the start are enough.
  pub star_switched_program-Ends :
      1 ≤ args.machines
      → 2 * args.machines + 4 < u32_mod
      → d.le (d.of_nat 2) d.nought ≡ false
      → d.lt d.one d.nought ≡ false
      → args.tasks ≤ int_max
      → (fuel : ℕ) (r : R) → rounds 2 + 1 + args.tasks * rounds 2 ≤ fuel
      → Ends random memory args.tasks
          (create_star_switched_topology_routing args.machines)
          (star_switched_simulator memory args.tasks args.machines)
          r
          (star_switched_program random memory pick fuel args r)
  unfolding star_switched_program
  star_switched_program-Ends positive small strong inside few fuel r enough =
      let inside' : is_out_of_unit d.nought ≡ false = rw (laws.lt_irrefl d.nought, inside) refl in
      let (sim, ran, u) =
        star_switched_simulator-IsSetUp memory args.tasks args.machines strong inside' positive
          small in
      run_main-Ends laws random memory (switched_table args.machines) (switched_place args.machines)
        sim 4 args.tasks args.machines (2 * args.machines + 2) 2 pick u
        (create_star_switched_topology_routing args.machines)
        (read-create_star_switched args.machines small)
        (star_switched_simulator memory args.tasks args.machines) ran
        (switched_table-AreShort args.machines) few fuel args r enough
