-- ===== src/TopologyStar/Simulation.antt =====
-- The program of test/topology_star/main.cpp from its route file to the end of its simulation.
use ispd_exa_engine.Base.{Option, ℕ, ◌+◌, ◌*◌, ◌≤◌, ◌<◌, ◌≡◌, refl, List, false, u32_mod}
use ispd_exa_engine.Double.{Double, IsOrdered}
use ispd_exa_engine.Customer.{Message}
use ispd_exa_engine.Model.{is_out_of_unit}
use ispd_exa_engine.Service.Machine.{int_max}
use ispd_exa_engine.Network.Cost.{rounds}
use ispd_exa_engine.TestProgram.{Arguments}
use ispd_exa_engine.TestProgram.Simulation.{Ends, run_main-Ends}
use ispd_exa_engine.TopologyStar.{star_simulator, star_program, create_star_topology_routing}
use ispd_exa_engine.TopologyStar.Places.{star_place}
use ispd_exa_engine.TopologyStar.SetUp.{
  star_table, star_table-AreShort, read-create_star, star_simulator-IsSetUp,
}

module _ {D R : Type 0} ⦃d : Double D⦄ (laws : IsOrdered D) (random : R → D × R)
    (memory : ℕ → Option D) (pick : List (Message D) → ℕ) (args : Arguments) where
  -- The program of the star topology with at least one machine, whose identifiers fit into 32 bits,
  -- no more tasks than an `int` counts, and `double` values of which `2.0 <= 0.0` and `1.0 < 0.0`
  -- are false: it reads the route file that it has written, registers all services without stopping,
  -- and its simulation ends, in whatever order the messages are delivered, with all tasks completed;
  -- or it meets undefined behaviour, and then an event was pending that is not before the largest
  -- finite time, or the block that `rs_malloc` returns for the two cores of a machine has not a
  -- number for each of them, or none that is before the largest finite time. Eight deliveries for
  -- each task and one more than that for the start are enough.
  pub star_program-Ends :
      1 ≤ args.machines
      → 2 * args.machines + 2 < u32_mod
      → d.le (d.of_nat 2) d.nought ≡ false
      → d.lt d.one d.nought ≡ false
      → args.tasks ≤ int_max
      → (fuel : ℕ) (r : R) → rounds 1 + 1 + args.tasks * rounds 1 ≤ fuel
      → Ends random memory args.tasks
          (create_star_topology_routing args.machines)
          (star_simulator memory args.tasks args.machines)
          r
          (star_program random memory pick fuel args r)
  unfolding star_program
  star_program-Ends positive small strong inside few fuel r enough =
      let inside' : is_out_of_unit d.nought ≡ false = rw (laws.lt_irrefl d.nought, inside) refl in
      let (sim, ran, u) =
        star_simulator-IsSetUp memory args.tasks args.machines strong inside' positive small in
      run_main-Ends laws random memory (star_table args.machines) (star_place args.machines) sim 2
        args.tasks args.machines (2 * args.machines) 1 pick u
        (create_star_topology_routing args.machines) (read-create_star args.machines small)
        (star_simulator memory args.tasks args.machines) ran (star_table-AreShort args.machines) few
        fuel args r enough
