-- ===== src/TopologyRing/Simulation.antt =====
-- The program of test/topology_ring/main.cpp from its route file to the end of its simulation.
use ispd_exa_engine.Base.{
  arith, leb, Option, ℕ, ◌+◌, ◌*◌, ◌≤◌, ◌<◌, ◌≡◌, refl, List, false, u32_mod,
}
use ispd_exa_engine.Double.{Double, IsOrdered}
use ispd_exa_engine.Customer.{Message}
use ispd_exa_engine.Model.{is_out_of_unit}
use ispd_exa_engine.Service.Machine.{int_max}
use ispd_exa_engine.Network.Cost.{rounds}
use ispd_exa_engine.TestProgram.{Arguments}
use ispd_exa_engine.TestProgram.Simulation.{Ends, run_main-Ends}
use ispd_exa_engine.TopologyRing.{ring_simulator, ring_program, create_ring_topology_routing}
use ispd_exa_engine.TopologyRing.Places.{ring_place}
use ispd_exa_engine.TopologyRing.RouteFile.{ring_table, ring_table-AreShort, read-create_ring}
use ispd_exa_engine.TopologyRing.SetUp.{ring_simulator-IsSetUp}

module _ {D R : Type 0} ⦃d : Double D⦄ (laws : IsOrdered D) (random : R → D × R)
    (memory : ℕ → Option D) (pick : List (Message D) → ℕ) (args : Arguments) where
  -- The program of the ring topology with at least two machines, whose identifiers fit into 32 bits,
  -- no more tasks than an `int` counts, and `double` values of which `2.0 <= 0.0` and `1.0 < 0.0`
  -- are false: it reads the route file that it has written, registers all services without stopping,
  -- and its simulation ends, in whatever order the messages are delivered, with all tasks completed;
  -- or it meets undefined behaviour, and then an event was pending that is not before the largest
  -- finite time, or the block that `rs_malloc` returns for the two cores of a machine has not a
  -- number for each of them, or none that is before the largest finite time. `4 * (machines + 1)`
  -- deliveries for each task and one more than that for the start are enough.
  pub ring_program-Ends :
      2 ≤ args.machines
      → 2 * args.machines + 2 < u32_mod
      → d.le (d.of_nat 2) d.nought ≡ false
      → d.lt d.one d.nought ≡ false
      → args.tasks ≤ int_max
      → (fuel : ℕ) (r : R) → rounds args.machines + 1 + args.tasks * rounds args.machines ≤ fuel
      → Ends random memory args.tasks
          (create_ring_topology_routing args.machines)
          (ring_simulator memory args.tasks args.machines)
          r
          (ring_program random memory pick fuel args r)
  unfolding ring_program
  ring_program-Ends positive small strong inside few fuel r enough =
      let inside' : is_out_of_unit d.nought ≡ false = rw (laws.lt_irrefl d.nought, inside) refl in
      let several : leb args.machines 1 ≡ false = ground arith in
      let least : 1 ≤ args.machines = omega arith in
      let (sim, ran, u) =
        ring_simulator-IsSetUp memory args.tasks args.machines strong inside' least small in
      rw several (
        run_main-Ends laws random memory (ring_table args.machines) (ring_place args.machines) sim 2
          args.tasks args.machines (2 * args.machines + 1) args.machines pick u
          (create_ring_topology_routing args.machines) (read-create_ring args.machines least small)
          (ring_simulator memory args.tasks args.machines) ran (ring_table-AreShort args.machines)
          few fuel args r enough)
