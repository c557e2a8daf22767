-- ===== src/TopologyTree/Unended.antt =====
-- The simulation of test/topology_tree/main.cpp.
use ispd_exa_engine.Base.{
  Option, ℕ, ◌≡◌, ◌≢◌, ◌∙◌, sym, List, some, ok, arith, >>=-inverts, ok_injective, false,
}
use ispd_exa_engine.Double.{Double}
use ispd_exa_engine.Customer.{Message}
use ispd_exa_engine.Routing.Reader.{read}
use ispd_exa_engine.Model.{is_out_of_unit}
use ispd_exa_engine.Network.{Network}
use ispd_exa_engine.Network.Unended.{simulate_unended}
use ispd_exa_engine.Simulator.SimulatorBuilder.{create_simulator}
use ispd_exa_engine.TestProgram.{run_main, Arguments, configured}
use ispd_exa_engine.TopologyTree.{tree_simulator, tree_program}
use ispd_exa_engine.TopologyTree.SetUp.{tree_simulator-BuildsUnset}

-- Whatever the route file has and in whatever order the messages are delivered, the program of the
-- tree topology does not come to an end: the masters 2 and 4 have no workload.
pub tree_program_unended :
    {D R : Type 0} ⦃d : Double D⦄ (random : R → D × R) (memory : ℕ → Option D)
    (pick : List (Message D) → ℕ) (fuel : ℕ) (route_file : List ℕ) (args : Arguments) (r : R)
    (last : Network D R)
    → d.le (d.of_nat 2) d.nought ≡ false
    → is_out_of_unit d.nought ≡ false
    → tree_program random memory pick fuel route_file args r ≢ ok (some last)
unfolding tree_program run_main
tree_program_unended random memory pick fuel route_file args r last strong inside ends =
    let (sim, registered, builds, size) =
      tree_simulator-BuildsUnset memory args.tasks strong inside in
    let (table, after_read, _) = >>=-inverts (read (some route_file)) _ ends in
    let (configuration, after_create, _) =
      >>=-inverts (create_simulator (configured args)) _ after_read in
    let (sim', simulated, same) = >>=-inverts (tree_simulator memory args.tasks) _ after_create in
    let is_sim : sim' ≡ sim = ok_injective (sym same ∙ registered) in
    simulate_unended random table sim pick 2 builds (omega (arith, size)) fuel r last
      (rw is_sim at simulated)
