-- ===== src/TestProgram.antt =====
-- What the programs of test have in common: each writes a route file, reads it, creates the
-- simulator, registers a master 0, machines and links in loops, and simulates.
pub mod ToString
pub mod Registration
pub mod Pairs
pub mod Finalizers
pub mod RouteFile
pub mod Table
pub mod Boss
pub mod Memory
pub mod Start
pub mod Ready
pub mod Simulation
pub mod Example
use ispd_exa_engine.Base.{
  Option, some, Bool, true, false, ℕ, zero, suc, ◌+◌, ◌++◌, List, [], ◌∷◌, none, Result, ok, ◌>>=◌,
}
use ispd_exa_engine.TestProgram.ToString.{to_string}
use ispd_exa_engine.Base.Int.{pos}
use ispd_exa_engine.Double.{Double}
use ispd_exa_engine.Customer.{Message, task_scheduler_init}
use ispd_exa_engine.Workload.{uniform_random}
use ispd_exa_engine.Service.Master.{Master, points_to, add_slave}
use ispd_exa_engine.Simulator.{Simulator, Service}
use ispd_exa_engine.Routing.Reader.{read}
use ispd_exa_engine.Network.{Network}
use ispd_exa_engine.Network.Simulate.{simulate}
use ispd_exa_engine.Simulator.SimulatorBuilder.{
  SimulationMode, sequential, optimistic, rootsim, SimulatorBuilder, new_builder, set_threads,
  set_gvt_period, set_core_binding, set_checkpoint_interval, create_simulator,
}
use ispd_exa_engine.Model.{register_machine, register_link}

-- `for (id = first; …; id += 2)`, with the rounds that are left.
unfoldable pub every_other :
    {D : Type 0}
    → (ℕ → Simulator D → Result (Simulator D))
    → ℕ
    → ℕ
    → Simulator D
    → Result (Simulator D)
every_other body zero id sim = ok sim
every_other body (suc rounds) id sim = body id sim >>= λ sim'. every_other body rounds (id + 2) sim'

-- The loop that writes the links of a route: `route += std::to_string(linkId) + " "`.
unfoldable pub link_loop : ℕ → ℕ → List ℕ
link_loop zero link_id = []
link_loop (suc rounds) link_id = to_string link_id ++ b' ' ∷ link_loop rounds (link_id + 2)

-- The loop that writes the route file: for each machine a line with 0, the machine and the links.
unfoldable pub route_loop : (ℕ → List ℕ) → ℕ → ℕ → List ℕ
route_loop links zero machine_id = []
route_loop links (suc rounds) machine_id =
    b'0'
    ∷ b' '
    ∷ (to_string machine_id
        ++ b' ' ∷ (links machine_id ++ b'\n' ∷ route_loop links rounds (machine_id + 2)))

-- The finalizers of test/include/test.hpp print what the service has measured.
abbrev pub print_metrics : {D : Type 0} → Service D → Result (Unit {0})
print_metrics service = ok tt

module _ {D : Type 0} ⦃d : Double D⦄ where
  unfoldable pub slave_loop : ℕ → ℕ → Master D → Master D
  slave_loop zero id m = m
  slave_loop (suc rounds) id m = slave_loop rounds (id + 2) (add_slave m id)

  -- `schedule_event(m->getId(), 0.0, TASK_SCHEDULER_INIT, nullptr, 0)`
  abbrev pub start_of : Master D → Message D
  start_of m = record {
    receiver = m.id;
    time = d.nought;
    event_type = task_scheduler_init;
    event = none;
  }

  -- The callback of registerMaster; the first slave is 2 or, behind a switch, 4.
  unfoldable pub with_slaves :
      (first tasks machines : ℕ) → Master D → Result (Master D × List (Message D))
  unfolding slave_loop
  with_slaves first tasks machines m =
      let m' = slave_loop machines first (record m {
        workload =
            points_to
              (uniform_random (pos tasks) (d.of_nat 10) (d.of_nat 15) (d.of_nat 20) (d.of_nat 50));
      }) in
      ok (m', start_of m' ∷ [])

  -- `builder.registerMachine(machineId, 2.0, 0.0, 2)`; `memory` is what `rs_malloc` returns.
  unfoldable pub register_test_machine : (ℕ → Option D) → ℕ → Simulator D → Result (Simulator D)
  register_test_machine memory id sim = register_machine memory sim id (d.of_nat 2) d.nought 2

  -- `builder.registerLink(linkId, from, to, 5.0, 0.0, 1.0)`
  unfoldable pub register_test_link : (from to id : ℕ) → Simulator D → Result (Simulator D)
  register_test_link from to id sim = register_link sim id from to (d.of_nat 5) d.nought d.one

-- The values of the command line's arguments.
pub record Arguments : Type 0 where
  pub cores : ℕ
  pub gvt_period : ℕ
  pub ckpt_interval : ℕ
  pub machines : ℕ
  pub tasks : ℕ
  pub serial : Bool
  pub core_binding : Bool

abbrev pub mode_of : Bool → SimulationMode
mode_of true = sequential
mode_of false = optimistic

-- The `SimulatorBuilder` of `main`, up to `createSimulator`.
abbrev pub configured : Arguments → SimulatorBuilder
configured args =
    set_checkpoint_interval
      (set_core_binding
        (set_gvt_period (set_threads (new_builder rootsim (mode_of args.serial)) args.cores)
          args.gvt_period)
        args.core_binding)
      args.ckpt_interval

-- `main` after it has written the route file: it reads it, creates the simulator, registers the
-- services and simulates. `pick` is the order of the deliveries, and `none` means that the fuel has
-- run out.
unfoldable pub run_main :
    {D R : Type 0}
    → ⦃d : Double D⦄ → (random : R → D × R) (pick : List (Message D) → ℕ) → (fuel : ℕ) → List ℕ
    → Result (Simulator D)
    → Arguments
    → R
    → Result (Option (Network D R))
run_main random pick fuel route_file registered args r = read (some route_file) >>= λ table.
    create_simulator (configured args) >>= λ configuration.
    registered >>= λ sim. simulate random table sim pick fuel r
