-- ===== src/TestProgram/Simulation.antt =====
-- A program of test from its route file to the end of its simulation.
use ispd_exa_engine.Base.{
  ℕ, suc, ◌+◌, ◌*◌, ◌≤◌, ◌≡◌, ◌∙◌, ◌⊎◌, refl, ap, List, [], some, ok, err, arith, inl, inr, length,
  u32, Result, Option, Bool-cases, undefined_behaviour, sum_by,
}
use ispd_exa_engine.Double.{Double, IsOrdered}
use ispd_exa_engine.Customer.{Message}
use ispd_exa_engine.Routing.{RoutingTable}
use ispd_exa_engine.Routing.Reader.{read}
use ispd_exa_engine.Service.Machine.{int_max}
use ispd_exa_engine.Simulator.{Simulator}
use ispd_exa_engine.Network.{Network, Reaches}
use ispd_exa_engine.Network.Placement.{Place}
use ispd_exa_engine.Network.InTime.{IsLate}
use ispd_exa_engine.Network.Accounts.{left_at, completed_at, carries}
use ispd_exa_engine.Network.Routes.{AreShort}
use ispd_exa_engine.Network.Cost.{rounds}
use ispd_exa_engine.Network.Termination.{left_below}
use ispd_exa_engine.Network.Finish.{run-FinishesInTime}
use ispd_exa_engine.Network.Simulate.{boot, simulate, finish, finished, finish-succeeds}
use ispd_exa_engine.Simulator.SimulatorBuilder.{
  Configuration, create_simulator, set_threads, set_gvt_period, set_core_binding,
  set_checkpoint_interval,
}
use ispd_exa_engine.TestProgram.{run_main, Arguments, configured}
use ispd_exa_engine.TestProgram.Start.{IsSetUp, StartsWell, setup-StartsWell}
use ispd_exa_engine.TestProgram.Ready.{left_total, setup-AreBelow, setup-CanRun}
use ispd_exa_engine.TestProgram.Memory.{CoresAreFree, CoresAreFree-decided}
use ispd_exa_engine.Network.Loop.{run, Finishes}
use ispd_exa_engine.Network.Run.{run-Completes}
use ispd_exa_engine.Network.Completion.{IsDone}

-- The two modes that `main` chooses from are implemented.
configured_creates :
    (args : Arguments)
    → (configuration : Configuration) × (create_simulator (configured args) ≡ ok configuration)
unfolding create_simulator set_threads set_gvt_period set_core_binding set_checkpoint_interval
configured_creates args = elim (Bool-cases args.serial) [
  | inl serial ↦ rw serial (_, refl)
  | inr parallel ↦ rw parallel (_, refl)
]

module _ {D R : Type 0} ⦃d : Double D⦄ (random : R → D × R) (memory : ℕ → Option D)
    (tasks : ℕ) where
  -- Nothing is pending any more, the master has no task left and has counted all as completed.
  abbrev CompletesAll : Result (Option (Network D R)) → Type 0
  CompletesAll res =
      (final : Network D R) × (res ≡ ok (some final))
      × (final.pending ≡ [])
      × (left_at (final.services 0) ≡ 0)
      × (u32 (completed_at (final.services 0)) ≡ u32 tasks)

  -- After the initialisation an event was pending that is not before the largest finite time.
  abbrev RunsLate : RoutingTable → Simulator D → R → Type 0
  RunsLate table sim r =
      (net : Network D R) × (late : Network D R) × (boot random table sim
          (length sim.service_initializers) r
        ≡ ok net)
      × Reaches random table sim net late
      × IsLate late

  -- All tasks are completed; or the simulation meets undefined behaviour, and then it runs late, or the
  -- block of `rs_malloc` has no free core.
  abbrev pub Completes : RoutingTable → Simulator D → R → Result (Option (Network D R)) → Type 0
  Completes table sim r res =
      CompletesAll res
      ⊎ ((res ≡ err undefined_behaviour) × (RunsLate table sim r ⊎ ¬ CoresAreFree memory))

  -- The route file is read, the services are registered, and the simulation completes.
  pub record Ends (route_file : List ℕ) (registered : Result (Simulator D)) (r : R)
      (res : Result (Option (Network D R))) : Type 0 where
    pub table : RoutingTable
    pub is_read : read (some route_file) ≡ ok table
    pub sim : Simulator D
    pub is_registered : registered ≡ ok sim
    pub completes : Completes table sim r res

module _ {D R : Type 0} ⦃d : Double D⦄ (laws : IsOrdered D) (random : R → D × R)
    (memory : ℕ → Option D) (table : RoutingTable) (topology : ℕ → Place) (sim : Simulator D)
    (first tasks machines others longest : ℕ) (pick : List (Message D) → ℕ)
    (u : IsSetUp memory topology table sim first tasks machines others) where
  -- The whole simulation, if its loop ends with all masters done.
  simulate-CompletesAll :
      (fuel : ℕ) (r : R)
      → (w : StartsWell laws random memory table topology sim first tasks machines others u r)
      → (f : Finishes random table sim pick w.net (run random table sim pick fuel w.net))
      → IsDone laws random table topology sim w.net f.final 0
      → CompletesAll random memory tasks (simulate random table sim pick fuel r)
  unfolding simulate finished
  simulate-CompletesAll fuel r w f (none, all) =
      let silent : sum_by (carries 0) w.net.pending ≡ 0 = ap (sum_by (carries 0)) w.pends in
      let prints : (net : Network D R)
          → finish random table sim (length sim.service_initializers) net ≡ ok tt =
        λ net. finish-succeeds random table sim (length sim.service_initializers) net u.printers in
      (
        f.final,
        rw (w.booted, f.returns, prints f.final) refl,
        f.over,
        none,
        all ∙ ap u32 (omega (arith, w.left, silent, w.none_completed)),
      )

  simulate-Completes :
      AreShort longest table
      → tasks ≤ int_max
      → (fuel : ℕ) (r : R) → rounds longest + 1 + tasks * rounds longest ≤ fuel
      → Completes random memory tasks table sim r (simulate random table sim pick fuel r)
  unfolding simulate finished
  simulate-Completes short few fuel r enough =
      let w =
        setup-StartsWell laws random memory table topology sim first tasks machines others u r in
      let one : length w.net.pending ≡ 1 = ap length w.pends in
      let total =
        left_total laws random memory table topology sim first tasks machines others longest u r
          w in
      let fits : length w.net.pending * (rounds longest + 1)
            + left_below (suc others) w.net * rounds longest
          ≤ fuel =
        rw (one, total) (omega (arith, enough)) in
      elim (CoresAreFree-decided memory) [
        | inl cores ↦
            let can_run =
              setup-CanRun laws random memory table topology sim first tasks machines others longest
                u r w cores few short in
            elim (run-FinishesInTime laws random table topology sim longest (suc others) pick fuel
              w.net can_run fits) [
                | inl (f, done) ↦ inl (simulate-CompletesAll fuel r w f (done 0 u.place))
                | inr (fails, late, reached, is_late) ↦
                    inr (rw (w.booted, fails) refl, inl (w.net, late, w.booted, reached, is_late))
              ]
        | inr not_free ↦
            let below =
              setup-AreBelow laws random memory table topology sim first tasks machines others
                longest u r w in
            elim (run-Completes laws random table topology sim longest (suc others) pick below short
              fuel w.net w.consistent w.busy fits) [
                | inl (f, done) ↦ inl (simulate-CompletesAll fuel r w f (done 0 u.place))
                | inr g ↦ inr (rw (w.booted, g.fails) refl, inr not_free)
              ]
      ]

  -- A program whose route file is read as the table and whose services are set up ends.
  pub run_main-Ends :
      (route_file : List ℕ)
      → read (some route_file) ≡ ok table
      → (res : Result (Simulator D)) → res ≡ ok sim
      → AreShort longest table
      → tasks ≤ int_max
      → (fuel : ℕ) (args : Arguments) (r : R) → rounds longest + 1 + tasks * rounds longest ≤ fuel
      → Ends random memory tasks route_file res r (run_main random pick fuel route_file res args r)
  unfolding run_main
  run_main-Ends route_file is_read res ran short few fuel args r enough =
      let (configuration, created) = configured_creates args in
      record {
        table = table;
        is_read = is_read;
        sim = sim;
        is_registered = ran;
        completes = rw (is_read, created, ran) (simulate-Completes short few fuel r enough);
      }
