-- ===== src/TestProgram/Boss.antt =====
-- The master that the programs of test register, with its slaves `first`, `first + 2`, …
use mathlib.Core.List.{append-nil, append_assoc}
use ispd_exa_engine.Base.{
  ℕ, zero, suc, ◌+◌, ◌*◌, ◌≤◌, ◌<◌, ◌≡◌, ◌≢◌, ◌∙◌, refl, sym, ap, subst, [], ◌∷◌, ◌++◌, none, some,
  ok, arith, length, get_elem?, ==-false,
}
use ispd_exa_engine.Base.Int.{pos}
use ispd_exa_engine.Double.{Double}
use ispd_exa_engine.Workload.{Workload, uniform_random}
use ispd_exa_engine.Routing.{RoutingTable}
use ispd_exa_engine.Scheduler.{add_resource}
use ispd_exa_engine.UnorderedMap.{find}
use ispd_exa_engine.Service.Master.{Master, points_to, new_master, add_slave}
use ispd_exa_engine.Simulator.{Simulator, ServiceInitializer, new_simulator, master}
use ispd_exa_engine.Model.{register_master, round_robin}
use ispd_exa_engine.Network.Placement.{Place, Line}
use ispd_exa_engine.Network.Launch.{IsRunning}
use ispd_exa_engine.Network.Accounts.{left_at, completed_at}
use ispd_exa_engine.TestProgram.{slave_loop, start_of, with_slaves}
use ispd_exa_engine.TestProgram.RouteFile.{ids_from, length-ids_from}
use ispd_exa_engine.TestProgram.Registration.{register_service-Registers}

get_elem?-ids_from :
    (rounds id i slave : ℕ)
    → get_elem? (ids_from rounds id) i ≡ some slave
    → (slave ≡ id + 2 * i) × (i < rounds)
get_elem?-ids_from zero id i slave e = cc
get_elem?-ids_from (suc rounds) id zero slave e = ground arith
get_elem?-ids_from (suc rounds) id (suc i) slave e =
    omega (arith, get_elem?-ids_from rounds (id + 2) i slave e)

module _ {D : Type 0} ⦃d : Double D⦄ where
  slave_loop_resources :
      (rounds id : ℕ) (m : Master D)
      → slave_loop rounds id m ≡ record m {
        scheduler = record m.scheduler { resources = m.scheduler.resources ++ ids_from rounds id };
      }
  unfolding slave_loop add_slave add_resource
  slave_loop_resources zero id m =
      ap (λ xs. record m { scheduler = record m.scheduler { resources = xs } })
        (sym (append-nil m.scheduler.resources))
  slave_loop_resources (suc rounds) id m =
      slave_loop_resources rounds (id + 2) (add_slave m id)
      ∙ ap (λ xs. record m { scheduler = record m.scheduler { resources = xs } })
          (append_assoc m.scheduler.resources (id ∷ []) (ids_from rounds (id + 2)))

module _ {D : Type 0} ⦃d : Double D⦄ (first tasks machines : ℕ) where
  abbrev test_workload : Workload D
  test_workload = uniform_random (pos tasks) (d.of_nat 10) (d.of_nat 15) (d.of_nat 20) (d.of_nat 50)

  abbrev unslaved : Master D
  unslaved = record (new_master 0) { workload = points_to test_workload }

  abbrev pub boss : Master D
  unfolding slave_loop
  boss = slave_loop machines first unslaved

  abbrev pub initial_boss : ServiceInitializer D
  initial_boss = ok (master boss, start_of boss ∷ [])

  pub boss-IsRunning :
      (topology : ℕ → Place) (table : RoutingTable)
      → 1 ≤ machines
      → ((i : ℕ) → i < machines → Line topology table 0 (first + 2 * i))
      → IsRunning topology table boss
  unfolding slave_loop
  boss-IsRunning topology table positive lines =
      subst (IsRunning topology table) (sym (slave_loop_resources machines first unslaved))
        (record {
          work = test_workload;
          tasks = tasks;
          has_work = refl;
          left = refl;
          valid = omega (arith, positive, length-ids_from machines first);
          lines = λ i slave e.
              let (is, lt) = get_elem?-ids_from machines first i slave e in
              subst (Line topology table 0) (sym is) (lines i lt);
        })

module _ (D : Type 0) ⦃d : Double D⦄ (first tasks machines : ℕ) where
  pub boss-id : (boss {D = D} first tasks machines).id ≡ 0
  unfolding slave_loop
  boss-id = ap (λ m. m.id) (slave_loop_resources machines first (unslaved first tasks machines))

  pub boss_left : left_at (master (boss {D = D} first tasks machines)) ≡ tasks
  unfolding slave_loop
  boss_left =
      ap (λ m. left_at (master m))
        (slave_loop_resources machines first (unslaved first tasks machines))

  pub boss_completed : completed_at (master (boss {D = D} first tasks machines)) ≡ 0
  unfolding slave_loop
  boss_completed =
      ap (λ m. m.completed_tasks)
        (slave_loop_resources machines first (unslaved first tasks machines))

  -- The master is registered alone, without a finalizer.
  pub record HasBoss : Type 0 where
    pub sim : Simulator D
    pub ran :
        register_master new_simulator 0 round_robin (with_slaves first tasks machines) ≡ ok sim
    pub alone : (j : ℕ) → 0 ≢ j → find j sim.service_initializers ≡ none
    pub found : find 0 sim.service_initializers ≡ some (initial_boss first tasks machines)
    pub size : length sim.service_initializers ≡ 1
    pub same : sim.service_finalizers ≡ []

  pub has_boss : HasBoss
  unfolding register_master with_slaves find
  has_boss =
      let r = register_service-Registers new_simulator 0 (initial_boss first tasks machines) refl in
      record {
        sim = r.after;
        ran = r.ran;
        alone = λ j ne. r.finds j ∙ rw (==-false 0 j ne) refl;
        found = r.finds 0;
        size = r.size;
        same = r.same;
      }
