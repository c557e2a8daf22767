-- ===== src/TestProgram/Start.antt =====
-- The network of a program of test after the initialisation of its services.
use mathlib.Core.List.{append-nil}
use ispd_exa_engine.Network.Consistent.{IsConsistent}
use ispd_exa_engine.Network.Completion.{IsBusy}
use ispd_exa_engine.Base.{
  ℕ, zero, suc, ◌+◌, ◌*◌, ◌≤◌, ◌<◌, ◌≡◌, ◌≢◌, ◌∙◌, refl, sym, ap, subst, List, [], ◌∷◌, none, ok,
  Option, some, arith, length,
}
use native.Mathlib.Decide.{ℕ_discrete}
use ispd_exa_engine.Double.{Double, IsOrdered}
use ispd_exa_engine.Customer.{Message}
use ispd_exa_engine.Routing.{RoutingTable}
use ispd_exa_engine.UnorderedMap.{find}
use ispd_exa_engine.Service.Master.{Master}
use ispd_exa_engine.Simulator.{Simulator, Service, master}
use ispd_exa_engine.Network.{Network}
use ispd_exa_engine.Network.Placement.{Place, master_place, dummy_place, IsAt, at_master, Line}
use ispd_exa_engine.Network.Work.{HasTime}
use ispd_exa_engine.Network.Launch.{starts}
use ispd_exa_engine.Network.Accounts.{left_at, completed_at}
use ispd_exa_engine.Network.Effect.{Holds-of_place}
use ispd_exa_engine.Network.Load.{load}
use ispd_exa_engine.Network.Simulate.{boot, built, sent_below}
use ispd_exa_engine.Network.Boot.{IsBuilt, boot-IsReady}
use ispd_exa_engine.TestProgram.{start_of}
use ispd_exa_engine.TestProgram.Memory.{CoresAreFree}
use ispd_exa_engine.TestProgram.Boss.{
  boss, boss-IsRunning, boss-id, boss_left, boss_completed, initial_boss,
}
use ispd_exa_engine.TestProgram.Finalizers.{ArePrinters}

-- The initializer of `id` builds a service of its class that has nothing to do, schedules nothing, and
-- if it is a machine has some core that is free in time if the block of `rs_malloc` has.
pub record IsIdle {D : Type 0} ⦃d : Double D⦄ (memory : ℕ → Option D) (topology : ℕ → Place)
    (sim : Simulator D) (id : ℕ) : Type 0 where
  pub service : Service D
  pub registered : find id sim.service_initializers ≡ some (ok (service, []))
  pub stands : IsAt (topology id) id service
  pub idle : load service ≡ 0
  pub free : CoresAreFree memory → HasTime service

-- A program has registered the master 0 and, below `others + 1`, services that are idle; the topology
-- has no other master, lines to all slaves, and nothing from there on.
pub record IsSetUp {D : Type 0} ⦃d : Double D⦄ (memory : ℕ → Option D) (topology : ℕ → Place)
    (table : RoutingTable) (sim : Simulator D) (first tasks machines others : ℕ) : Type 0 where
  pub positive : 1 ≤ machines
  pub size : length sim.service_initializers ≡ suc others
  pub printers : ArePrinters sim
  pub at_boss : find 0 sim.service_initializers ≡ some (initial_boss first tasks machines)
  pub place : topology 0 ≡ master_place
  pub only : (id : ℕ) → topology id ≡ master_place → id ≡ 0
  pub beyond : (id : ℕ) → ¬ (id < suc others) → topology id ≡ dummy_place
  pub lines : (i : ℕ) → i < machines → Line topology table 0 (first + 2 * i)
  pub idle : (id : ℕ) → id ≢ 0 → id < suc others → IsIdle memory topology sim id

module _ {D R : Type 0} ⦃d : Double D⦄ (laws : IsOrdered D) (random : R → D × R)
    (memory : ℕ → Option D) (table : RoutingTable) (topology : ℕ → Place) (sim : Simulator D)
    (first tasks machines others : ℕ)
    (u : IsSetUp memory topology table sim first tasks machines others) where
  abbrev boss_here : Master D
  boss_here = boss first tasks machines

  pub setup-IsBuilt : (id : ℕ) → id < suc others → IsBuilt laws random table topology sim id
  setup-IsBuilt id lt = elim (ℕ_discrete id 0) [
    | yes is_zero ↦ subst (IsBuilt laws random table topology sim) (sym is_zero) (record {
      service = master boss_here;
      sent = start_of boss_here ∷ [];
      registered = u.at_boss;
      stands = at_master boss_here u.place (boss-id D first tasks machines) refl;
      holds = boss-IsRunning first tasks machines topology table u.positive u.lines;
      placed = (
        starts 0 d.nought none u.place (
            ap (λ i. record (start_of boss_here) { receiver = i })
              (boss-id D first tasks machines)),
        tt,
      );
      busy = λ left. rw (boss-id D first tasks machines) (omega arith);
    })
    | no other ↦
        let a = u.idle id other lt in
        record {
          service = a.service;
          sent = [];
          registered = a.registered;
          stands = a.stands;
          holds =
              Holds-of_place laws random table topology sim (topology id) id a.service
                (λ e. other (u.only id e)) a.stands;
          placed = tt;
          busy = λ left. absurd (omega (arith, left, a.idle));
        }
  ]

  built_boss : built sim 0 ≡ (master boss_here, start_of boss_here ∷ [])
  built_boss = rw (built, u.at_boss) refl

  pub built_other :
      (id : ℕ) (other : id ≢ 0) (lt : id < suc others)
      → built sim id ≡ ((u.idle id other lt).service, [])
  built_other id other lt = rw (built, (u.idle id other lt).registered) refl

  abbrev pub starts_alone : List (Message D)
  starts_alone = start_of boss_here ∷ []

  sent_below-alone : (k : ℕ) → k < suc others → sent_below sim (suc k) ≡ starts_alone
  sent_below-alone zero lt = rw built_boss refl
  sent_below-alone (suc k) lt =
      rw (built_other (suc k) (omega arith) lt)
        (append-nil (sent_below sim (suc k)) ∙ sent_below-alone k (omega arith))

  -- The network after the initialisation: one message is pending, and the master has its tasks left.
  pub record StartsWell (r : R) : Type 0 where
    pub net : Network D R
    pub booted : boot random table sim (length sim.service_initializers) r ≡ ok net
    pub consistent : IsConsistent laws random table topology sim net
    pub busy : (id : ℕ) → topology id ≡ master_place → IsBusy net id
    pub serves : (i : ℕ) → i < suc others → net.services i ≡ (built sim i).0
    pub at_first : net.services 0 ≡ master boss_here
    pub pends : net.pending ≡ starts_alone
    pub left : left_at (net.services 0) ≡ tasks
    pub none_completed : completed_at (net.services 0) ≡ 0

  pub setup-StartsWell : (r : R) → StartsWell r
  setup-StartsWell r =
      let ready =
        boot-IsReady laws random table topology sim (suc others) r setup-IsBuilt u.beyond in
      let at_first : ready.net.services 0 ≡ master boss_here =
        ready.serves 0 (omega arith) ∙ ap (λ o. o.0) built_boss in
      record {
        net = ready.net;
        booted = ap (λ n. boot random table sim n r) u.size ∙ ready.ran;
        consistent = ready.consistent;
        busy = ready.busy;
        serves = ready.serves;
        at_first = at_first;
        pends = ready.pends ∙ sent_below-alone others (omega arith);
        left = ap left_at at_first ∙ boss_left D first tasks machines;
        none_completed = ap completed_at at_first ∙ boss_completed D first tasks machines;
      }
