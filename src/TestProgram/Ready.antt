-- ===== src/TestProgram/Ready.antt =====
-- The network of a program of test after the initialisation can be run.
use ispd_exa_engine.Base.{
  ℕ, suc, Option, ◌≤◌, ◌≡◌, ◌≢◌, ◌∙◌, refl, sym, ap, subst, arith, sum_by, sum_below_first,
}
use native.Mathlib.Decide.{dec_lt, ℕ_discrete}
use ispd_exa_engine.Double.{Double, IsOrdered}
use ispd_exa_engine.Routing.{RoutingTable}
use ispd_exa_engine.Service.Machine.{int_max}
use ispd_exa_engine.Simulator.{Simulator, Service, dummy}
use ispd_exa_engine.Network.Placement.{
  Place, IsAt, dummy_place, at_link, at_switch, at_machine, at_master, at_dummy,
}
use ispd_exa_engine.Network.Work.{HasTime, to_process, processed_at}
use ispd_exa_engine.Network.Accounts.{left_at}
use ispd_exa_engine.Network.Load.{load, all_tasks}
use ispd_exa_engine.Network.InTime.{HaveTime}
use ispd_exa_engine.Network.Routes.{AreShort}
use ispd_exa_engine.Network.Termination.{left_below, AreBelow}
use ispd_exa_engine.Network.Finish.{CanRun}
use ispd_exa_engine.TestProgram.Memory.{CoresAreFree}
use ispd_exa_engine.TestProgram.Start.{IsSetUp, StartsWell, built_other}

module _ {D R : Type 0} ⦃d : Double D⦄ (laws : IsOrdered D) (random : R → D × R)
    (memory : ℕ → Option D) (table : RoutingTable) (topology : ℕ → Place) (sim : Simulator D)
    (first tasks machines others longest : ℕ)
    (u : IsSetUp memory topology table sim first tasks machines others) (r : R)
    (w : StartsWell laws random memory table topology sim first tasks machines others u r) where
  dummy_there : (p : Place) (id : ℕ) (s : Service D) → p ≡ dummy_place → IsAt p id s → s ≡ dummy id
  dummy_there p id s e (at_link l pe ide se) = absurd (ground arith)
  dummy_there p id s e (at_switch l pe ide se) = absurd (ground arith)
  dummy_there p id s e (at_machine l pe ide se) = absurd (ground arith)
  dummy_there p id s e (at_master l pe ide se) = absurd (ground arith)
  dummy_there p id s e (at_dummy pe se) = se

  -- Every service but the master has nothing to do and, if it is a machine, is free in time.
  all_idle :
      (id : ℕ)
      → id ≢ 0
      → (load (w.net.services id) ≡ 0) × (CoresAreFree memory → HasTime (w.net.services id))
  all_idle id other = elim (dec_lt id (suc others)) [
    | yes lt ↦
        let a = u.idle id other lt in
        let same =
          w.serves id lt
          ∙ ap (λ o. o.0)
              (built_other laws random memory table topology sim first tasks machines others u id
                other lt) in
        subst (λ s. (load s ≡ 0) × (CoresAreFree memory → HasTime s)) (sym same) (a.idle, a.free)
    | no out ↦
        let same =
          dummy_there (topology id) id (w.net.services id) (u.beyond id out)
            (w.consistent.stands id) in
        subst (λ s. (load s ≡ 0) × (CoresAreFree memory → HasTime s)) (sym same) (refl, λ cores. tt)
  ]

  pub left_total : left_below (suc others) w.net ≡ tasks
  left_total =
      sum_below_first others (λ id. left_at (w.net.services id))
        (λ id ne. omega (arith, (all_idle id ne).0))
      ∙ w.left

  tasks_total : all_tasks (suc others) w.net ≡ tasks
  tasks_total =
      let at_first =
        sum_below_first others (λ id. load (w.net.services id)) (λ id ne. (all_idle id ne).0) in
      let none : processed_at (w.net.services 0) ≡ 0 = ap processed_at w.at_first in
      let silent : sum_by to_process w.net.pending ≡ 0 = ap (sum_by to_process) w.pends in
      omega (arith, at_first, none, silent, w.left)

  all_free : CoresAreFree memory → HaveTime w.net
  all_free cores id = elim (ℕ_discrete id 0) [
    | yes e ↦ subst (λ id. HasTime (w.net.services id)) (sym e) (rw w.at_first tt)
    | no ne ↦ (all_idle id ne).1 cores
  ]

  pub setup-AreBelow : AreBelow laws random table topology sim longest (suc others)
  setup-AreBelow id e = omega (arith, u.only id e)

  pub setup-CanRun :
      CoresAreFree memory
      → tasks ≤ int_max
      → AreShort longest table
      → CanRun laws random table topology sim longest (suc others) w.net
  setup-CanRun cores few short = record {
    beyond = u.beyond;
    below = setup-AreBelow;
    short = short;
    consistent = w.consistent;
    busy = w.busy;
    free = all_free cores;
    few = omega (arith, tasks_total, few);
  }
