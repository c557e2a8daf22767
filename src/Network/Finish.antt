-- ===== src/Network/Finish.antt =====
-- A simulation that stays within finite times completes: src/simulator/rootsim.cpp on a network whose
-- routing table agrees with its topology.
use ispd_exa_engine.Base.{
  ℕ, ◌+◌, ◌*◌, ◌<◌, ◌≤◌, ◌≡◌, List, ◌∷◌, ◌++◌, Option, Result, length, ok, err, undefined_behaviour,
  ◌⊎◌, inl, inr, All, subst,
}
use ispd_exa_engine.Double.{Double, IsOrdered}
use ispd_exa_engine.Customer.{Message}
use ispd_exa_engine.Routing.{RoutingTable}
use ispd_exa_engine.Service.Machine.{int_max}
use ispd_exa_engine.Simulator.{Simulator}
use ispd_exa_engine.Network.{Network, Reaches, deliver}
use ispd_exa_engine.Network.Placement.{Place, master_place, dummy_place}
use ispd_exa_engine.Network.Launch.{IsPlaced}
use ispd_exa_engine.Network.Routes.{AreShort}
use ispd_exa_engine.Network.Cost.{rounds}
use ispd_exa_engine.Network.Termination.{left_below, AreBelow}
use ispd_exa_engine.Network.Completion.{IsBusy, IsDone}
use ispd_exa_engine.Network.Consistent.{
  IsConsistent, All-split, deliver_cases, Reaches-IsConsistent,
}
use ispd_exa_engine.Network.Load.{all_tasks}
use ispd_exa_engine.Network.InTime.{HaveTime, IsLate, WasLate, Reaches-CanWork}
use ispd_exa_engine.Network.Loop.{run, Finishes}
use ispd_exa_engine.Network.Run.{run-Completes}

module _ {D R : Type 0} ⦃d : Double D⦄ (laws : IsOrdered D) (random : R → D × R)
    (table : RoutingTable) (topology : ℕ → Place) (sim : Simulator D) (longest n : ℕ) where
  -- A network that can be run: the topology has nothing at the identifiers from `n`, the table has no
  -- route of more than `longest + 1` elements, every machine has free times that have all been
  -- written and one of them before the largest finite time, and there are no more tasks than an `int` counts.
  pub record CanRun (net : Network D R) : Type 0 where
    pub beyond : (id : ℕ) → ¬ (id < n) → topology id ≡ dummy_place
    pub below : AreBelow laws random table topology sim longest n
    pub short : AreShort longest table
    pub consistent : IsConsistent laws random table topology sim net
    pub busy : (id : ℕ) → topology id ≡ master_place → IsBusy net id
    pub free : HaveTime net
    pub few : all_tasks n net ≤ int_max

  -- In a network that can be run, after any deliveries in any order, every pending message can be
  -- delivered, or a network on the way had a pending event that is not before the largest finite time.
  pub deliver_in_time :
      (net net' : Network D R) (before after : List (Message D)) (m : Message D)
      → CanRun net
      → Reaches random table sim net net'
      → net'.pending ≡ before ++ m ∷ after
      → ((net2 : Network D R) × (deliver random table sim net' m (before ++ after) ≡ ok net2)
          × IsConsistent laws random table topology sim net2)
        ⊎ WasLate laws random table topology sim net net'
  deliver_in_time net net' before after m c r pending =
      let c' = Reaches-IsConsistent laws random table topology sim c.consistent r in
      let (p, ps) =
        All-split laws random table topology sim before after m
          (subst (All (IsPlaced topology table)) pending c'.placed) in
      elim (deliver_cases laws random table topology sim net' m (before ++ after) c' p ps) [
        | inl (_, new, stuck) ↦
            elim (Reaches-CanWork laws random table topology sim n net net' before after m c.beyond
              c.consistent c.free c.few r pending new) [
                | inl ready ↦ absurd (stuck ready)
                | inr late ↦ inr late
              ]
        | inr (net2, ran, a) ↦ inl (net2, ran, a.consistent)
      ]

module _ {D R : Type 0} ⦃d : Double D⦄ (laws : IsOrdered D) (random : R → D × R)
    (table : RoutingTable) (topology : ℕ → Place) (sim : Simulator D) (longest n : ℕ)
    (pick : List (Message D) → ℕ) where
  -- Nothing is pending any more and all masters are done; or the simulation meets undefined behaviour
  -- after an event was pending that is not before the largest finite time.
  abbrev pub FinishesInTime : Network D R → Result (Option (Network D R)) → Type 0
  FinishesInTime net res =
      ((f : Finishes random table sim pick net res) × ((id : ℕ)
          → topology id ≡ master_place
          → IsDone laws random table topology sim net f.final id))
      ⊎ ((res ≡ err undefined_behaviour)
          × (late : Network D R) × Reaches random table sim net late
          × IsLate late)

  -- In a network that can be run the loop ends with fuel for `4 * (longest + 1)` deliveries for each
  -- task that is left and one more than that for each pending message: nothing is pending any more,
  -- every master has handed out all its tasks and has counted each as completed; or the simulation meets
  -- undefined behaviour after an event was pending that is not before the largest finite time.
  pub run-FinishesInTime :
      (fuel : ℕ) (net : Network D R)
      → CanRun laws random table topology sim longest n net
      → length net.pending * (rounds longest + 1) + left_below n net * rounds longest ≤ fuel
      → FinishesInTime net (run random table sim pick fuel net)
  run-FinishesInTime fuel net c enough =
      elim (run-Completes laws random table topology sim longest n pick c.below c.short fuel net
        c.consistent c.busy enough) [
          | inl done ↦ inl done
          | inr g ↦
              elim (Reaches-CanWork laws random table topology sim n net g.final g.before g.after
                g.message c.beyond c.consistent c.free c.few g.reached g.is_pending g.new) [
                  | inl ready ↦ absurd (g.stuck ready)
                  | inr w ↦ inr (g.fails, w.between, w.reached, w.is_late)
                ]
        ]
