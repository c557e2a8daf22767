-- ===== src/Network/Run.antt =====
-- The loop of the simulation ends with all tasks completed: src/simulator/rootsim.cpp on a network
-- whose routing table agrees with its topology.
use ispd_exa_engine.Base.{
  ℕ, zero, suc, ◌+◌, ◌*◌, ◌≤◌, ◌≡◌, refl, sym, ◌∙◌, subst, List, [], ◌∷◌, ◌++◌, arith, Option,
  Result, ◌>>=◌, length, ◌⊎◌, inl, inr,
}
use ispd_exa_engine.Double.{Double, IsOrdered}
use ispd_exa_engine.Customer.{Message}
use ispd_exa_engine.Routing.{RoutingTable}
use ispd_exa_engine.Simulator.{Simulator}
use ispd_exa_engine.Network.{Network, step, here, deliver}
use ispd_exa_engine.Network.Placement.{Place, master_place}
use ispd_exa_engine.Network.Routes.{AreShort}
use ispd_exa_engine.Network.Cost.{rounds, cost_all-split, Costs, cost_positive}
use ispd_exa_engine.Network.Termination.{
  left_below, AreBelow, Budget, Advances-Budget, start-Budget,
}
use ispd_exa_engine.Network.Completion.{IsBusy, IsDone, Reaches-IsDone}
use ispd_exa_engine.Network.Consistent.{IsConsistent, deliver_cases}
use ispd_exa_engine.Network.Loop.{
  take_out, take_out_whole, List-cases, run, run-picks, Finishes, GetsStuck, Ends, Ends-cons,
}

module _ {D R : Type 0} ⦃d : Double D⦄ (laws : IsOrdered D) (random : R → D × R)
    (table : RoutingTable) (topology : ℕ → Place) (sim : Simulator D) (longest n : ℕ)
    (pick : List (Message D) → ℕ) where
  run-nothing :
      (fuel : ℕ) (net : Network D R)
      → net.pending ≡ []
      → Ends random table sim pick net (run random table sim pick fuel net)
  unfolding run
  run-nothing zero net e =
      inl (record { final = net; returns = rw e refl; reached = here; over = e })
  run-nothing (suc fuel) net e =
      inl (record { final = net; returns = rw e refl; reached = here; over = e })

  -- Something pending is not free.
  not-Budget_zero :
      (net : Network D R) (m : Message D) (ms : List (Message D))
      → net.pending ≡ m ∷ ms
      → ¬ Budget laws random table topology sim longest n net 0
  not-Budget_zero net m ms e (c, costs, within) =
      let ((p, ps), h) = subst (λ ms. Costs laws random table topology sim longest ms c) e costs in
      omega (arith, cost_positive laws random table topology sim longest p, h, within)

  -- One delivery that the loop makes, with the rest of the loop.
  run-deliver :
      AreBelow laws random table topology sim longest n
      → AreShort longest table
      → (fuel : ℕ) (net : Network D R) (before after : List (Message D)) (m : Message D)
      → IsConsistent laws random table topology sim net
      → Budget laws random table topology sim longest n net (suc fuel)
      → net.pending ≡ before ++ m ∷ after
      → ((net' : Network D R)
          → IsConsistent laws random table topology sim net'
          → Budget laws random table topology sim longest n net' fuel
          → Ends random table sim pick net' (run random table sim pick fuel net'))
      → Ends random table sim pick net (
          deliver random table sim net m (before ++ after) >>= λ net'.
          run random table sim pick fuel net')
  run-deliver below short fuel net before after m k (c, costs, within) pending rest =
      let (ps, h) = subst (λ ms. Costs laws random table topology sim longest ms c) pending costs in
      let (p, qs, split) =
        cost_all-split laws random table topology sim longest before after m ps in
      elim (deliver_cases laws random table topology sim net m (before ++ after) k p qs) [
        | inl (fails, new, stuck) ↦ inr (record {
          final = net;
          before = before;
          after = after;
          message = m;
          fails = rw fails refl;
          reached = here;
          is_pending = pending;
          new = new;
          stuck = stuck;
        })
        | inr (net', ran, a) ↦
            let (e, less, (c', costs', within')) =
              Advances-Budget laws random table topology sim longest n below short {e = suc fuel} k
                qs (omega (arith, h, split, within)) a in
            rw ran (
              Ends-cons random table sim pick (step before after m pending ran)
                (rest net' a.consistent (c', costs', omega (arith, less, within'))))
      ]

  -- With fuel for the whole budget the simulation ends.
  run-Ends :
      AreBelow laws random table topology sim longest n
      → AreShort longest table
      → (fuel : ℕ) (net : Network D R) → IsConsistent laws random table topology sim net
      → Budget laws random table topology sim longest n net fuel
      → Ends random table sim pick net (run random table sim pick fuel net)
  run-Ends below short zero net k b = elim (List-cases net.pending) [
    | inl e ↦ run-nothing zero net e
    | inr (m, ms, e) ↦ absurd (not-Budget_zero net m ms e b)
  ]
  run-Ends below short (suc fuel) net k b = elim (List-cases net.pending) [
    | inl e ↦ run-nothing (suc fuel) net e
    | inr (m, ms, e) ↦
        let i = pick (m ∷ ms) in
        subst (Ends random table sim pick net)
          (sym (run-picks random table sim pick fuel net m ms e))
          (run-deliver below short fuel net (take_out i m ms).before (take_out i m ms).after
            (take_out i m ms).chosen k b (e ∙ take_out_whole i m ms)
            (λ net' k' b'. run-Ends below short fuel net' k' b'))
  ]

  -- All masters are done at the end, or a task has met a slave that cannot work.
  abbrev pub Completes : Network D R → Result (Option (Network D R)) → Type 0
  Completes net res =
      ((f : Finishes random table sim pick net res) × ((id : ℕ)
          → topology id ≡ master_place
          → IsDone laws random table topology sim net f.final id))
      ⊎ GetsStuck random table sim pick net res

  -- In a consistent network with identifiers of masters below `n`, routes of at most `longest + 1`
  -- elements, and masters that wait for a message as long as they have tasks left, the loop ends in
  -- whatever order it picks the messages, with fuel for `4 * (longest + 1)` deliveries for each task
  -- that is left and one more than that for each message that is pending: nothing is pending any
  -- more, every master has handed out all its tasks and has counted each as completed, or a task has
  -- come to a slave that cannot work.
  pub run-Completes :
      AreBelow laws random table topology sim longest n
      → AreShort longest table
      → (fuel : ℕ) (net : Network D R) → IsConsistent laws random table topology sim net
      → ((id : ℕ) → topology id ≡ master_place → IsBusy net id)
      → length net.pending * (rounds longest + 1) + left_below n net * rounds longest ≤ fuel
      → Completes net (run random table sim pick fuel net)
  run-Completes below short fuel net k busy enough =
      let (c, costs, within) = start-Budget laws random table topology sim longest n short net k in
      elim (run-Ends below short fuel net k (c, costs, omega (arith, within, enough))) [
        | inl f ↦ inl (
          f,
          λ id place.
              Reaches-IsDone laws random table topology sim net f.final id place k (busy id place)
                f.reached f.over,
        )
        | inr g ↦ inr g
      ]
