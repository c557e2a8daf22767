-- ===== src/Network/Simulate.antt =====
-- `ROOTSimSimulator::simulate` of src/simulator/rootsim.cpp: `LP_INIT` of all logical processes, the
-- deliveries, and `LP_FINI`.
use ispd_exa_engine.Base.{
  ℕ, zero, suc, ◌≡◌, refl, List, [], ◌++◌, Option, none, some, Result, ok, ◌>>=◌, length,
  Option-cases, inl, inr,
}
use ispd_exa_engine.Double.{Double}
use ispd_exa_engine.Customer.{Message, lp_init, lp_fini}
use ispd_exa_engine.Routing.{RoutingTable}
use ispd_exa_engine.UnorderedMap.{find}
use ispd_exa_engine.Simulator.{Simulator, Service, dummy, dispatch, on_fini, ServiceFinalizer}
use ispd_exa_engine.Network.{Network, settle}
use ispd_exa_engine.Network.Loop.{run}

module _ {D R : Type 0} ⦃d : Double D⦄ (random : R → D × R) (table : RoutingTable)
    (sim : Simulator D) where
  -- The processes below `n` are initialised, in the order of their identifiers.
  unfoldable pub boot : ℕ → R → Result (Network D R)
  boot zero r = ok (record { services = λ id. dummy id; rng = r; pending = [] })
  boot (suc n) r = boot n r >>= λ net.
      dispatch random table sim n d.nought lp_init none none net.rng >>= λ out.
      settle random table sim net n net.pending out

  -- `LP_FINI` of the processes below `n` in their last states.
  unfoldable pub finish : ℕ → Network D R → Result (Unit {0})
  finish zero net = ok tt
  finish (suc n) net = finish n net >>= λ _.
      dispatch random table sim n d.nought lp_fini none (some (net.services n)) net.rng >>= λ _.
      ok tt

  -- The end of the simulation, if the fuel has not run out before.
  unfoldable pub finished : Option (Network D R) → Result (Option (Network D R))
  unfolding finish
  finished none = ok none
  finished (some net) = finish (length sim.service_initializers) net >>= λ _. ok (some net)

  -- `ROOTSimSimulator::simulate`, with as many processes as there are initializers. `pick` is the
  -- order of the deliveries, and `none` means that the fuel has run out.
  unfoldable pub simulate : (List (Message D) → ℕ) → ℕ → R → Result (Option (Network D R))
  unfolding boot finished
  simulate pick fuel r = boot (length sim.service_initializers) r >>= λ net.
      run random table sim pick fuel net >>= λ last. finished last

  -- Finalizers that succeed do not stop the simulation.
  pub finish-succeeds :
      (n : ℕ) (net : Network D R)
      → ((id : ℕ) (finalizer : ServiceFinalizer D)
          → find id sim.service_finalizers ≡ some finalizer
          → (s : Service D) → finalizer s ≡ ok tt)
      → finish n net ≡ ok tt
  unfolding finish dispatch on_fini
  finish-succeeds zero net all = refl
  finish-succeeds (suc n) net all = elim (Option-cases (find n sim.service_finalizers)) [
    | inl missing ↦ rw (finish-succeeds n net all, on_fini, missing) refl
    | inr (f, found) ↦
        rw (finish-succeeds n net all, on_fini, found, all n f found (net.services n)) refl
  ]

-- What the initializer of `id` builds and schedules.
module _ {D : Type 0} (sim : Simulator D) where
  abbrev pub built : ℕ → Service D × List (Message D)
  built id = elim (find id sim.service_initializers) [ some (ok out) ↦ out | _ ↦ (dummy id, []) ]

  abbrev pub sent_below : ℕ → List (Message D)
  sent_below zero = []
  sent_below (suc n) = sent_below n ++ (built n).1
