-- ===== src/Network/Deterministic.antt =====
-- The services that draw no random numbers: the handlers of src/service but for the master's, behind
-- the dispatcher of src/simulator/rootsim.cpp.
use ispd_exa_engine.Base.{
  ◌≡◌, ◌≢◌, refl, List, [], Option, none, some, Result, ok, err, ◌>>=◌, undefined_behaviour, died,
  ==-true, ==-false,
}
use native.Mathlib.Decide.{ℕ_discrete}
use ispd_exa_engine.Double.{Double}
use ispd_exa_engine.Customer.{Event, Message, task_arrival, task_scheduler_init, lp_init, lp_fini}
use ispd_exa_engine.Routing.{RoutingTable}
use ispd_exa_engine.Simulator.{
  Simulator, Service, link, switch, machine, master, dummy, Dispatched, dispatch, on_arrival,
  on_scheduler_init, service_on_task_arrival,
}

module _ {D R : Type 0} ⦃d : Double D⦄ (random : R → D × R) (table : RoutingTable)
    (sim : Simulator D) where
  -- No master: the others draw no random numbers.
  abbrev pub IsQuiet : Service D → Type 0
  IsQuiet (master m) = ⊥
  IsQuiet (link l) = Unit
  IsQuiet (switch l) = Unit
  IsQuiet (machine l) = Unit
  IsQuiet (dummy l) = Unit

  -- A handler that leaves the random number generator alone, whatever its state.
  abbrev pub IsDeterministic : (R → Result (Dispatched D R)) → Type 0
  IsDeterministic handler =
      (res : Result (Option (Service D) × List (Message D))) × ((r : R)
        → handler r ≡ (res >>= λ out. ok (record { state = out.0; rng = r; sent = out.1 })))

  fails-IsDeterministic : IsDeterministic (λ r. err undefined_behaviour)
  fails-IsDeterministic = (err undefined_behaviour, λ r. refl)

  returns-IsDeterministic :
      {A : Type 0} (first : Result A) (f : A → Service D × List (Message D))
      → IsDeterministic
          (λ r. first >>= λ a. ok (record { state = some (f a).0; rng = r; sent = (f a).1 }))
  returns-IsDeterministic (err e) f = (err e, λ r. refl)
  returns-IsDeterministic (ok a) f = (ok (some (f a).0, (f a).1), λ r. refl)

  service_on_task_arrival-IsDeterministic :
      (s : Service D) (now : D) (e : Event D)
      → IsQuiet s
      → IsDeterministic (service_on_task_arrival random table s now e)
  unfolding service_on_task_arrival
  service_on_task_arrival-IsDeterministic (master m) now e q = absurd q
  service_on_task_arrival-IsDeterministic (link l) now e q =
      returns-IsDeterministic _ (λ out. (link out.0, out.1))
  service_on_task_arrival-IsDeterministic (switch w) now e q =
      returns-IsDeterministic _ (λ out. (switch out.0, out.1))
  service_on_task_arrival-IsDeterministic (machine m) now e q =
      returns-IsDeterministic _ (λ out. (machine out.0, out.1))
  service_on_task_arrival-IsDeterministic (dummy id) now e q = (ok (some (dummy id), []), λ r. refl)

  on_arrival-IsDeterministic :
      (s : Service D) (now : D) (content : Option (Event D))
      → IsQuiet s
      → IsDeterministic (on_arrival random table (some s) now content)
  unfolding on_arrival
  on_arrival-IsDeterministic s now none q = fails-IsDeterministic
  on_arrival-IsDeterministic s now (some e) q = service_on_task_arrival-IsDeterministic s now e q

  on_scheduler_init-IsDeterministic :
      (s : Service D) → IsQuiet s → IsDeterministic (on_scheduler_init random table (some s))
  unfolding on_scheduler_init
  on_scheduler_init-IsDeterministic (master m) q = absurd q
  on_scheduler_init-IsDeterministic (link l) q = fails-IsDeterministic
  on_scheduler_init-IsDeterministic (switch w) q = fails-IsDeterministic
  on_scheduler_init-IsDeterministic (machine m) q = fails-IsDeterministic
  on_scheduler_init-IsDeterministic (dummy id) q = fails-IsDeterministic

  -- Neither the initialisation of a process nor its end.
  abbrev pub IsSimulation : Message D → Type 0
  IsSimulation m = (m.event_type ≢ lp_fini) × (m.event_type ≢ lp_init)

  pub dispatch-IsDeterministic :
      (m : Message D) (s : Service D)
      → IsSimulation m
      → IsQuiet s
      → IsDeterministic (dispatch random table sim m.receiver m.time m.event_type m.event (some s))
  unfolding dispatch
  dispatch-IsDeterministic m s (no_fini, no_init) q = elim (ℕ_discrete m.event_type task_arrival) [
    | yes arrives ↦
        rw (==-false _ _ no_fini, ==-false _ _ no_init, ==-true _ _ arrives)
          (on_arrival-IsDeterministic s m.time m.event q)
    | no other ↦ elim (ℕ_discrete m.event_type task_scheduler_init) [
      | yes starts ↦
          rw (==-false _ _ no_fini, ==-false _ _ no_init, ==-false _ _ other, ==-true _ _ starts)
            (on_scheduler_init-IsDeterministic s q)
      | no unknown ↦
          rw (==-false _ _ no_fini, ==-false _ _ no_init, ==-false _ _ other, ==-false _ _ unknown)
            (err died, λ r. refl)
    ]
  ]
