-- ===== src/Simulator/Registry.antt =====
-- include/simulator/simulator.hpp and src/simulator/rootsim.cpp: services are registered once, and
-- each logical process is initialised by its own initializer.
use ispd_exa_engine.Base.{
  ℕ, if◌then◌else◌, ◌≡◌, refl, none, some, List, arith, ok, err, died, ◌==◌, ==-true, ==-false,
  Option-cases, inl, inr, ◌⊎◌, ◌∙◌,
}
use native.Mathlib.Decide.{ℕ_discrete}
use ispd_exa_engine.Double.{Double}
use ispd_exa_engine.Customer.{Message, lp_init}
use ispd_exa_engine.UnorderedMap.{find, insert, find-insert_self, find-insert_ne, UnorderedMap}
use ispd_exa_engine.Routing.{RoutingTable}
use ispd_exa_engine.Simulator.{
  Simulator, Service, ServiceInitializer, get_id, register_service, on_init, dispatch,
}

pub find-insert {ℓ} :
    {V : Type ℓ} (k j : ℕ) (v : V) (m : UnorderedMap V)
    → find k m ≡ none
    → find j (insert k v m) ≡ (if k == j then some v else find j m)
find-insert k j v m e = elim (ℕ_discrete k j) [
  | yes same ↦ rw (==-true k j same, ← same) (find-insert_self k v m ∙ rw e)
  | no other ↦ rw (==-false k j other) (find-insert_ne k j v m other)
]

module _ {D : Type 0} where
  -- Registering an identifier again stops the program. Otherwise the initializer is registered, and
  -- those of the other identifiers and the finalizers are as before.
  pub register_service_cases :
      (sim : Simulator D) (id : ℕ) (init : ServiceInitializer D)
      → ((register_service sim id init ≡ err died)
          × ((old : ServiceInitializer D) × (find id sim.service_initializers ≡ some old)))
        ⊎ ((sim' : Simulator D) × (register_service sim id init ≡ ok sim')
            × (find id sim.service_initializers ≡ none)
            × ((j : ℕ)
                → find j sim'.service_initializers
                  ≡ (if id == j then some init else find j sim.service_initializers))
            × (sim'.service_finalizers ≡ sim.service_finalizers))
  unfolding register_service
  register_service_cases sim id init = elim (Option-cases (find id sim.service_initializers)) [
    | inr (old, e) ↦ inl (rw (e, register_service), (old, e))
    | inl e ↦ inr (
      record sim { service_initializers = insert id init sim.service_initializers },
      rw (e, register_service),
      e,
      λ j. find-insert id j init sim.service_initializers e,
      refl,
    )
  ]

module _ {D R : Type 0} ⦃d : Double D⦄ (random : R → D × R) (table : RoutingTable) where
  -- `LP_INIT` for an identifier that has just been registered with an initializer that builds a
  -- service sets the state to that service if it carries this identifier, and stops the program if
  -- it carries another.
  pub dispatch-register :
      (sim sim' : Simulator D) (id : ℕ) (s : Service D) (sent : List (Message D)) (now : D) (r : R)
      → register_service sim id (ok (s, sent)) ≡ ok sim'
      → dispatch random table sim' id now lp_init none none r ≡ (
          if get_id s == id then ok (record { state = some s; rng = r; sent = sent }) else err died)
  unfolding dispatch on_init
  dispatch-register sim sim' id s sent now r e =
      elim (register_service_cases sim id (ok (s, sent))) [
        | inl (bad, _) ↦ cc
        | inr (sim2, good, _, found, _) ↦
            let same : sim2 ≡ sim' = ground arith in
            let here : find id sim2.service_initializers ≡ some (ok (s, sent)) =
              rw (found id, ==-true id id refl) in
            let found' : find id sim'.service_initializers ≡ some (ok (s, sent)) =
              rw same at here in
            rw (found', on_init) (ground arith)
      ]
