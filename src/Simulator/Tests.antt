-- ===== src/Simulator/Tests.antt =====
-- include/simulator/simulator.hpp on a simulator in which the dummy 7 is registered.
use ispd_exa_engine.Base.{
  ℕ, if◌then◌else◌, ◌==◌, ◌≡◌, ◌⊎◌, refl, some, none, [], ◌∷◌, ok, err, died,
}
use ispd_exa_engine.Double.{Ticks, ticks}
use ispd_exa_engine.Customer.{lp_init}
use ispd_exa_engine.UnorderedMap.{find, insert}
use ispd_exa_engine.Simulator.{
  Simulator, ServiceInitializer, dummy, new_simulator, register_service, dispatch,
}
use ispd_exa_engine.Simulator.Registry.{register_service_cases, dispatch-register}

abbrev no_chance : Unit {0} → Ticks × Unit {0}
no_chance u = (0, u)

abbrev fresh : Simulator Ticks
fresh = new_simulator

abbrev filled : Simulator Ticks
filled = record fresh { service_initializers = (7, ok (dummy 7, [])) ∷ [] }

register_service_cases_example :
    ((register_service filled 7 (ok (dummy 7, [])) ≡ err died)
      × ((old : ServiceInitializer Ticks) × (find 7 filled.service_initializers ≡ some old)))
    ⊎ ((sim' : Simulator Ticks) × (register_service filled 7 (ok (dummy 7, [])) ≡ ok sim')
        × (find 7 filled.service_initializers ≡ none)
        × ((j : ℕ)
            → find j sim'.service_initializers
              ≡ (if 7 == j then some (ok (dummy 7, [])) else find j filled.service_initializers))
        × (sim'.service_finalizers ≡ []))
register_service_cases_example = register_service_cases filled 7 (ok (dummy 7, []))

-- A service that carries another identifier than it was registered under.
dispatch-register_example :
    dispatch no_chance []
      (record fresh { service_initializers = (7, ok (dummy 8, [])) ∷ [] })
      7
      0
      lp_init
      none
      none
      tt
    ≡ err died
unfolding register_service find insert
dispatch-register_example =
    dispatch-register no_chance [] fresh
      (record fresh { service_initializers = (7, ok (dummy 8, [])) ∷ [] }) 7 (dummy 8) [] 0 tt refl
