-- ===== src/Model/Tests.antt =====
-- src/model/builder.cpp: a switch, a machine and two workloads, in whole ticks.
use mathlib.Core.List.{Perm}
use ispd_exa_engine.Base.{◌≡◌, refl, some, [], ◌∷◌, map, ok}
use ispd_exa_engine.Double.{Ticks, ticks, Ticks-IsOrdered}
use ispd_exa_engine.UnorderedMap.{find, insert}
use ispd_exa_engine.Service.Queueing.{time_to_communicate}
use ispd_exa_engine.Service.Switch.{Switch, new_switch}
use ispd_exa_engine.Simulator.{Simulator, new_simulator, switch, register_service}
use ispd_exa_engine.Model.{register_switch, register_machine, exp_constant_sized_workload}
use ispd_exa_engine.Model.Register.{register_switch_exchanged, Registers, register_machine_cases}
use ispd_exa_engine.Model.Workloads.{IsSorted, IsNumbered, exp_constant_sized_workload_lem}

abbrev fresh : Simulator Ticks
fresh = new_simulator

abbrev with_switch : Simulator Ticks
with_switch = record fresh {
  service_initializers = (2, ok (switch (new_switch 2 100 1 0), [])) ∷ [];
}

-- A bandwidth of 100, a load factor of 1 and a latency of 0: no packet could pass a full switch, but
-- this one takes 6 ticks.
register_switch_exchanged_example :
    (s : Switch Ticks) × (find 2 with_switch.service_initializers ≡ some (ok (switch s, [])))
    × (time_to_communicate s.latency s.load_factor s.bandwidth 500 ≡ 6)
unfolding register_switch register_service find insert
register_switch_exchanged_example = register_switch_exchanged fresh with_switch 2 100 1 0 500 refl

register_machine_cases_example :
    Registers
      (λ i. some 0)
      with_switch
      2
      10
      0
      4
      (register_machine (λ i. some 0) with_switch 2 10 0 4)
register_machine_cases_example = register_machine_cases (λ i. some 0) with_switch 2 10 0 4

exp_constant_sized_workload_lem_example :
    let ms = exp_constant_sized_workload {D = Ticks} 0 10 5 (3 ∷ 1 ∷ 2 ∷ []) in
    Perm (map (λ m. m.time) ms) (3 ∷ 1 ∷ 2 ∷ [])
    × IsSorted (map (λ m. m.time) ms)
    × IsNumbered 0 10 5 0 ms
exp_constant_sized_workload_lem_example =
    exp_constant_sized_workload_lem 0 10 5 Ticks-IsOrdered (3 ∷ 1 ∷ 2 ∷ [])
