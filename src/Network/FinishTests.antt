-- ===== src/Network/FinishTests.antt =====
-- The network of Network/Example until its three tasks are completed.
use ispd_exa_engine.Base.{ℕ, zero, suc, ◌<◌, ◌≡◌, true, refl, [], ◌∷◌, ok, ◌⊎◌, arith}
use ispd_exa_engine.Double.{Ticks, ticks, Ticks-IsOrdered}
use ispd_exa_engine.Customer.{Message, new_task, descriptor, send}
use ispd_exa_engine.Simulator.{new_simulator}
use ispd_exa_engine.Network.{Network, deliver}
use ispd_exa_engine.Network.Placement.{dummy_place}
use ispd_exa_engine.Network.Consistent.{IsConsistent}
use ispd_exa_engine.Network.Load.{all_tasks, Reaches-all_tasks}
use ispd_exa_engine.Network.InTime.{HaveTime, WasLate}
use ispd_exa_engine.Network.Finish.{CanRun, FinishesInTime, run-FinishesInTime, deliver_in_time}
use ispd_exa_engine.Network.Loop.{run}
use ispd_exa_engine.Network.Example.{
  topology, table, no_chance, network, consistent, below, short, busy, after_start, started,
}

beyond : (id : ℕ) → ¬ (id < 5) → topology id ≡ dummy_place
beyond zero out = absurd (omega (arith, out))
beyond (suc zero) out = absurd (omega (arith, out))
beyond (suc (suc zero)) out = absurd (omega (arith, out))
beyond (suc (suc (suc zero))) out = absurd (omega (arith, out))
beyond (suc (suc (suc (suc zero)))) out = absurd (omega (arith, out))
beyond (suc (suc (suc (suc (suc n))))) out = refl

free : HaveTime network
free zero = tt
free (suc zero) = tt
free (suc (suc zero)) = (0 ∷ 0 ∷ [], refl, 0, 0, refl, refl)
free (suc (suc (suc zero))) = tt
free (suc (suc (suc (suc zero)))) = (0 ∷ 0 ∷ [], refl, 0, 0, refl, refl)
free (suc (suc (suc (suc (suc n))))) = tt

can_run : CanRun Ticks-IsOrdered no_chance table topology new_simulator 1 5 network
can_run = record {
  beyond = beyond;
  below = below;
  short = short;
  consistent = consistent;
  busy = busy;
  free = free;
  few = omega arith;
}

run-FinishesInTime_example :
    FinishesInTime Ticks-IsOrdered no_chance table topology new_simulator 1 5
      (λ ms. 0)
      network
      (run no_chance table new_simulator (λ ms. 0) 33 network)
run-FinishesInTime_example =
    run-FinishesInTime Ticks-IsOrdered no_chance table topology new_simulator 1 5 (λ ms. 0) 33
      network can_run (omega arith)

abbrev first : Message Ticks
first = send 1 0 (new_task 12 0 10 5) (descriptor 0 2 0 1 true)

abbrev second : Message Ticks
second = send 1 0 (new_task 6 0 10 5) (descriptor 0 4 0 1 true)

deliver_in_time_example :
    ((net2 : Network Ticks (Unit {0})) × (deliver no_chance table new_simulator after_start second
          (first ∷ [])
        ≡ ok net2)
      × IsConsistent Ticks-IsOrdered no_chance table topology new_simulator net2)
    ⊎ WasLate Ticks-IsOrdered no_chance table topology new_simulator network after_start
deliver_in_time_example =
    deliver_in_time Ticks-IsOrdered no_chance table topology new_simulator 1 5 network after_start
      (first ∷ []) [] second can_run started refl

Reaches-all_tasks_example : all_tasks 5 after_start ≡ all_tasks 5 network
Reaches-all_tasks_example =
    Reaches-all_tasks Ticks-IsOrdered no_chance table topology new_simulator network after_start 5
      beyond consistent started
