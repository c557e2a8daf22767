-- ===== src/Service/Tests.antt =====
-- src/service/*.cpp on single services, in whole ticks.
use ispd_exa_engine.Base.{
  none, List, ℕ, zero, suc, ◌≡◌, ◌⊎◌, refl, inr, some, true, false, [], ◌∷◌, arith, get_elem?, ok,
  err, undefined_behaviour, if◌then◌else◌, ◌==◌,
}
use ispd_exa_engine.Base.Int.{pos}
use ispd_exa_engine.Szudzik.{szudzik}
use ispd_exa_engine.Double.{Ticks, ticks, Ticks-IsOrdered, ◌≼◌}
use ispd_exa_engine.UnorderedMap.{find, at}
use ispd_exa_engine.Customer.{Event, Task, new_task, descriptor, send, processed}
use ispd_exa_engine.Routing.{Route, RoutingTable, get_route, index}
use ispd_exa_engine.Workload.{Workload, constant}
use ispd_exa_engine.Scheduler.Queue.{Rotates}
use ispd_exa_engine.Scheduler.Issue.{IsRouted}
use ispd_exa_engine.Simulator.{link, service_on_task_arrival}
use ispd_exa_engine.Simulator.Causality.{service_on_task_arrival-IsFuture}
use ispd_exa_engine.Service.Queueing.{time_to_communicate, departure_time}
use ispd_exa_engine.Service.Link.{Link, new_link, other_end}
use ispd_exa_engine.Service.Link
use ispd_exa_engine.Service.Link.Delivery.{on_task_arrival-Joins}
use ispd_exa_engine.Service.Machine.{Machine, new_machine, process, reply, time_to_process}
use ispd_exa_engine.Service.Machine.Cores.{IsLeast, written}
use ispd_exa_engine.Service.Machine.Process.{IsReady, HasFreeCore, process_lem, process_cases}
use ispd_exa_engine.Service.Master.{
  Master, Handled, new_master, points_to, null, indeterminate, issued, issuing, on_scheduler_init,
}
use ispd_exa_engine.Service.Master
use ispd_exa_engine.Service.Master.Handling.{
  AnswersOwn, on_task_arrival-AnswersOwn, on_task_arrival_schedules,
}

abbrev no_chance : Unit {0} → Ticks × Unit {0}
no_chance u = (0, u)

abbrev table : RoutingTable
table =
    (4, record { length = 1; path = some 1 ∷ [] })
    ∷ (16, record { length = 2; path = some 1 ∷ some 3 ∷ [] })
    ∷ []

abbrev far : Route
far = record { length = 2; path = some 1 ∷ some 3 ∷ [] }

abbrev task : Task Ticks
task = new_task 3 0 10 5

-- A packet from the master 0 to the slave 4, behind the first link.
abbrev packet : Event Ticks
packet = record { task = task; route_descriptor = descriptor 0 4 1 1 true }

abbrev wire : Link Ticks
wire = record (new_link 1 0 2 1 0 2) { available_time = 9 }

abbrev leaving : Event Ticks
leaving = record { task = task; route_descriptor = descriptor 0 4 2 0 false }

on_task_arrival-Joins_example :
    (l' : Link Ticks) × (Link.on_task_arrival wire 4 leaving
      ≡ ok (l', send 0 16 task (descriptor 0 4 1 0 false) ∷ []))
    × (l'.available_time ≡ 16)
    × (l'.id ≡ 1)
    × (l'.from ≡ 0)
    × (l'.to ≡ 2)
    × (l'.metrics.comm_mbits ≡ 5)
    × (l'.metrics.comm_time ≡ 7)
unfolding departure_time time_to_communicate
on_task_arrival-Joins_example =
    on_task_arrival-Joins wire 4 leaving 0 (omega arith) (inr (refl, refl))

abbrev wire_after : Link Ticks
wire_after = record wire {
  metrics = record { comm_mbits = 5; comm_time = 7; comm_tasks = 1 };
  available_time = 16;
  lvt = 16;
}

abbrev worker : Machine Ticks
worker = record (new_machine (λ i. none) 4 2 0 2) { core_free_times = some 9 ∷ some 8 ∷ [] }

process_lem_example :
    (k : ℕ) × (t : Ticks) × (m' : Machine Ticks) × (ts' : List Ticks) × (get_elem? (9 ∷ 8 ∷ []) k
      ≡ some t)
    × IsLeast (9 ∷ 8 ∷ []) t
    × (let departure = departure_time t 7 (time_to_process worker 10) in
        (process worker 7 packet ≡ ok (m', reply worker departure packet ∷ []))
        × (m'.core_free_times ≡ written ts')
        × ((i : ℕ)
            → get_elem? ts' i ≡ (if k == i then some departure else get_elem? (9 ∷ 8 ∷ []) i))
        × (m'.metrics.proc_tasks ≡ 1)
        × (m'.metrics.forwarded_packets ≡ 0))
process_lem_example =
    process_lem Ticks-IsOrdered worker 7 packet (9 ∷ 8 ∷ []) 0 9 (omega arith) refl refl refl

process_cases_example :
    ((process worker 7 packet ≡ err undefined_behaviour) × ¬ IsReady worker)
    ⊎ ((m' : Machine Ticks) × (departure : Ticks) × (process worker 7 packet
          ≡ ok (m', reply worker departure packet ∷ []))
        × (m'.id ≡ 4)
        × (m'.metrics.proc_tasks ≡ 1)
        × (HasFreeCore worker → ticks.lt departure ticks.max_value ≡ true → HasFreeCore m'))
process_cases_example = process_cases Ticks-IsOrdered worker 7 packet

abbrev boss : Master Ticks
boss = record (new_master 0) {
  workload = points_to (constant (pos 3) 10 5);
  scheduler = record { resources = 2 ∷ 4 ∷ []; next_resource = 1 };
}

abbrev work : Workload Ticks
work = constant (pos 3) 10 5

boss-IsRouted : IsRouted table 0 boss.scheduler
unfolding get_route index at find szudzik
boss-IsRouted zero slave e =
    let same : 2 ≡ slave = ground arith in
    rw (← same) (record { length = 1; path = some 1 ∷ [] }, 1, refl, refl)
boss-IsRouted (suc zero) slave e =
    let same : 4 ≡ slave = ground arith in rw (← same) (far, 1, refl, refl)
boss-IsRouted (suc (suc i)) slave e = absurd (ground arith)

abbrev done : Event Ticks
done = record {
  task = record task { completion_state = processed };
  route_descriptor = descriptor 0 4 1 0 false;
}

on_task_arrival-AnswersOwn_example :
    (h : Handled Ticks (Unit {0})) × (Master.on_task_arrival no_chance table boss 20 done tt ≡ ok h)
    × AnswersOwn no_chance table boss 20 work tt 3 h
on_task_arrival-AnswersOwn_example =
    on_task_arrival-AnswersOwn no_chance table boss 20 done tt work 3 refl refl refl refl
      (omega arith) boss-IsRouted

on_task_arrival_schedules_example :
    (slave : ℕ) × (route : Route) × (first : ℕ) × (m' : Master Ticks) × (get_route table 0 slave
      ≡ ok route)
    × (index route 0 ≡ ok first)
    × (Master.on_task_arrival no_chance table boss 7 packet tt
        ≡ ok (record {
          master = m';
          rng = tt;
          sent = send first 7 task (descriptor 0 slave 0 1 true) ∷ [];
        }))
    × Rotates boss.scheduler slave m'.scheduler
    × (m'.id ≡ 0)
    × (m'.workload ≡ boss.workload)
    × (m'.completed_tasks ≡ 0)
on_task_arrival_schedules_example =
    on_task_arrival_schedules no_chance table boss 7 packet tt refl (omega arith) boss-IsRouted

service_on_task_arrival-IsFuture_example : (◌≼◌ {D = Ticks} 4 16) × Unit {0}
unfolding service_on_task_arrival Link.on_task_arrival other_end departure_time time_to_communicate
service_on_task_arrival-IsFuture_example =
    service_on_task_arrival-IsFuture no_chance table Ticks-IsOrdered (link wire) 4 leaving tt
      (record {
        state = some (link wire_after);
        rng = tt;
        sent = send 0 16 task (descriptor 0 4 1 0 false) ∷ [];
      })
      refl refl refl
