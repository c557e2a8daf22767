-- ===== src/Network/Example.antt =====
-- A master 0, links 1 and 3 and machines 2 and 4 in a row, in whole ticks, as
-- test/topology_linear/main.cpp puts them: a consistent network.
use ispd_exa_engine.Base.{
  ℕ, zero, suc, ◌+◌, ◌*◌, ◌≤◌, ◌≡◌, refl, subst, inl, inr, none, some, [], ◌∷◌, arith, get_elem?,
  ok,
}
use ispd_exa_engine.Base.Int.{pos}
use ispd_exa_engine.Szudzik.{szudzik}
use ispd_exa_engine.Double.{Ticks, ticks, Ticks-IsOrdered}
use ispd_exa_engine.Customer.{Message, new_task, task_scheduler_init}
use ispd_exa_engine.Workload.{constant}
use ispd_exa_engine.UnorderedMap.{find, at}
use ispd_exa_engine.Routing.{RoutingTable, get_route, index}
use ispd_exa_engine.Service.Master.{Master, points_to, new_master}
use ispd_exa_engine.Service.Machine.{Machine, new_machine}
use ispd_exa_engine.Service.Link.{new_link}
use ispd_exa_engine.Simulator.{Service, link, machine, master, dummy, new_simulator}
use ispd_exa_engine.Network.{Network, here}
use ispd_exa_engine.Base.{err, length, true}
use ispd_exa_engine.Simulator.{dispatch, on_scheduler_init, on_arrival, service_on_task_arrival}
use ispd_exa_engine.Service.Master
use ispd_exa_engine.Service.Master.{forward_to_origin, schedule_task}
use ispd_exa_engine.Service.Machine
use ispd_exa_engine.Service.Machine.{
  time_to_process, attend_loop, time_to_attend, do_machine_packet_forwarding, forward, process,
}
use ispd_exa_engine.Service.Link
use ispd_exa_engine.Service.Link.{other_end}
use ispd_exa_engine.Service.Queueing.{time_to_communicate, departure_time}
use ispd_exa_engine.Scheduler
use ispd_exa_engine.Scheduler.{init_loop, issue_task, schedule, on_completed_task}
use ispd_exa_engine.Workload.{set_task_workload}
use ispd_exa_engine.Network.{deliver, update, Reaches, step, next}
use ispd_exa_engine.Network.Accounts.{left_at, completed_at}
use ispd_exa_engine.Customer.{descriptor, send}
use ispd_exa_engine.Base.{Result, Option, List}
use ispd_exa_engine.Network.Placement.{
  Place, link_place, machine_place, master_place, dummy_place, IsAt, at_link, at_machine, at_master,
  at_dummy, Line,
}
use ispd_exa_engine.Network.Launch.{IsRunning, starts}
use ispd_exa_engine.Network.Effect.{Holds}
use ispd_exa_engine.Network.Consistent.{IsConsistent}
use ispd_exa_engine.Network.Routes.{AreShort}
use ispd_exa_engine.Network.Termination.{AreBelow}
use ispd_exa_engine.Network.Loop.{run}
use ispd_exa_engine.Network.Completion.{IsBusy}

abbrev pub topology : ℕ → Place
topology zero = master_place
topology (suc zero) = link_place 0 2
topology (suc (suc zero)) = machine_place
topology (suc (suc (suc zero))) = link_place 2 4
topology (suc (suc (suc (suc zero)))) = machine_place
topology (suc (suc (suc (suc (suc n))))) = dummy_place

abbrev pub table : RoutingTable
table =
    (4, record { length = 1; path = some 1 ∷ [] })
    ∷ (16, record { length = 2; path = some 1 ∷ some 3 ∷ [] })
    ∷ []

abbrev pub no_chance : Unit {0} → Ticks × Unit {0}
no_chance u = (0, u)

abbrev pub first_master : Master Ticks
first_master = record (new_master 0) {
  workload = points_to (constant (pos 3) 10 5);
  scheduler = record { resources = 2 ∷ 4 ∷ []; next_resource = 0 };
}

abbrev pub slave : ℕ → Machine Ticks
slave id = new_machine (λ i. some 0) id 2 0 2

abbrev pub services : ℕ → Service Ticks
services zero = master first_master
services (suc zero) = link (new_link 1 0 2 1 0 1)
services (suc (suc zero)) = machine (slave 2)
services (suc (suc (suc zero))) = link (new_link 3 2 4 1 0 1)
services (suc (suc (suc (suc zero)))) = machine (slave 4)
services (suc (suc (suc (suc (suc n))))) = dummy (suc (suc (suc (suc (suc n)))))

abbrev pub start : Message Ticks
start = record { receiver = 0; time = 0; event_type = task_scheduler_init; event = none }

abbrev pub network : Network Ticks (Unit {0})
network = record { services = services; rng = tt; pending = start ∷ [] }

pub stands : (id : ℕ) → IsAt (topology id) id (services id)
stands zero = at_master first_master refl refl refl
stands (suc zero) = at_link _ refl refl refl
stands (suc (suc zero)) = at_machine _ refl refl refl
stands (suc (suc (suc zero))) = at_link _ refl refl refl
stands (suc (suc (suc (suc zero)))) = at_machine _ refl refl refl
stands (suc (suc (suc (suc (suc n))))) = at_dummy refl refl

pub near : Line topology table 0 2
unfolding get_route index at find szudzik
near = record {
  last = 0;
  node = λ i. 2 * i;
  link = λ i. 2 * i + 1;
  route = record { length = 1; path = some 1 ∷ [] };
  small = omega arith;
  starts = refl;
  ends = refl;
  origin = refl;
  sink = refl;
  routed = refl;
  reads = λ i h. let e : i ≡ 0 = omega arith in rw e refl;
  distinct = λ i h. omega arith;
  wired = λ i h. let e : i ≡ 0 = omega arith in rw e (inl refl);
  relays = λ i h. absurd (omega arith);
}

abbrev pub far_link : ℕ → ℕ
far_link i = 2 * i + 1

pub far_reads :
    (i : ℕ) → i ≤ 1 → index (record { length = 2; path = some 1 ∷ some 3 ∷ [] }) i ≡ ok (2 * i + 1)
unfolding index
far_reads zero h = refl
far_reads (suc zero) h = refl
far_reads (suc (suc i)) h = absurd (omega arith)

pub far_wired : (i : ℕ) → i ≤ 1 → topology (2 * i + 1) ≡ link_place (2 * i) (2 * suc i)
far_wired zero h = refl
far_wired (suc zero) h = refl
far_wired (suc (suc i)) h = absurd (omega arith)

unfoldable pub far : Line topology table 0 4
unfolding get_route at find szudzik
far = record {
  last = 1;
  node = λ i. 2 * i;
  link = λ i. 2 * i + 1;
  route = record { length = 2; path = some 1 ∷ some 3 ∷ [] };
  small = omega arith;
  starts = refl;
  ends = refl;
  origin = refl;
  sink = refl;
  routed = refl;
  reads = far_reads;
  distinct = λ i h. omega arith;
  wired = λ i h. inl (far_wired i h);
  relays = λ i h. let e : i ≡ 0 = omega arith in rw e (inr (refl, omega arith));
}

pub running : IsRunning topology table first_master
running = record {
  work = constant (pos 3) 10 5;
  tasks = 3;
  has_work = refl;
  left = refl;
  valid = omega arith;
  lines = lines_to;
}
  where
    lines_to : (i slave : ℕ) → get_elem? (2 ∷ 4 ∷ []) i ≡ some slave → Line topology table 0 slave
    lines_to zero s e = subst (Line topology table 0) (ground arith) near
    lines_to (suc zero) s e = subst (Line topology table 0) (ground arith) far
    lines_to (suc (suc i)) s e = absurd (ground arith)

pub consistent : IsConsistent Ticks-IsOrdered no_chance table topology new_simulator network
consistent = record { stands = stands; holds = holds_all; placed = (starts 0 0 none refl refl, tt) }
  where
    holds_all :
        (id : ℕ) → Holds Ticks-IsOrdered no_chance table topology new_simulator (services id)
    holds_all zero = running
    holds_all (suc zero) = tt
    holds_all (suc (suc zero)) = tt
    holds_all (suc (suc (suc zero))) = tt
    holds_all (suc (suc (suc (suc zero)))) = tt
    holds_all (suc (suc (suc (suc (suc n))))) = tt

pub short : AreShort 1 table
short = (omega arith, (omega arith, tt))

pub below : AreBelow Ticks-IsOrdered no_chance table topology new_simulator 1 5
below zero e = omega arith
below (suc zero) e = omega arith
below (suc (suc zero)) e = omega arith
below (suc (suc (suc zero))) e = omega arith
below (suc (suc (suc (suc zero)))) e = omega arith
below (suc (suc (suc (suc (suc i))))) e = absurd (ground arith)

-- The start of the scheduler is pending.
pub busy : (id : ℕ) → topology id ≡ master_place → IsBusy network id
busy zero e = λ left. omega arith
busy (suc zero) e = absurd (ground arith)
busy (suc (suc zero)) e = absurd (ground arith)
busy (suc (suc (suc zero))) e = absurd (ground arith)
busy (suc (suc (suc (suc zero)))) e = absurd (ground arith)
busy (suc (suc (suc (suc (suc i))))) e = absurd (ground arith)

-- The network after the start of the scheduler: two tasks are on their way.
abbrev pub after_start : Network Ticks (Unit {0})
after_start = record {
  services =
      update no_chance table new_simulator services 0
        (master (record first_master { workload = points_to (constant (pos 1) 10 5) }));
  rng = tt;
  pending =
      send 1 0 (new_task 12 0 10 5) (descriptor 0 2 0 1 true)
      ∷ send 1 0 (new_task 6 0 10 5) (descriptor 0 4 0 1 true)
      ∷ [];
}

pub first_delivery : deliver no_chance table new_simulator network start [] ≡ ok after_start
unfolding deliver dispatch on_scheduler_init Master.on_scheduler_init Scheduler.on_init init_loop
    issue_task schedule set_task_workload szudzik get_route at find index
first_delivery = refl

unfoldable pub started : Reaches no_chance table new_simulator network after_start
started = next here (step [] [] start refl first_delivery)

abbrev ends_with : Result (Option (Network Ticks (Unit {0}))) → List ℕ
ends_with (ok (some net)) =
    left_at (net.services 0) ∷ completed_at (net.services 0) ∷ length net.pending ∷ []
ends_with (ok none) = []
ends_with (err e) = []

-- The whole simulation: the master has no task left and has counted three.
whole_run : ends_with (run no_chance table new_simulator (λ ms. 1) 33 network) ≡ 0 ∷ 3 ∷ 0 ∷ []
unfolding run deliver dispatch on_scheduler_init Master.on_scheduler_init Scheduler.on_init
    init_loop issue_task schedule set_task_workload szudzik get_route at find index on_arrival
    service_on_task_arrival Link.on_task_arrival Machine.on_task_arrival Master.on_task_arrival
    other_end time_to_communicate departure_time time_to_process attend_loop time_to_attend
    do_machine_packet_forwarding forward process on_completed_task forward_to_origin schedule_task
whole_run = refl
