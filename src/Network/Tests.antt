-- ===== src/Network/Tests.antt =====
-- The network of Example at work: the first delivery of the simulation, a packet on its way, and the
-- whole run.
use ispd_exa_engine.Base.{◌≤◌, ◌≡◌, refl, [], arith}
use ispd_exa_engine.Double.{ticks, Ticks-IsOrdered}
use ispd_exa_engine.Customer.{new_task}
use ispd_exa_engine.Simulator.{machine, new_simulator}
use ispd_exa_engine.Network.Placement.{to_node, to_link}
use ispd_exa_engine.Network.Journey.{Returns, carry-to_master}
use ispd_exa_engine.Network.Travel.{Travels, packet-Travels}
use ispd_exa_engine.Network.Termination.{steps_bound}
use ispd_exa_engine.Network.Conservation.{accounted, Reaches-accounted}
use ispd_exa_engine.Network.Completion.{IsBusy, Reaches-IsBusy}
use ispd_exa_engine.Base.{◌≤◌, ◌≡◌, refl, [], ◌∷◌, arith, ok}
use ispd_exa_engine.Base.Int.{pos}
use ispd_exa_engine.Szudzik.{szudzik}
use ispd_exa_engine.Double.{Ticks, ticks, Ticks-IsOrdered}
use ispd_exa_engine.Customer.{Message, new_task}
use ispd_exa_engine.Workload.{constant}
use ispd_exa_engine.UnorderedMap.{find, at}
use ispd_exa_engine.Routing.{get_route, index}
use ispd_exa_engine.Service.Master.{Master, points_to, new_master}
use ispd_exa_engine.Service.Link.{new_link}
use ispd_exa_engine.Simulator.{link, machine, master, new_simulator}
use ispd_exa_engine.Network.{Network}
use ispd_exa_engine.Base.{true}
use ispd_exa_engine.Simulator.{dispatch, on_scheduler_init, on_arrival, service_on_task_arrival}
use ispd_exa_engine.Service.Master
use ispd_exa_engine.Service.Master.{forward_to_origin, schedule_task}
use ispd_exa_engine.Service.Link
use ispd_exa_engine.Service.Link.{other_end}
use ispd_exa_engine.Service.Queueing.{time_to_communicate, departure_time}
use ispd_exa_engine.Scheduler
use ispd_exa_engine.Scheduler.{init_loop, issue_task, schedule, on_completed_task}
use ispd_exa_engine.Workload.{set_task_workload}
use ispd_exa_engine.Network.{deliver, update}
use ispd_exa_engine.Customer.{descriptor, send}
use ispd_exa_engine.Base.{List}
use ispd_exa_engine.Network.Completion.{IsBusy}
use ispd_exa_engine.Network.Commute.{AreAlike, deliver-deliver}
use ispd_exa_engine.Network.Example.{
  services, first_master, topology, table, no_chance, slave, start, network, stands, far,
  consistent, started, after_start, short, below, busy,
}

packet-Travels_example :
    Travels Ticks-IsOrdered no_chance table topology far
      (to_node 1)
      7
      (new_task 0 0 10 5)
      tt
      (machine (slave 4))
unfolding far
packet-Travels_example =
    packet-Travels Ticks-IsOrdered no_chance table topology far (to_node 1) 7 (new_task 0 0 10 5) tt
      (machine (slave 4)) (omega arith) (λ e. ground arith) (stands 4)

-- From the master over two links to the machine 4 and back: seven deliveries.
carry-to_master_example :
    Returns Ticks-IsOrdered no_chance table topology new_simulator far 7 network
      (to_link 0)
      0
      (new_task 0 0 10 5)
unfolding far
carry-to_master_example =
    carry-to_master Ticks-IsOrdered no_chance table topology new_simulator far network 0
      (new_task 0 0 10 5) stands (omega arith, (0 ∷ 0 ∷ [], refl, 0, 0, refl, refl))

steps_bound_example : 1 ≤ 33
unfolding started
steps_bound_example =
    steps_bound Ticks-IsOrdered no_chance table topology new_simulator 1 5 below short network
      after_start consistent started

-- One task is left and two are under way.
Reaches-accounted_example : 3 ≡ accounted 0 network
Reaches-accounted_example =
    Reaches-accounted Ticks-IsOrdered no_chance table topology new_simulator network after_start 0
      refl consistent started

Reaches-IsBusy_example : IsBusy after_start 0
Reaches-IsBusy_example =
    Reaches-IsBusy Ticks-IsOrdered no_chance table topology new_simulator 0 refl consistent started
      (busy 0 refl)

-- A packet that is about to arrive at the first link, and the network after its delivery.
abbrev to_first_link : Message Ticks
to_first_link = send 1 0 (new_task 12 0 10 5) (descriptor 0 2 0 1 true)

abbrev to_machine : Message Ticks
to_machine = send 2 6 (new_task 12 0 10 5) (descriptor 0 2 1 1 true)

abbrev after_link : Network Ticks (Unit {0})
after_link = record {
  services = update no_chance table new_simulator services 1 (
      link (record (new_link 1 0 2 1 0 1) {
        metrics = record { comm_mbits = 5; comm_time = 6; comm_tasks = 1 };
        available_time = 6;
        lvt = 6;
      }));
  rng = tt;
  pending = start ∷ to_machine ∷ [];
}

abbrev after_both : Network Ticks (Unit {0})
after_both = record {
  services =
      update no_chance table new_simulator after_link.services 0
        (master (record first_master { workload = points_to (constant (pos 1) 10 5) }));
  rng = tt;
  pending = to_machine ∷ after_start.pending;
}

link_delivery :
    deliver no_chance table new_simulator network to_first_link (start ∷ []) ≡ ok after_link
unfolding deliver dispatch on_arrival service_on_task_arrival Link.on_task_arrival other_end
    time_to_communicate departure_time
link_delivery = refl

master_delivery :
    deliver no_chance table new_simulator after_link start (to_machine ∷ []) ≡ ok after_both
unfolding deliver dispatch on_scheduler_init Master.on_scheduler_init Scheduler.on_init init_loop
    issue_task schedule set_task_workload szudzik get_route at find index
master_delivery = refl

-- The packet and the start of the scheduler, in the other order.
deliver-deliver_example :
    (mid' : Network Ticks (Unit {0})) × (others' : List (Message Ticks)) × (last' : Network Ticks
      (Unit {0}))
    × (deliver no_chance table new_simulator network start (to_first_link ∷ []) ≡ ok mid')
    × (mid'.pending ≡ to_first_link ∷ others')
    × (deliver no_chance table new_simulator mid' to_first_link others' ≡ ok last')
    × AreAlike no_chance table new_simulator last' after_both
deliver-deliver_example =
    deliver-deliver no_chance table new_simulator network to_first_link start [] after_link
      after_both (to_machine ∷ []) (omega arith) ((omega arith), (omega arith)) tt link_delivery
      refl master_delivery
