-- ===== src/TopologyRing/Tests.antt =====
-- test/topology_ring/main.cpp with three machines and three tasks, in whole ticks.
use ispd_exa_engine.Base.{err, died, some, ◌≡◌, refl, [], ◌∷◌, arith}
use ispd_exa_engine.UnorderedMap.{find, insert, at}
use ispd_exa_engine.Szudzik.{szudzik}
use ispd_exa_engine.Double.{ticks, Ticks-IsOrdered}
use ispd_exa_engine.Routing.{get_route, index}
use ispd_exa_engine.Simulator.{
  dispatch, on_init, on_scheduler_init, on_arrival, service_on_task_arrival, register_service,
  register_service_finalizer,
}
use ispd_exa_engine.Service.Master
use ispd_exa_engine.Service.Master.{forward_to_origin, schedule_task, add_slave}
use ispd_exa_engine.Service.Machine
use ispd_exa_engine.Service.Machine.{
  time_to_process, attend_loop, time_to_attend, do_machine_packet_forwarding, forward, process,
}
use ispd_exa_engine.Service.Link
use ispd_exa_engine.Service.Link.{other_end}
use ispd_exa_engine.Service.Queueing.{time_to_communicate, departure_time}
use ispd_exa_engine.Scheduler
use ispd_exa_engine.Scheduler.{init_loop, issue_task, schedule, on_completed_task, add_resource}
use ispd_exa_engine.Workload.{set_task_workload}
use ispd_exa_engine.Model.{register_master, register_machine, register_link}
use ispd_exa_engine.Network.{deliver}
use ispd_exa_engine.Network.Loop.{run}
use ispd_exa_engine.Network.Simulate.{boot, simulate}
use ispd_exa_engine.Network.Example.{no_chance}
use ispd_exa_engine.Simulator.SimulatorBuilder.{
  create_simulator, set_threads, set_gvt_period, set_core_binding, set_checkpoint_interval,
}
use ispd_exa_engine.TopologyRing.{
  ring_program, create_ring_topology_routing, ring_simulator, register_ring_pair,
}
use ispd_exa_engine.TestProgram.{
  every_other, slave_loop, with_slaves, register_test_machine, register_test_link, run_main,
  route_loop, link_loop,
}
use ispd_exa_engine.TestProgram.ToString.{to_string}
use ispd_exa_engine.TestProgram.Simulation.{Ends}
use ispd_exa_engine.TestProgram.Example.{arguments, ends_with}
use ispd_exa_engine.Routing.{add_route}
use ispd_exa_engine.Routing.Reader.{
  read, lines, read_lines, read_line, read_route, count_spaces, scan, take_part, store,
}
use ispd_exa_engine.Routing.Stoul.{stoul}
use ispd_exa_engine.TopologyRing.Simulation.{ring_program-Ends}

ring_program-Ends_example :
    Ends no_chance
      (λ i. some 0)
      3
      (create_ring_topology_routing 3)
      (ring_simulator (λ i. some 0) 3 3)
      tt
      (ring_program no_chance (λ i. some 0) (λ ms. 0) 80 (arguments 3) tt)
ring_program-Ends_example =
    ring_program-Ends Ticks-IsOrdered no_chance (λ i. some 0) (λ ms. 0) (arguments 3) (omega arith)
      (omega arith) refl refl (omega arith) 80 tt (omega arith)

-- One machine makes no ring.
no_ring : ring_program no_chance (λ i. some 0) (λ ms. 0) 80 (arguments 1) tt ≡ err died
unfolding ring_program
no_ring = refl

-- From the route file to the end: three tasks are completed.
whole_program :
    ends_with (ring_program no_chance (λ i. some 0) (λ ms. 0) 80 (arguments 3) tt) ≡ 0 ∷ 3 ∷ 0 ∷ []
unfolding create_simulator set_threads set_gvt_period set_core_binding set_checkpoint_interval
    ring_program read read_lines lines create_ring_topology_routing to_string read_line read_route
    count_spaces scan take_part stoul store add_route ring_simulator every_other slave_loop
    with_slaves register_test_machine register_ring_pair register_test_link run_main route_loop
    link_loop register_master register_machine register_link register_service
    register_service_finalizer add_slave add_resource boot simulate on_init insert run deliver
    dispatch on_scheduler_init Master.on_scheduler_init Scheduler.on_init init_loop issue_task
    schedule set_task_workload szudzik get_route at find index on_arrival service_on_task_arrival
    Link.on_task_arrival Machine.on_task_arrival Master.on_task_arrival other_end
    time_to_communicate departure_time time_to_process attend_loop time_to_attend
    do_machine_packet_forwarding forward process on_completed_task forward_to_origin schedule_task
whole_program = refl
