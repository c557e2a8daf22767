-- ===== src/TopologyTree/Tests.antt =====
-- test/topology_tree/main.cpp in whole ticks.
use ispd_exa_engine.Base.{
  ◌≡◌, ◌≢◌, refl, List, ℕ, [], ◌∷◌, ◌++◌, true, arith, length, ◌==◌, if◌then◌else◌, none, some, ok,
  err, undefined_behaviour,
}
use ispd_exa_engine.UnorderedMap.{find, insert, at}
use ispd_exa_engine.Szudzik.{szudzik}
use ispd_exa_engine.Double.{Ticks, ticks}
use ispd_exa_engine.Routing.{get_route, index, add_route}
use ispd_exa_engine.Routing.Reader.{
  read, lines, read_lines, read_line, read_route, count_spaces, scan, take_part, store,
}
use ispd_exa_engine.Routing.Stoul.{stoul}
use ispd_exa_engine.Workload.{set_task_workload}
use ispd_exa_engine.Scheduler
use ispd_exa_engine.Scheduler.{init_loop, issue_task, schedule, add_resource}
use ispd_exa_engine.Service.Master
use ispd_exa_engine.Service.Master.{new_master, add_slave}
use ispd_exa_engine.Simulator.{
  Simulator, Service, link, master, on_arrival, service_on_task_arrival, dummy, dispatch, on_init,
  on_scheduler_init, register_service, register_service_finalizer,
}
use ispd_exa_engine.Simulator.SimulatorBuilder.{
  create_simulator, set_threads, set_gvt_period, set_core_binding, set_checkpoint_interval,
}
use ispd_exa_engine.Model.{register_master, register_machine, register_link}
use ispd_exa_engine.Network.{Network, deliver, step, here, next}
use ispd_exa_engine.Network.Loop.{run}
use ispd_exa_engine.Network.Simulate.{boot, simulate}
use ispd_exa_engine.Network.Example.{no_chance}
use ispd_exa_engine.TestProgram.{register_test_machine, register_test_link, run_main}
use ispd_exa_engine.TestProgram.Example.{arguments}
use ispd_exa_engine.TopologyTree.{
  tree_program, tree_simulator, tree_masters, tree_machines, tree_links, with_masters,
  with_machines,
}
use ispd_exa_engine.TopologyTree.SetUp.{tree_simulator-BuildsUnset}
use ispd_exa_engine.Network.Unset.{BuildsUnset}
use ispd_exa_engine.Network.Unended.{Reaches-undefined}
use ispd_exa_engine.Customer.{Message, send, new_task, descriptor, task_scheduler_init}
use ispd_exa_engine.Service.Link
use ispd_exa_engine.Service.Link.{new_link, other_end}
use ispd_exa_engine.Service.Queueing.{time_to_communicate, departure_time}
use ispd_exa_engine.TopologyTree.Unended.{tree_program_unended}

-- The line "0 2 1" and so on.
abbrev one_link : (from to links : List ℕ) → List ℕ
one_link from to links = from ++ b' ' ∷ (to ++ b' ' ∷ (links ++ b'\n' ∷ []))

-- test/topology_tree/routes.route
abbrev tree_routes : List ℕ
tree_routes =
    one_link (b'0' ∷ []) (b'2' ∷ []) (b'1' ∷ [])
    ++ one_link (b'0' ∷ []) (b'4' ∷ []) (b'3' ∷ [])
    ++ one_link (b'2' ∷ []) (b'6' ∷ []) (b'5' ∷ [])
    ++ one_link (b'2' ∷ []) (b'8' ∷ []) (b'7' ∷ [])
    ++ one_link (b'2' ∷ []) (b'1' ∷ b'0' ∷ []) (b'9' ∷ [])
    ++ one_link (b'4' ∷ []) (b'1' ∷ b'2' ∷ []) (b'1' ∷ b'1' ∷ [])
    ++ one_link (b'4' ∷ []) (b'1' ∷ b'4' ∷ []) (b'1' ∷ b'3' ∷ [])
    ++ one_link (b'4' ∷ []) (b'1' ∷ b'6' ∷ []) (b'1' ∷ b'3' ∷ b' ' ∷ b'1' ∷ b'5' ∷ [])

tree_program_unended_example :
    tree_program no_chance (λ i. some 0) (λ ms. 0) 50 tree_routes (arguments 10) tt
    ≢ ok (some (record { services = λ id. dummy id; rng = tt; pending = [] }))
tree_program_unended_example =
    tree_program_unended no_chance (λ i. some 0) (λ ms. 0) 50 tree_routes (arguments 10) tt
      (record { services = λ id. dummy id; rng = tt; pending = [] }) refl refl

-- The file is read, the services are registered, and the third delivery is undefined behaviour.
whole_program :
    tree_program no_chance (λ i. some 0) (λ ms. 0) 50 tree_routes (arguments 10) tt
    ≡ err undefined_behaviour
unfolding create_simulator set_threads set_gvt_period set_core_binding set_checkpoint_interval
    tree_program read read_lines lines read_line read_route count_spaces scan take_part stoul store
    add_route tree_simulator tree_masters tree_machines tree_links with_masters with_machines
    register_test_machine register_test_link run_main register_master register_machine register_link
    register_service register_service_finalizer add_slave add_resource boot simulate on_init insert
    run deliver dispatch on_scheduler_init Master.on_scheduler_init Scheduler.on_init init_loop
    issue_task schedule set_task_workload szudzik get_route at find index
whole_program = refl

-- The tree in ticks, all of whose services but the link 1 stand as the master 2.
abbrev set_up :
    (sim : Simulator Ticks) × (tree_simulator (λ i. some 0) 3 ≡ ok sim)
    × BuildsUnset sim 2
    × (length sim.service_initializers ≡ 17)
set_up = tree_simulator-BuildsUnset (λ i. some 0) 3 refl refl

abbrev inner : Service Ticks
inner = master (record (new_master 2) {
  scheduler = record { resources = 6 ∷ 8 ∷ 10 ∷ []; next_resource = 0 };
})

abbrev packet : Message Ticks
packet = send 1 0 (new_task 0 0 10 5) (descriptor 0 2 0 1 true)

abbrev start : Message Ticks
start = record { receiver = 2; time = 0; event_type = task_scheduler_init; event = none }

abbrev before_link : Network Ticks Unit
before_link = record {
  services = λ id. if id == 1 then link (new_link 1 0 2 5 0 1) else inner;
  rng = tt;
  pending = packet ∷ start ∷ [];
}

abbrev behind_link : Network Ticks Unit
unfolding deliver dispatch on_arrival service_on_task_arrival Link.on_task_arrival other_end
    time_to_communicate departure_time
behind_link = elim (deliver no_chance [] set_up.0 before_link packet (start ∷ [])) [
  | ok net ↦ net
  | err e ↦ before_link
]

Reaches-undefined_example :
    (before : List (Message Ticks)) × (m : Message Ticks) × (after : List (Message Ticks))
    × (behind_link.pending ≡ before ++ m ∷ after)
    × (deliver no_chance [] set_up.0 behind_link m (before ++ after) ≡ err undefined_behaviour)
unfolding deliver dispatch on_arrival service_on_task_arrival Link.on_task_arrival other_end
    time_to_communicate departure_time
Reaches-undefined_example =
    Reaches-undefined no_chance [] set_up.0 2 set_up.2 before_link behind_link
      (record { lacks = (_, refl, refl); awaited = omega arith })
      (next here (step [] (start ∷ []) packet refl refl))
