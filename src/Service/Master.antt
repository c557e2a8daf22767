-- ===== src/Service/Master.antt =====
-- include/service/master.hpp and src/service/master.cpp.
pub mod Handling
pub mod Timing
pub mod Unset
use ispd_exa_engine.Base.{
  ℕ, ◌+◌, ◌%◌, Bool, true, false, List, [], ◌∷◌, if◌then◌else◌, ◌==◌, Option, none, some, Result,
  ok, err, ◌>>=◌, undefined_behaviour, u32, u64, u64_sub,
}
use ispd_exa_engine.Double.{Double}
use ispd_exa_engine.Customer.{
  Event, Message, RouteDescriptor, descriptor, send, TaskCompletionState, just_generated, processed,
}
use ispd_exa_engine.Routing.{RoutingTable, get_route, index}
use ispd_exa_engine.Workload.{Workload}
use ispd_exa_engine.Scheduler.{
  RoundRobin, Issuing, add_resource, schedule, on_init, on_completed_task, new_round_robin,
}

-- `m_Workload`: the constructor leaves it indeterminate, and the model's builder may set it.
pub data WorkloadPointer (D : Type 0) : Type 0 where
  indeterminate null : WorkloadPointer D
  points_to : Workload D → WorkloadPointer D

pub record Master (D : Type 0) : Type 0 where
  pub id : ℕ
  pub workload : WorkloadPointer D
  pub scheduler : RoundRobin
  pub last_activity_time : D
  pub completed_tasks : ℕ

-- What a handler of a master leaves behind.
pub record Handled (D R : Type 0) : Type 0 where
  pub master : Master D
  pub rng : R
  pub sent : List (Message D)

module _ {D : Type 0} ⦃d : Double D⦄ where
  abbrev pub new_master : ℕ → Master D
  new_master id = record {
    id = id;
    workload = indeterminate;
    scheduler = new_round_robin;
    last_activity_time = d.nought;
    completed_tasks = 0;
  }

  unfoldable pub add_slave : Master D → ℕ → Master D
  unfolding add_resource
  add_slave m slave_id = record m { scheduler = add_resource m.scheduler slave_id }

  -- A processed task of another master goes on to that master.
  unfoldable pub forward_to_origin : RoutingTable → Master D → D → Event D → Result (Message D)
  forward_to_origin table m time e =
      let r = e.route_descriptor in
      let new_offset = if r.forwarding_direction then u64 (r.offset + 1) else u64_sub r.offset 1 in
      get_route table e.task.origin m.id >>= λ route. index route r.offset >>= λ next.
      ok (send next time e.task (descriptor e.task.origin m.id m.id new_offset false))

  -- A task to be processed goes to the next slave.
  unfoldable pub schedule_task :
      RoutingTable → Master D → D → Event D → Result (Master D × Message D)
  schedule_task table m time e = schedule m.scheduler >>= λ pick.
      get_route table m.id pick.0 >>= λ route. index route 0 >>= λ next. ok (
        record m { scheduler = pick.1; last_activity_time = time },
        send next time e.task (descriptor m.id pick.0 m.id 1 true),
      )

module _ {D R : Type 0} ⦃d : Double D⦄ (random : R → D × R) (table : RoutingTable) where
  abbrev pub issuing : Master D → Workload D → R → Issuing D R
  issuing m w r = record { workload = w; round_robin = m.scheduler; rng = r; sent = [] }

  abbrev pub issued : Master D → Issuing D R → Handled D R
  issued m s = record {
    master = record m { workload = points_to s.workload; scheduler = s.round_robin };
    rng = s.rng;
    sent = s.sent;
  }

  -- `RoundRobin::onInit` tests the pointer first.
  with_workload_init : Master D → WorkloadPointer D → R → Result (Handled D R)
  with_workload_init m indeterminate r = err undefined_behaviour
  with_workload_init m null r = ok (record { master = m; rng = r; sent = [] })
  with_workload_init m (points_to w) r =
      on_init random table m.id (issuing m w r) >>= λ s. ok (issued m s)

  unfoldable pub on_scheduler_init : Master D → R → Result (Handled D R)
  unfolding with_workload_init
  on_scheduler_init m r = with_workload_init m m.workload r

  -- `RoundRobin::onCompletedTask` does not test the pointer.
  with_workload_completed : Master D → D → WorkloadPointer D → R → Result (Handled D R)
  with_workload_completed m now indeterminate r = err undefined_behaviour
  with_workload_completed m now null r = err undefined_behaviour
  with_workload_completed m now (points_to w) r =
      on_completed_task random table m.id now (issuing m w r) >>= λ s. ok (issued m s)

  -- `Master::onTaskArrival`, on the completion state of the task.
  arrival : TaskCompletionState → Master D → D → Event D → R → Result (Handled D R)
  unfolding with_workload_completed
  arrival processed m time e r =
      let m' = record m {
        last_activity_time = time;
        completed_tasks = u32 (m.completed_tasks + 1);
      } in
      if e.task.origin == m.id
      then with_workload_completed m' time m'.workload r
      else (forward_to_origin table m time e >>= λ msg.
          ok (record { master = m'; rng = r; sent = msg ∷ [] }))
  arrival just_generated m time e r = schedule_task table m time e >>= λ out.
      ok (record { master = out.0; rng = r; sent = out.1 ∷ [] })

  unfoldable pub on_task_arrival : Master D → D → Event D → R → Result (Handled D R)
  unfolding arrival
  on_task_arrival m time e r = arrival e.task.completion_state m time e r
