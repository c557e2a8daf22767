-- ===== src/Customer.antt =====
-- include/customer/customer.hpp, include/routing/route.hpp, include/event/event.hpp and
-- include/engine.hpp: tasks, route descriptors, events, and what a service schedules.
use ispd_exa_engine.Base.{ℕ, ◌-◌, Bool, true, Option, some, u64_mod}

pub data TaskCompletionState : Type 0 where
  just_generated processed : TaskCompletionState

pub record Task (D : Type 0) : Type 0 where
  pub tid : ℕ
  pub origin : ℕ
  pub proc_size : D
  pub comm_size : D
  pub completion_state : TaskCompletionState

pub record RouteDescriptor : Type 0 where
  pub source : ℕ
  pub destination : ℕ
  pub previous_service : ℕ
  pub offset : ℕ
  pub forwarding_direction : Bool

-- The default constructor: the identifiers are `static_cast<uint64_t>(-1)`.
abbrev pub default_descriptor : RouteDescriptor
default_descriptor = record {
  source = u64_mod - 1;
  destination = u64_mod - 1;
  previous_service = u64_mod - 1;
  offset = 0;
  forwarding_direction = true;
}

pub record Event (D : Type 0) : Type 0 where
  pub task : Task D
  pub route_descriptor : RouteDescriptor

-- The event types of `engine.hpp` and of `ROOT-Sim.h`.
abbrev pub task_arrival : ℕ
task_arrival = 1

abbrev pub task_scheduler_init : ℕ
task_scheduler_init = 2

abbrev pub lp_init : ℕ
lp_init = 65534

abbrev pub lp_fini : ℕ
lp_fini = 65535

-- One call of `ispd::schedule_event`.
pub record Message (D : Type 0) : Type 0 where
  pub receiver : ℕ
  pub time : D
  pub event_type : ℕ
  pub event : Option (Event D)

abbrev pub descriptor : ℕ → ℕ → ℕ → ℕ → Bool → RouteDescriptor
descriptor src dest previous offset direction = record {
  source = src;
  destination = dest;
  previous_service = previous;
  offset = offset;
  forwarding_direction = direction;
}

module _ {D : Type 0} where
  -- `Task(tid, origin, processingSize, communicationSize)`
  abbrev pub new_task : ℕ → ℕ → D → D → Task D
  new_task tid origin proc comm = record {
    tid = tid;
    origin = origin;
    proc_size = proc;
    comm_size = comm;
    completion_state = just_generated;
  }

  -- `Event(task)`
  abbrev pub event_of_task : Task D → Event D
  event_of_task t = record { task = t; route_descriptor = default_descriptor }

  -- `Event e(task, descriptor); ispd::schedule_event(receiver, time, TASK_ARRIVAL, &e, sizeof(e));`
  abbrev pub send : ℕ → D → Task D → RouteDescriptor → Message D
  send receiver time t r = record {
    receiver = receiver;
    time = time;
    event_type = task_arrival;
    event = some (record { task = t; route_descriptor = r });
  }
