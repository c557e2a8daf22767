-- ===== src/Network/Work.antt =====
-- What a slave has done and what it needs to work: src/service/machine.cpp; and the tasks that wait
-- for a slave, by the completion states of include/customer/customer.hpp.
use ispd_exa_engine.Base.{
  arith, suc, ℕ, zero, ◌+◌, ◌≡◌, refl, Option, none, some, if◌then◌else◌, ◌==◌,
}
use ispd_exa_engine.Double.{Double}
use ispd_exa_engine.Customer.{
  TaskCompletionState, just_generated, processed, Event, Message, task_arrival, Task,
}
use ispd_exa_engine.Routing.{RoutingTable}
use ispd_exa_engine.Service.Machine.Process.{IsReady, HasFreeCore}
use ispd_exa_engine.Simulator.{Service, link, switch, machine, master, dummy}
use ispd_exa_engine.Network.Placement.{
  Place, Line, Position, to_link, to_node, back_to_link, back_to_node, next_position, packet,
}

module _ {D : Type 0} where
  -- The tasks that a service has processed.
  abbrev pub processed_at : Service D → ℕ
  processed_at (machine m) = m.metrics.proc_tasks
  processed_at (link l) = 0
  processed_at (switch l) = 0
  processed_at (master l) = 0
  processed_at (dummy l) = 0

module _ {D : Type 0} ⦃d : Double D⦄ where
  -- Every service but a machine is always ready.
  abbrev pub CanWork : Service D → Type 0
  CanWork (machine m) = IsReady m
  CanWork (link l) = Unit
  CanWork (switch l) = Unit
  CanWork (master l) = Unit
  CanWork (dummy l) = Unit

  -- A machine has free times that have all been written, and one of them is before the largest finite
  -- time.
  abbrev pub HasTime : Service D → Type 0
  HasTime (machine m) = HasFreeCore m
  HasTime (link l) = Unit
  HasTime (switch l) = Unit
  HasTime (master l) = Unit
  HasTime (dummy l) = Unit

-- 1 on the way to the slave.
abbrev pub unprocessed : Position → ℕ
unprocessed (to_link i) = 1
unprocessed (to_node i) = 1
unprocessed (back_to_link i) = 0
unprocessed (back_to_node i) = 0

-- 1 for the delivery to the slave.
abbrev pub works_at : ℕ → Position → ℕ
works_at last (to_link i) = 0
works_at last (to_node i) = if i == last then 1 else 0
works_at last (back_to_link i) = 0
works_at last (back_to_node i) = 0

abbrev one_if_new : TaskCompletionState → ℕ
one_if_new just_generated = 1
one_if_new processed = 0

abbrev pub new_in : {D : Type 0} → Option (Event D) → ℕ
new_in none = 0
new_in (some e) = one_if_new e.task.completion_state

-- 1 for a message with a task that no slave has processed.
abbrev pub to_process : {D : Type 0} → Message D → ℕ
to_process m = if m.event_type == task_arrival then new_in m.event else 0

pub to_process-packet :
    {D : Type 0} {topology : ℕ → Place} {table : RoutingTable} {src dest : ℕ}
    (l : Line topology table src dest) (at : Position) (time : D) (t : Task D)
    → to_process (packet l at time t) ≡ unprocessed at
to_process-packet l (to_link i) time t = refl
to_process-packet l (to_node i) time t = refl
to_process-packet l (back_to_link i) time t = refl
to_process-packet l (back_to_node i) time t = refl

-- A packet on its line is processed when it is delivered to the slave.
pub unprocessed-next_position :
    (last : ℕ) (at : Position)
    → unprocessed (next_position last at) + works_at last at ≡ unprocessed at
unprocessed-next_position last (to_link i) = refl
unprocessed-next_position last (to_node i) = ground arith
unprocessed-next_position last (back_to_link i) = refl
unprocessed-next_position last (back_to_node zero) = refl
unprocessed-next_position last (back_to_node (suc i)) = refl
