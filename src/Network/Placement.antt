-- ===== src/Network/Placement.antt =====
-- Where services stand and where a packet is on the line between a master and a slave: the routes
-- of include/routing/table.hpp and the descriptors of include/routing/route.hpp.
use ispd_exa_engine.Base.{
  ℕ, zero, suc, ◌+◌, ◌-◌, ◌*◌, ◌≤◌, ◌<◌, ◌≡◌, ◌≢◌, ◌⊎◌, true, false, if◌then◌else◌, ◌==◌, u64_mod,
  u64_sub, ok,
}
use ispd_exa_engine.Customer.{
  Task, Event, Message, RouteDescriptor, TaskCompletionState, just_generated, processed, descriptor,
  send,
}
use ispd_exa_engine.Routing.{Route, RoutingTable, get_route, index}
use ispd_exa_engine.Simulator.{Service, link, switch, machine, master, dummy}
use ispd_exa_engine.Service.Link.{Link}
use ispd_exa_engine.Service.Switch.{Switch}
use ispd_exa_engine.Service.Machine.{Machine}
use ispd_exa_engine.Service.Master.{Master}

-- The class of a service, with the ends of a link.
pub data Place : Type 0 where
  link_place : ℕ → ℕ → Place
  switch_place machine_place master_place dummy_place : Place

-- The service with the given identifier is of this class.
pub data IsAt {D : Type 0} (p : Place) (id : ℕ) (s : Service D) : Type 0 where
  at_link : (l : Link D) → p ≡ link_place l.from l.to → l.id ≡ id → s ≡ link l → IsAt p id s
  at_switch : (w : Switch D) → p ≡ switch_place → w.id ≡ id → s ≡ switch w → IsAt p id s
  at_machine : (m : Machine D) → p ≡ machine_place → m.id ≡ id → s ≡ machine m → IsAt p id s
  at_master : (m : Master D) → p ≡ master_place → m.id ≡ id → s ≡ master m → IsAt p id s
  at_dummy : p ≡ dummy_place → s ≡ dummy id → IsAt p id s

-- A line of links and services from a master to a slave machine, as the topology has it and as the
-- routing table says: the links `link 0`, …, `link last` join `node 0`, …, `node (last + 1)`.
pub record Line (topology : ℕ → Place) (table : RoutingTable) (src dest : ℕ) : Type 0 where
  pub last : ℕ
  pub node : ℕ → ℕ
  pub link : ℕ → ℕ
  pub route : Route
  pub small : last + 2 < u64_mod
  pub starts : node 0 ≡ src
  pub ends : node (suc last) ≡ dest
  pub origin : topology src ≡ master_place
  pub sink : topology dest ≡ machine_place
  pub routed : get_route table src dest ≡ ok route
  pub reads : (i : ℕ) → i ≤ last → index route i ≡ ok (link i)
  pub distinct : (i : ℕ) → i ≤ last → node i ≢ node (suc i)
  pub wired :
      (i : ℕ)
      → i ≤ last
      → (topology (link i) ≡ link_place (node i) (node (suc i)))
        ⊎ (topology (link i) ≡ link_place (node (suc i)) (node i))
  pub relays :
      (i : ℕ)
      → suc i ≤ last
      → (topology (node (suc i)) ≡ switch_place)
        ⊎ ((topology (node (suc i)) ≡ machine_place) × (node (suc i) ≢ dest))

-- Where a packet is about to arrive: at link `i` or at the node behind it, on the way to the slave or
-- on the way back.
pub data Position : Type 0 where
  to_link to_node back_to_link back_to_node : ℕ → Position

abbrev pub depth : Position → ℕ
depth (to_link i) = i
depth (to_node i) = i
depth (back_to_link i) = i
depth (back_to_node i) = i

-- The deliveries that are left until the packet is back at the master.
abbrev pub to_go : ℕ → Position → ℕ
to_go last (to_link i) = 4 * (last + 1) - 2 * i
to_go last (to_node i) = 4 * (last + 1) - 2 * i - 1
to_go last (back_to_link i) = 2 * i + 2
to_go last (back_to_node i) = 2 * i + 1

-- Where a packet is after one more delivery, on a line whose last link is `link last`.
abbrev pub next_position : ℕ → Position → Position
next_position last (to_link i) = to_node i
next_position last (to_node i) = if i == last then back_to_link i else to_link (suc i)
next_position last (back_to_link i) = back_to_node i
next_position last (back_to_node zero) = back_to_node zero
next_position last (back_to_node (suc i)) = back_to_link i

abbrev pub state_at : Position → TaskCompletionState
state_at (to_link i) = just_generated
state_at (to_node i) = just_generated
state_at (back_to_link i) = processed
state_at (back_to_node i) = processed

abbrev pub task_at : {D : Type 0} → Position → Task D → Task D
task_at pos t = record t { completion_state = state_at pos }

module _ {topology : ℕ → Place} {table : RoutingTable} {src dest : ℕ} where
  abbrev pub receiver_at : Line topology table src dest → Position → ℕ
  receiver_at l (to_link i) = l.link i
  receiver_at l (to_node i) = l.node (suc i)
  receiver_at l (back_to_link i) = l.link i
  receiver_at l (back_to_node i) = l.node i

  -- The offset is that of the next link in the packet's direction; on the way back it wraps below 0.
  abbrev pub descriptor_at : Line topology table src dest → Position → RouteDescriptor
  descriptor_at l (to_link i) = descriptor src dest (l.node i) (suc i) true
  descriptor_at l (to_node i) = descriptor src dest (l.link i) (suc i) true
  descriptor_at l (back_to_link i) = descriptor src dest (l.node (suc i)) (u64_sub i 1) false
  descriptor_at l (back_to_node i) = descriptor src dest (l.link i) (u64_sub i 1) false

  module _ {D : Type 0} where
    abbrev pub carried : Line topology table src dest → Position → Task D → Event D
    carried l pos t = record { task = task_at pos t; route_descriptor = descriptor_at l pos }

    -- The packet that carries a task at a position.
    abbrev pub packet : Line topology table src dest → Position → D → Task D → Message D
    packet l pos time t = send (receiver_at l pos) time (task_at pos t) (descriptor_at l pos)
