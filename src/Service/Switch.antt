-- ===== src/Service/Switch.antt =====
-- include/service/switch.hpp and src/service/switch.cpp.
pub mod Delivery
use ispd_exa_engine.Base.{
  ℕ, ◌+◌, ◌%◌, List, [], ◌∷◌, if◌then◌else◌, Result, ok, ◌>>=◌, u32, u64, u64_sub,
}
use ispd_exa_engine.Double.{Double, ◌⊕◌}
use ispd_exa_engine.Customer.{Event, Message, RouteDescriptor, descriptor, send}
use ispd_exa_engine.Routing.{RoutingTable, get_route, index}
use ispd_exa_engine.Service.Queueing.{time_to_communicate, departure_time}

pub record SwitchMetrics (D : Type 0) : Type 0 where
  pub last_activity_time : D
  pub comm_mbits : D
  pub comm_time : D
  pub comm_packets : ℕ

pub record Switch (D : Type 0) : Type 0 where
  pub id : ℕ
  pub metrics : SwitchMetrics D
  pub bandwidth : D
  pub latency : D
  pub load_factor : D
  pub available_time : D

module _ {D : Type 0} ⦃d : Double D⦄ where
  -- In the order of the constructor's parameters.
  abbrev pub new_switch : (id : ℕ) (bandwidth latency load_factor : D) → Switch D
  new_switch id bandwidth latency load_factor = record {
    id = id;
    metrics = record {
      last_activity_time = d.nought;
      comm_mbits = d.nought;
      comm_time = d.nought;
      comm_packets = 0;
    };
    bandwidth = bandwidth;
    latency = latency;
    load_factor = load_factor;
    available_time = d.nought;
  }

  unfoldable pub do_switch_packet_forwarding : RoutingTable → ℕ → D → Event D → Result (Message D)
  do_switch_packet_forwarding table switch_id now e =
      let r = e.route_descriptor in
      let new_offset = if r.forwarding_direction then u64 (r.offset + 1) else u64_sub r.offset 1 in
      get_route table r.source r.destination >>= λ route. index route r.offset >>= λ next. ok (
        send next now e.task
          (descriptor r.source r.destination switch_id new_offset r.forwarding_direction))

  unfoldable pub on_task_arrival :
      RoutingTable → Switch D → D → Event D → Result (Switch D × List (Message D))
  on_task_arrival table s now e =
      let comm_size = e.task.comm_size in
      let comm_time = time_to_communicate s.latency s.load_factor s.bandwidth comm_size in
      let departure = departure_time s.available_time now comm_time in
      do_switch_packet_forwarding table s.id now e >>= λ m. ok (
        record s {
          metrics = record {
            last_activity_time = departure;
            comm_mbits = s.metrics.comm_mbits ⊕ comm_size;
            comm_time = s.metrics.comm_time ⊕ comm_time;
            comm_packets = u32 (s.metrics.comm_packets + 1);
          };
          available_time = departure;
        },
        m ∷ [],
      )
