-- ===== src/Service/Switch/Delivery.antt =====
-- src/service/switch.cpp: a switch counts its transmission time and passes the packet on at once.
use ispd_exa_engine.Base.{
  ℕ, ◌+◌, ◌≡◌, refl, [], ◌∷◌, if◌then◌else◌, u32, u64, u64_sub, ok, err, Error,
}
use ispd_exa_engine.Double.{Double, ◌⊕◌}
use ispd_exa_engine.Customer.{Event, descriptor, send}
use ispd_exa_engine.Routing.{Route, RoutingTable, get_route, index}
use ispd_exa_engine.Service.Queueing.{time_to_communicate, departure_time}
use ispd_exa_engine.Service.Switch.{Switch, do_switch_packet_forwarding, on_task_arrival}

module _ {D : Type 0} ⦃d : Double D⦄ (table : RoutingTable) (s : Switch D) (now : D)
    (e : Event D) where
  -- The time that the switch needs for the event's task.
  abbrev pub comm_time : D
  comm_time = time_to_communicate s.latency s.load_factor s.bandwidth e.task.comm_size

  abbrev forwarded : Switch D
  forwarded =
      let departure = departure_time s.available_time now comm_time in
      record s {
        metrics = record {
          last_activity_time = departure;
          comm_mbits = s.metrics.comm_mbits ⊕ e.task.comm_size;
          comm_time = s.metrics.comm_time ⊕ comm_time;
          comm_packets = u32 (s.metrics.comm_packets + 1);
        };
        available_time = departure;
      }

  -- If the packet's route has an element at the packet's offset, the packet goes to that element, one
  -- offset further in its direction. It is sent at its arrival time, although the switch is counted as
  -- busy until the departure time.
  pub on_task_arrival_forwards :
      (route : Route) (next : ℕ)
      → let r = e.route_descriptor in
        get_route table r.source r.destination ≡ ok route
        → index route r.offset ≡ ok next
        → (s' : Switch D) × (on_task_arrival table s now e
            ≡ ok (
              s',
              send next now e.task (
                    descriptor r.source r.destination s.id
                      (if r.forwarding_direction then u64 (r.offset + 1) else u64_sub r.offset 1)
                      r.forwarding_direction)
                  ∷ [],
            ))
          × (s'.id ≡ s.id)
          × (s'.available_time ≡ departure_time s.available_time now comm_time)
          × (s'.metrics.comm_packets ≡ u32 (s.metrics.comm_packets + 1))
  unfolding on_task_arrival do_switch_packet_forwarding
  on_task_arrival_forwards route next found at = (forwarded, rw (found, at), refl, refl, refl)

  -- With no route between the packet's ends the exception of `at` leaves the handler.
  pub on_task_arrival_unrouted :
      (error : Error)
      → get_route table e.route_descriptor.source e.route_descriptor.destination ≡ err error
      → on_task_arrival table s now e ≡ err error
  unfolding on_task_arrival do_switch_packet_forwarding
  on_task_arrival_unrouted error missing = rw missing
