-- ===== src/Service/Machine/Forwarding.antt =====
-- src/service/machine.cpp: packets for other services, and the two ways through `onTaskArrival`.
use ispd_exa_engine.Base.{
  ℕ, ◌+◌, ◌≡◌, ◌≢◌, refl, [], ◌∷◌, if◌then◌else◌, u32, u64, u64_sub, ok, ==-true, ==-false,
}
use ispd_exa_engine.Double.{Double}
use ispd_exa_engine.Customer.{Event, descriptor, send}
use ispd_exa_engine.Routing.{Route, RoutingTable, get_route, index}
use ispd_exa_engine.Service.Machine.{
  Machine, do_machine_packet_forwarding, forward, process, on_task_arrival,
}

module _ {D : Type 0} ⦃d : Double D⦄ (table : RoutingTable) (m : Machine D) (time : D)
    (e : Event D) where
  abbrev forwarded : Machine D
  forwarded = record m {
    metrics = record m.metrics {
      last_activity_time = time;
      forwarded_packets = u32 (m.metrics.forwarded_packets + 1);
    };
  }

  -- A packet for another service whose route has an element at the packet's offset goes to that
  -- element at once, one offset further in its direction; only the activity time and the count of
  -- forwarded packets change.
  pub on_task_arrival_relays :
      (route : Route) (next : ℕ)
      → let r = e.route_descriptor in
        r.destination ≢ m.id
        → get_route table r.source r.destination ≡ ok route
        → index route r.offset ≡ ok next
        → (m' : Machine D) × (on_task_arrival table m time e
            ≡ ok (
              m',
              send next time e.task (
                    descriptor r.source r.destination m.id
                      (if r.forwarding_direction then u64 (r.offset + 1) else u64_sub r.offset 1)
                      r.forwarding_direction)
                  ∷ [],
            ))
          × (m'.id ≡ m.id)
          × (m'.core_free_times ≡ m.core_free_times)
          × (m'.metrics ≡ record m.metrics {
            last_activity_time = time;
            forwarded_packets = u32 (m.metrics.forwarded_packets + 1);
          })
  unfolding on_task_arrival forward do_machine_packet_forwarding
  on_task_arrival_relays route next other found at =
      (forwarded, rw (==-false _ _ other, found, at), refl, refl, refl)

  -- A packet for this machine is processed.
  pub on_task_arrival_processes :
      e.route_descriptor.destination ≡ m.id → on_task_arrival table m time e ≡ process m time e
  unfolding on_task_arrival
  on_task_arrival_processes mine = rw (==-true _ _ mine)
