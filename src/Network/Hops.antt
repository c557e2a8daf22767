-- ===== src/Network/Hops.antt =====
-- What one delivery does to a packet at a link, at a relay and at the slave: src/service/link.cpp,
-- switch.cpp and machine.cpp behind the dispatcher's `onTaskArrival`.
use ispd_exa_engine.Base.{
  ℕ, ◌+◌, ◌≡◌, ◌≢◌, refl, sym, ◌∙◌, ◌⊎◌, inl, inr, true, false, [], ◌∷◌, List, some, if◌then◌else◌,
  u64, u64_sub, ap, subst, Result, ok, err, undefined_behaviour, arith,
}
use ispd_exa_engine.Double.{Double, IsOrdered}
use ispd_exa_engine.Customer.{Event, Message, processed, descriptor, send}
use ispd_exa_engine.Routing.{Route, RoutingTable, get_route, index}
use ispd_exa_engine.Service.Link.{Link}
use ispd_exa_engine.Service.Link
use ispd_exa_engine.Service.Switch
use ispd_exa_engine.Service.Switch.{Switch}
use ispd_exa_engine.Service.Machine
use ispd_exa_engine.Service.Link.Delivery.{Joins, comm_time, on_task_arrival-Joins}
use ispd_exa_engine.Service.Switch.Delivery.{on_task_arrival_forwards as switch_forwards}
use ispd_exa_engine.Service.Machine.Forwarding.{
  on_task_arrival_relays as machine_forwards, on_task_arrival_processes,
}
use ispd_exa_engine.Service.Machine.{
  Machine, int_max, process, forward, do_machine_packet_forwarding, time_to_attend, time_to_process,
  reply,
}
use ispd_exa_engine.Service.Machine.Process.{process_cases}
use ispd_exa_engine.Network.Work.{processed_at, CanWork, HasTime}
use ispd_exa_engine.Service.Queueing.{departure_time}
use ispd_exa_engine.Simulator.{Service, link, switch, machine, Dispatched, service_on_task_arrival}
use ispd_exa_engine.Network.Placement.{
  Place, link_place, switch_place, machine_place, IsAt, at_link, at_switch, at_machine, at_master,
  at_dummy,
}

module _ {D R : Type 0} ⦃d : Double D⦄ where
  -- A handler that succeeds, keeps the service in its place, sends one message and processes `work`
  -- tasks. A machine keeps some core that is free in time if it had one and the message is in time.
  pub record Passes (p : Place) (id : ℕ) (r : R) (work : ℕ) (s : Service D)
      (message : D → Message D) (res : Result (Dispatched D R)) : Type 0 where
    pub out : Dispatched D R
    pub ran : res ≡ ok out
    pub state : Service D
    pub is_state : out.state ≡ some state
    pub stays : IsAt p id state
    pub same_rng : out.rng ≡ r
    pub time : D
    pub is_sent : out.sent ≡ message time ∷ []
    pub counts : processed_at state ≡ processed_at s + work
    pub frees : HasTime s → d.lt time d.max_value ≡ true → HasTime state

module _ {D R : Type 0} ⦃d : Double D⦄ (random : R → D × R) (table : RoutingTable) where
  abbrev with_state : Service D → R → List (Message D) → Dispatched D R
  with_state s r ms = record { state = some s; rng = r; sent = ms }

  of_link :
      {s : Service D} {l l' : Link D} {ms : List (Message D)} (now : D) (e : Event D) (r : R)
      → s ≡ link l
      → Link.on_task_arrival l now e ≡ ok (l', ms)
      → service_on_task_arrival random table s now e r ≡ ok (with_state (link l') r ms)
  unfolding service_on_task_arrival
  of_link now e r se run = rw (se, service_on_task_arrival, run)

  of_switch :
      {s : Service D} {w w' : Switch D} {ms : List (Message D)} (now : D) (e : Event D) (r : R)
      → s ≡ switch w
      → Switch.on_task_arrival table w now e ≡ ok (w', ms)
      → service_on_task_arrival random table s now e r ≡ ok (with_state (switch w') r ms)
  unfolding service_on_task_arrival
  of_switch now e r se run = rw (se, service_on_task_arrival, run)

  of_machine :
      {s : Service D} {m m' : Machine D} {ms : List (Message D)} (now : D) (e : Event D) (r : R)
      → s ≡ machine m
      → Machine.on_task_arrival table m now e ≡ ok (m', ms)
      → service_on_task_arrival random table s now e r ≡ ok (with_state (machine m') r ms)
  unfolding service_on_task_arrival
  of_machine now e r se run = rw (se, service_on_task_arrival, run)

  fails_as :
      {s : Service D} {m : Machine D} (now : D) (e : Event D) (r : R)
      → s ≡ machine m
      → Machine.on_task_arrival table m now e ≡ err undefined_behaviour
      → service_on_task_arrival random table s now e r ≡ err undefined_behaviour
  unfolding service_on_task_arrival
  fails_as now e r se run = rw (se, service_on_task_arrival, run)

  pub link_hop :
      (p : Place) (id : ℕ) (s : Service D) (a b : ℕ) (now : D) (e : Event D) (r : R)
      → let h = e.route_descriptor in
        (p ≡ link_place a b) ⊎ (p ≡ link_place b a)
        → a ≢ b
        → h.previous_service ≡ a
        → IsAt p id s
        → Passes p id r 0 s
            (λ time.
              send b time e.task
                (descriptor h.source h.destination id h.offset h.forwarding_direction))
            (service_on_task_arrival random table s now e r)
  link_hop p id s a b now e r w ne prev (at_link l pe ide se) =
      let joins : Joins l e.route_descriptor.previous_service b = ground arith in
      let (l', run, _, same_id, same_from, same_to, _, _) =
        on_task_arrival-Joins l now e b (rw prev ne) joins in
      record {
        out = with_state (link l') r _;
        ran = of_link now e r se run;
        state = link l';
        is_state = refl;
        stays = at_link l' (rw (same_from, same_to) pe) (same_id ∙ ide) refl;
        same_rng = refl;
        time = departure_time l.available_time now (comm_time l e);
        is_sent = rw ide;
        counts = rw se refl;
        frees = λ free early. tt;
      }
  link_hop p id s a b now e r w ne prev (at_switch l pe ide se) = absurd (ground arith)
  link_hop p id s a b now e r w ne prev (at_machine l pe ide se) = absurd (ground arith)
  link_hop p id s a b now e r w ne prev (at_master l pe ide se) = absurd (ground arith)
  link_hop p id s a b now e r w ne prev (at_dummy pe se) = absurd (ground arith)

  -- The offset that a relay writes.
  abbrev pub new_offset : Event D → ℕ
  new_offset e =
      let h = e.route_descriptor in
      if h.forwarding_direction then u64 (h.offset + 1) else u64_sub h.offset 1

  pub relay_hop :
      (p : Place) (id : ℕ) (s : Service D) (now : D) (e : Event D) (r : R) (route : Route)
      (next : ℕ)
      → let h = e.route_descriptor in
        (p ≡ switch_place) ⊎ ((p ≡ machine_place) × (id ≢ h.destination))
        → get_route table h.source h.destination ≡ ok route
        → index route h.offset ≡ ok next
        → IsAt p id s
        → Passes p id r 0 s
            (λ time.
              send next time e.task
                (descriptor h.source h.destination id (new_offset e) h.forwarding_direction))
            (service_on_task_arrival random table s now e r)
  relay_hop p id s now e r route next w found at (at_switch l pe ide se) =
      let (l', run, same_id, _, _) = switch_forwards table l now e route next found at in
      record {
        out = with_state (switch l') r _;
        ran = of_switch now e r se run;
        state = switch l';
        is_state = refl;
        stays = at_switch l' pe (same_id ∙ ide) refl;
        same_rng = refl;
        time = now;
        is_sent = rw ide;
        counts = rw se refl;
        frees = λ free early. tt;
      }
  relay_hop p id s now e r route next w found at (at_machine m pe ide se) =
      let other : e.route_descriptor.destination ≢ m.id = λ h. ground arith in
      let (m', run, same_id, same_cores, metrics) =
        machine_forwards table m now e route next other found at in
      record {
        out = with_state (machine m') r _;
        ran = of_machine now e r se run;
        state = machine m';
        is_state = refl;
        stays = at_machine m' pe (same_id ∙ ide) refl;
        same_rng = refl;
        time = now;
        is_sent = rw ide;
        counts = rw se (omega (arith, ap (λ x. x.proc_tasks) metrics));
        frees = λ free early.
            let (ts, same, j, u, at, h) = subst HasTime se free in
            (ts, same_cores ∙ same, j, u, at, h);
      }
  relay_hop p id s now e r route next w found at (at_link l pe ide se) = absurd (ground arith)
  relay_hop p id s now e r route next w found at (at_master l pe ide se) = absurd (ground arith)
  relay_hop p id s now e r route next w found at (at_dummy pe se) = absurd (ground arith)

  module _ (laws : IsOrdered D) where
    pub slave_hop :
        (p : Place) (id : ℕ) (s : Service D) (now : D) (e : Event D) (r : R)
        → let h = e.route_descriptor in
          p ≡ machine_place
          → h.destination ≡ id
          → IsAt p id s
          → ((service_on_task_arrival random table s now e r ≡ err undefined_behaviour)
              × ¬ CanWork s)
            ⊎ Passes p id r 1 s
                (λ time.
                  send h.previous_service time
                    (record e.task { completion_state = processed })
                    (descriptor h.source h.destination id (u64_sub h.offset 2) false))
                (service_on_task_arrival random table s now e r)
    slave_hop p id s now e r pm mine (at_machine m pe ide se) =
        let h = e.route_descriptor in
        let mine' : h.destination ≡ m.id = mine ∙ sym ide in
        let same = on_task_arrival_processes table m now e mine' in
        elim (process_cases laws m now e) [
          | inl (fails, not_ready) ↦
              inl (fails_as now e r se (same ∙ fails), λ ready. not_ready (rw se at ready))
          | inr (m', departure, run, same_id, counted, frees) ↦ inr (record {
            out = with_state (machine m') r _;
            ran = of_machine now e r se (same ∙ run);
            state = machine m';
            is_state = refl;
            stays = at_machine m' pe (same_id ∙ ide) refl;
            same_rng = refl;
            time = departure;
            is_sent = rw ide;
            counts = rw se counted;
            frees = λ free early. frees (subst HasTime se free) early;
          })
        ]
    slave_hop p id s now e r pm mine (at_link l pe ide se) = absurd (ground arith)
    slave_hop p id s now e r pm mine (at_switch l pe ide se) = absurd (ground arith)
    slave_hop p id s now e r pm mine (at_master l pe ide se) = absurd (ground arith)
    slave_hop p id s now e r pm mine (at_dummy pe se) = absurd (ground arith)
