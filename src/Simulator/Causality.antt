-- ===== src/Simulator/Causality.antt =====
-- src/service/*.cpp behind the dispatcher: when the events that a handler schedules happen.
use ispd_exa_engine.Base.{>>=-inverts, ◌≡◌, List, arith, ok}
use ispd_exa_engine.Double.{Double, IsOrdered, ◌≼◌}
use ispd_exa_engine.Customer.{Event, Message}
use ispd_exa_engine.Routing.{RoutingTable}
use ispd_exa_engine.Service.Queueing.{IsFuture, departure_time-ge_now}
use ispd_exa_engine.Service.Link.{Link, other_end}
use ispd_exa_engine.Service.Link
use ispd_exa_engine.Service.Link.Delivery.{comm_time}
use ispd_exa_engine.Service.Switch.{Switch, do_switch_packet_forwarding}
use ispd_exa_engine.Service.Switch
use ispd_exa_engine.Service.Machine.{
  Machine, process, forward, do_machine_packet_forwarding, time_to_process, time_to_attend,
}
use ispd_exa_engine.Service.Machine
use ispd_exa_engine.Service.Master.{Master, Handled}
use ispd_exa_engine.Service.Master
use ispd_exa_engine.Service.Master.Timing.{master-IsFuture}
use ispd_exa_engine.Simulator.{
  Service, link, switch, machine, master, dummy, Dispatched, service_on_task_arrival,
}

module _ {D : Type 0} ⦃d : Double D⦄ where
  -- What a service takes for an event is not negative.
  abbrev pub Takes : Service D → Event D → Type 0
  Takes (link l) e = d.nought ≼ comm_time l e
  Takes (machine m) e = d.nought ≼ time_to_process m e.task.proc_size
  Takes (switch s) e = Unit
  Takes (master m) e = Unit
  Takes (dummy id) e = Unit

  module _ (laws : IsOrdered D) (now : D) (start : d.nought ≼ now) where
    now_refl : now ≼ now
    now_refl = (laws.refl_of_le d.nought now start).1

    link-IsFuture :
        (l l' : Link D) (e : Event D) (ms : List (Message D))
        → d.nought ≼ comm_time l e
        → Link.on_task_arrival l now e ≡ ok (l', ms)
        → IsFuture now ms
    unfolding Link.on_task_arrival
    link-IsFuture l l' e ms h run =
        let (to, done, _) = >>=-inverts (other_end l e.route_descriptor.previous_service) _ run in
        let later = departure_time-ge_now laws l.available_time now (comm_time l e) start h in
        ground (arith, later)

    switch-IsFuture :
        (table : RoutingTable) (s s' : Switch D) (e : Event D) (ms : List (Message D))
        → Switch.on_task_arrival table s now e ≡ ok (s', ms)
        → IsFuture now ms
    unfolding Switch.on_task_arrival do_switch_packet_forwarding
    switch-IsFuture table s s' e ms run = ground (arith, now_refl)

    forward-IsFuture :
        (table : RoutingTable) (m m' : Machine D) (e : Event D) (ms : List (Message D))
        → forward table m now e ≡ ok (m', ms)
        → IsFuture now ms
    unfolding forward do_machine_packet_forwarding
    forward-IsFuture table m m' e ms run = ground (arith, now_refl)

    process-IsFuture :
        (m m' : Machine D) (e : Event D) (ms : List (Message D))
        → d.nought ≼ time_to_process m e.task.proc_size
        → process m now e ≡ ok (m', ms)
        → IsFuture now ms
    unfolding process
    process-IsFuture m m' e ms h run =
        let (attend, rest, _) = >>=-inverts (time_to_attend m) _ run in
        ground (
          arith,
          rest,
          departure_time-ge_now laws attend.0 now (time_to_process m e.task.proc_size) start h,
        )

    machine-IsFuture :
        (table : RoutingTable) (m m' : Machine D) (e : Event D) (ms : List (Message D))
        → d.nought ≼ time_to_process m e.task.proc_size
        → Machine.on_task_arrival table m now e ≡ ok (m', ms)
        → IsFuture now ms
    unfolding Machine.on_task_arrival
    machine-IsFuture table m m' e ms h run =
        ground (arith, forward-IsFuture table m m' e ms, process-IsFuture m m' e ms h)

module _ {D R : Type 0} ⦃d : Double D⦄ (random : R → D × R) (table : RoutingTable) where
  -- A service that handles a task at a time that is not negative, and takes no negative time for it,
  -- schedules no event for an earlier time.
  pub service_on_task_arrival-IsFuture :
      (laws : IsOrdered D) (s : Service D) (now : D) (e : Event D) (r : R) (out : Dispatched D R)
      → d.nought ≼ now
      → Takes s e
      → service_on_task_arrival random table s now e r ≡ ok out
      → IsFuture now out.sent
  unfolding service_on_task_arrival
  service_on_task_arrival-IsFuture laws (link l) now e r out start h run =
      let (done, same, ran) = >>=-inverts (Link.on_task_arrival l now e) _ run in
      ground (arith, link-IsFuture laws now start l done.0 e done.1 h ran)
  service_on_task_arrival-IsFuture laws (switch s) now e r out start h run =
      let (done, same, ran) = >>=-inverts (Switch.on_task_arrival table s now e) _ run in
      ground (arith, switch-IsFuture laws now start table s done.0 e done.1 ran)
  service_on_task_arrival-IsFuture laws (machine m) now e r out start h run =
      let (done, same, ran) = >>=-inverts (Machine.on_task_arrival table m now e) _ run in
      ground (arith, machine-IsFuture laws now start table m done.0 e done.1 h ran)
  service_on_task_arrival-IsFuture laws (master m) now e r out start h run =
      let (done, same, ran) = >>=-inverts (Master.on_task_arrival random table m now e r) _ run in
      ground (
        arith,
        master-IsFuture random table now (laws.refl_of_le d.nought now start).1 m e r done ran,
      )
  service_on_task_arrival-IsFuture laws (dummy id) now e r out start h run = ground arith
