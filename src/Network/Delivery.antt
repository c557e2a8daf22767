-- ===== src/Network/Delivery.antt =====
-- One delivery by the dispatcher of src/simulator/rootsim.cpp, of a message that is in its place.
use ispd_exa_engine.Base.{
  ℕ, zero, suc, ◌≤◌, ◌≡◌, ◌≢◌, refl, sym, ap, ◌∙◌, subst, inl, inr, arith, Option, some, Result, ok,
  ◌>>=◌,
}
use native.Mathlib.Decide.{ℕ_discrete}
use ispd_exa_engine.Double.{Double, IsOrdered}
use ispd_exa_engine.Customer.{Task, Event, Message, task_arrival, task_scheduler_init}
use ispd_exa_engine.Routing.{RoutingTable}
use ispd_exa_engine.Service.Master.{Master}
use ispd_exa_engine.Service.Master
use ispd_exa_engine.Simulator.{
  Simulator, Service, master, Dispatched, dispatch, on_scheduler_init, service_on_task_arrival,
}
use ispd_exa_engine.Network.Placement.{
  Place, master_place, IsAt, at_link, at_switch, at_machine, at_master, at_dummy, Line, Position,
  to_link, to_node, back_to_link, back_to_node, depth, packet, carried, receiver_at, machine_place,
  to_go,
}
use ispd_exa_engine.Network.Work.{unprocessed, to_process-packet}
use ispd_exa_engine.Network.Travel.{packet-Travels}
use ispd_exa_engine.Network.Launch.{IsRunning, IsPlaced, on_line, generated, starts}
use ispd_exa_engine.Network.Home.{Settles, home-Settles, generated-Settles, start-Settles}
use ispd_exa_engine.Network.Effect.{
  Holds, Receives, completed, handed_on, started, moves, takes, dispatched, Safe, Holds-of_place,
  hops_of, extra_of,
}

module _ {D R : Type 0} ⦃d : Double D⦄ (laws : IsOrdered D) (random : R → D × R)
    (table : RoutingTable) (topology : ℕ → Place) (sim : Simulator D) where
  -- Nothing on a line but its first node is a master.
  inner_place :
      {src dest : ℕ} (l : Line topology table src dest) (at : Position)
      → depth at ≤ l.last
      → at ≢ back_to_node 0
      → topology (receiver_at l at) ≢ master_place
  inner_place l (to_link i) h ne e = elim (l.wired i h) [
    | inl w ↦ ground arith
    | inr w ↦ ground arith
  ]
  inner_place l (to_node i) h ne e = elim (ℕ_discrete i l.last) [
    | yes end ↦
        let same : topology (l.node (suc i)) ≡ machine_place =
          ap (λ k. topology (l.node (suc k))) end ∙ ap topology l.ends ∙ l.sink in
        ground arith
    | no more ↦ elim (l.relays i (omega arith)) [ inl w ↦ ground arith | inr w ↦ ground arith ]
  ]
  inner_place l (back_to_link i) h ne e = elim (l.wired i h) [
    | inl w ↦ ground arith
    | inr w ↦ ground arith
  ]
  inner_place l (back_to_node zero) h ne e = ne refl
  inner_place l (back_to_node (suc i)) h ne e = elim (l.relays i h) [
    | inl w ↦ ground arith
    | inr w ↦ ground arith
  ]

  dispatched_arrival :
      (id : ℕ) (time : D) (e : Event D) (s : Service D) (r : R)
      → dispatch random table sim id time task_arrival (some e) (some s) r
        ≡ service_on_task_arrival random table s time e r
  unfolding dispatch
  dispatched_arrival id time e s r = refl

  line-Safe :
      {src dest : ℕ} (l : Line topology table src dest) (at : Position) (time : D) (t : Task D)
      (s : Service D) (r : R)
      → depth at ≤ l.last
      → t.origin ≡ src
      → at ≢ back_to_node 0
      → IsAt (topology (receiver_at l at)) (receiver_at l at) s
      → Safe laws random table topology sim (packet l at time t) (to_go l.last at) 0 s r
  line-Safe {src} {dest} l at time t s r h own ne stands =
      let same = dispatched_arrival (receiver_at l at) time (carried l at t) s r in
      elim (packet-Travels laws random table topology l at time t r s h ne stands) [
        | inl (fails, stuck, end) ↦
            inl (same ∙ fails, to_process-packet l at time t ∙ ap unprocessed end, stuck)
        | inr p ↦ inr (record {
          out = p.out;
          ran = same ∙ p.ran;
          state = p.state;
          is_state = p.is_state;
          stays = p.stays;
          holds =
              Holds-of_place laws random table topology sim _ _ p.state (inner_place l at h ne)
                p.stays;
          effect =
              moves src dest l at time p.time t h ne own (inner_place l at h ne) p.counts p.frees
                refl refl p.is_sent;
        })
      ]

  -- What the dispatcher makes of a handler of a master.
  abbrev of_master : Result (Master.Handled D R) → Result (Dispatched D R)
  of_master res =
      res >>= λ h. ok (record { state = some (master h.master); rng = h.rng; sent = h.sent })

  -- A master handles a message.
  master-Safe :
      (m : Message D) (s : Service D) (r : R) (w : Master D) (hops back extra : ℕ)
      (res : Result (Master.Handled D R))
      → 1 ≤ hops
      → s ≡ master w
      → w.id ≡ m.receiver
      → topology m.receiver ≡ master_place
      → dispatched laws random table topology sim m (master w) r ≡ of_master res
      → Receives laws random table topology sim m.receiver back extra m
      → Settles random table topology w back extra res
      → Safe laws random table topology sim m hops extra s r
  master-Safe m s r w hops back extra res near se mid place same got settled = inr (record {
    out = record {
      state = some (master settled.handled.master);
      rng = settled.handled.rng;
      sent = settled.handled.sent;
    };
    ran = rw se (same ∙ ap of_master settled.ran);
    state = master settled.handled.master;
    is_state = refl;
    stays = at_master settled.handled.master place (settled.same_id ∙ mid) refl;
    holds = settled.running;
    effect =
        takes w settled.handled.master back near se refl mid
          (subst (λ id. Receives laws random table topology sim id back extra m) (sym mid) got)
          settled.launched settled.spent settled.counted settled.works;
  })

  -- The service at a master's place is a master that is running.
  master_there :
      (id : ℕ) (s : Service D)
      → topology id ≡ master_place
      → IsAt (topology id) id s
      → Holds laws random table topology sim s
      → (m : Master D) × (s ≡ master m) × (m.id ≡ id) × IsRunning topology table m
  master_there id s place (at_master m pe ide se) holds = (m, se, ide, rw se at holds)
  master_there id s place (at_link l pe ide se) holds = absurd (ground arith)
  master_there id s place (at_switch l pe ide se) holds = absurd (ground arith)
  master_there id s place (at_machine l pe ide se) holds = absurd (ground arith)
  master_there id s place (at_dummy pe se) holds = absurd (ground arith)

  dispatched_master :
      (id : ℕ) (time : D) (e : Event D) (m : Master D) (r : R)
      → dispatch random table sim id time task_arrival (some e) (some (master m)) r
        ≡ of_master (Master.on_task_arrival random table m time e r)
  unfolding dispatch service_on_task_arrival
  dispatched_master id time e m r = refl

  dispatched_start :
      (id : ℕ) (time : D) (e : Option (Event D)) (m : Master D) (r : R)
      → dispatch random table sim id time task_scheduler_init e (some (master m)) r
        ≡ of_master (Master.on_scheduler_init random table m r)
  unfolding dispatch on_scheduler_init
  dispatched_start id time e m r = refl

  abbrev AnyState : Message D → ℕ → ℕ → R → Type 0
  AnyState m hops extra r =
      (s : Service D)
      → IsAt (topology m.receiver) m.receiver s
      → Holds laws random table topology sim s
      → Safe laws random table topology sim m hops extra s r

  home_packet :
      {src dest : ℕ} (l : Line topology table src dest) (time : D) (t : Task D) (r : R)
      → t.origin ≡ src
      → AnyState (packet l (back_to_node 0) time t) 1 0 r
  home_packet {src} {dest} l time t r own s stands holds =
      let place : topology (l.node 0) ≡ master_place = ap topology l.starts ∙ l.origin in
      let (w, se, ide, run) = master_there (l.node 0) s place stands holds in
      let here : t.origin ≡ l.node 0 = own ∙ sym l.starts in
      master-Safe (packet l (back_to_node 0) time t) s r w 1 1 0 _ (omega arith) se ide place
        (dispatched_master (l.node 0) time _ w r) (completed src dest l time t refl refl here refl)
        (home-Settles random table topology w time (carried l (back_to_node 0) t) r run refl
          (here ∙ sym ide))

  line_packet :
      {src dest : ℕ} (l : Line topology table src dest) (at : Position) (time : D) (t : Task D)
      (r : R)
      → depth at ≤ l.last
      → t.origin ≡ src
      → AnyState (packet l at time t) (to_go l.last at) 0 r
  line_packet l (to_link i) time t r h own s stands holds =
      line-Safe l (to_link i) time t s r h own (λ e. cc) stands
  line_packet l (to_node i) time t r h own s stands holds =
      line-Safe l (to_node i) time t s r h own (λ e. cc) stands
  line_packet l (back_to_link i) time t r h own s stands holds =
      line-Safe l (back_to_link i) time t s r h own (λ e. cc) stands
  line_packet l (back_to_node zero) time t r h own s stands holds =
      home_packet l time t r own s stands holds
  line_packet l (back_to_node (suc i)) time t r h own s stands holds =
      line-Safe l (back_to_node (suc i)) time t s r h own (λ e. ground arith) stands

  -- A placed message that is delivered to a service in its place.
  pub placed-Safe :
      (m : Message D) (r : R) (p : IsPlaced topology table m)
      → AnyState m
          (hops_of laws random table topology sim p)
          (extra_of laws random table topology sim p)
          r
  placed-Safe m r (on_line src dest l at time t h own e) =
      subst (λ m. AnyState m (to_go l.last at) 0 r) (sym e) (line_packet l at time t r h own)
  placed-Safe m r (generated id time e place new own eq) =
      subst (λ m. AnyState m 1 1 r) (sym eq)
        λ s stands holds.
          let (w, se, ide, run) = master_there id s place stands holds in
          master-Safe _ s r w 1 0 1 _ (omega arith) se ide place (dispatched_master id time e w r)
            (handed_on time e refl refl own new refl)
            (generated-Settles random table topology w time e r run new (own ∙ sym ide))
  placed-Safe m r (starts id time e place eq) =
      subst (λ m. AnyState m 1 0 r) (sym eq)
        λ s stands holds.
          let (w, se, ide, run) = master_there id s place stands holds in
          master-Safe _ s r w 1 0 0 _ (omega arith) se ide place (dispatched_start id time e w r)
            (started time e refl refl refl) (start-Settles random table topology w r run)
