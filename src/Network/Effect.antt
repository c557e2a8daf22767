-- ===== src/Network/Effect.antt =====
-- What one delivery does: src/simulator/rootsim.cpp with the handlers of src/service.
use ispd_exa_engine.Base.{
  ◌+◌, length, List, [], ◌∷◌, u32, ℕ, ◌≤◌, ◌≡◌, ◌≢◌, true, refl, sym, subst, ◌⊎◌, Option, some, All,
  Result, ok, err, undefined_behaviour,
}
use ispd_exa_engine.Double.{Double, IsOrdered}
use ispd_exa_engine.Customer.{
  Task, Event, Message, just_generated, task_arrival, task_scheduler_init,
}
use ispd_exa_engine.Routing.{RoutingTable}
use ispd_exa_engine.Service.Master.{Master}
use ispd_exa_engine.Simulator.{
  Simulator, Service, link, switch, machine, master, dummy, Dispatched, dispatch,
}
use ispd_exa_engine.Network.Placement.{
  Place, master_place, IsAt, at_link, at_switch, at_machine, at_master, at_dummy, Line, Position,
  back_to_node, depth, packet, next_position, to_go,
}
use ispd_exa_engine.Network.Work.{CanWork, HasTime, processed_at, works_at, to_process}
use ispd_exa_engine.Network.Travel.{to_go-next_position}
use ispd_exa_engine.Network.Launch.{
  IsRunning, IsPlaced, on_line, generated, starts, IsLaunched, All-IsPlaced,
}
use ispd_exa_engine.Network.Home.{left_of}

module _ {D R : Type 0} ⦃d : Double D⦄ (laws : IsOrdered D) (random : R → D × R)
    (table : RoutingTable) (topology : ℕ → Place) (sim : Simulator D) where
  -- A master is running.
  abbrev pub Holds : Service D → Type 0
  Holds (master m) = IsRunning topology table m
  Holds (link l) = Unit
  Holds (switch l) = Unit
  Holds (machine l) = Unit
  Holds (dummy l) = Unit

  -- What a master receives: `back` tasks of its own that are completed and `extra` ones to hand on.
  pub data Receives (id back extra : ℕ) (m : Message D) : Type 0 where
    completed :
        (src dest : ℕ) (l : Line topology table src dest) (time : D) (t : Task D)
        → back ≡ 1
        → extra ≡ 0
        → t.origin ≡ id
        → m ≡ packet l (back_to_node 0) time t
        → Receives id back extra m
    handed_on :
        (time : D) (e : Event D)
        → back ≡ 0
        → extra ≡ 1
        → e.task.origin ≡ id
        → e.task.completion_state ≡ just_generated
        → m ≡ record { receiver = id; time = time; event_type = task_arrival; event = some e }
        → Receives id back extra m
    started :
        (time : D) (e : Option (Event D))
        → back ≡ 0
        → extra ≡ 0
        → m ≡ record { receiver = id; time = time; event_type = task_scheduler_init; event = e }
        → Receives id back extra m

  -- The message has `hops` deliveries before it and brings `extra` tasks to hand on: a packet moves on
  -- at a service that is no master, or a master takes what it receives and sends packets to its
  -- slaves.
  pub data Effect (m : Message D) (hops extra : ℕ) (s s' : Service D) (sent : List (Message D))
      : Type 0 where
    moves :
        (src dest : ℕ) (l : Line topology table src dest) (at : Position) (time later : D)
        (t : Task D)
        → depth at ≤ l.last
        → at ≢ back_to_node 0
        → t.origin ≡ src
        → topology m.receiver ≢ master_place
        → processed_at s' ≡ processed_at s + works_at l.last at
        → (HasTime s → d.lt later d.max_value ≡ true → HasTime s')
        → to_go l.last at ≡ hops
        → m ≡ packet l at time t
        → sent ≡ packet l (next_position l.last at) later t ∷ []
        → Effect m hops extra s s' sent
    takes :
        (w w' : Master D) (back : ℕ)
        → 1 ≤ hops
        → s ≡ master w
        → s' ≡ master w'
        → w.id ≡ m.receiver
        → Receives w.id back extra m
        → All (IsLaunched topology table w.id) sent
        → left_of w'.workload + length sent ≡ left_of w.workload + extra
        → u32 w'.completed_tasks ≡ u32 (w.completed_tasks + back)
        → ((length sent ≡ 0) → left_of w.workload + extra ≡ 0)
        → Effect m hops extra s s' sent

  -- A delivery that succeeds, keeps the service in its place and has one of these effects.
  pub record Succeeds (m : Message D) (hops extra : ℕ) (s : Service D)
      (res : Result (Dispatched D R)) : Type 0 where
    pub out : Dispatched D R
    pub ran : res ≡ ok out
    pub state : Service D
    pub is_state : out.state ≡ some state
    pub stays : IsAt (topology m.receiver) m.receiver state
    pub holds : Holds state
    pub effect : Effect m hops extra s state out.sent

  abbrev pub dispatched : Message D → Service D → R → Result (Dispatched D R)
  dispatched m s r = dispatch random table sim m.receiver m.time m.event_type m.event (some s) r

  -- The delivery succeeds, or it brings a task to a machine that cannot work.
  abbrev pub Safe : Message D → ℕ → ℕ → Service D → R → Type 0
  Safe m hops extra s r =
      ((dispatched m s r ≡ err undefined_behaviour) × (to_process m ≡ 1) × ¬ CanWork s)
      ⊎ Succeeds m hops extra s (dispatched m s r)

  pub Holds-of_place :
      (p : Place) (id : ℕ) (s : Service D) → p ≢ master_place → IsAt p id s → Holds s
  Holds-of_place p id s ne (at_link l pe ide se) = rw se tt
  Holds-of_place p id s ne (at_switch l pe ide se) = rw se tt
  Holds-of_place p id s ne (at_machine l pe ide se) = rw se tt
  Holds-of_place p id s ne (at_master l pe ide se) = absurd (ne pe)
  Holds-of_place p id s ne (at_dummy pe se) = rw se tt

  -- The deliveries that a placed message has before it.
  abbrev pub hops_of : {m : Message D} → IsPlaced topology table m → ℕ
  hops_of (on_line src dest l at _ _ _ _ _) = to_go l.last at
  hops_of (generated _ _ _ _ _ _ _) = 1
  hops_of (starts _ _ _ _ _) = 1

  -- The tasks that it brings to its master.
  abbrev pub extra_of : {m : Message D} → IsPlaced topology table m → ℕ
  extra_of (on_line _ _ _ _ _ _ _ _ _) = 0
  extra_of (generated _ _ _ _ _ _ _) = 1
  extra_of (starts _ _ _ _ _) = 0

  -- All that is sent is in its place.
  pub Effect-IsPlaced :
      {m : Message D} {hops extra : ℕ} {s s' : Service D} {sent : List (Message D)}
      → Effect m hops extra s s' sent
      → All (IsPlaced topology table) sent
  Effect-IsPlaced (moves src dest l at time later t h ne own _ _ _ _ _ is_sent) =
      subst (All (IsPlaced topology table)) (sym is_sent) (
        on_line src dest l (next_position l.last at) later t (to_go-next_position l.last at h ne).1
            own refl,
        tt,
      )
  Effect-IsPlaced {sent = sent} (takes w w' back _ _ _ _ _ launched _ _ _) =
      All-IsPlaced topology table w.id sent launched
