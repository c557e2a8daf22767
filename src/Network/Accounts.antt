-- ===== src/Network/Accounts.antt =====
-- Where the tasks of a master are: left in its workload, under way, or completed and counted by
-- src/service/master.cpp; and what one delivery does to them.
use ispd_exa_engine.Base.{
  ◌+◌, length, List, [], ◌∷◌, u32, ℕ, ◌≡◌, ◌≢◌, refl, sym, ◌∙◌, arith, Option, none, some, All,
  ◌==◌, if◌then◌else◌, ==-true, ==-false, sum_by,
}
use ispd_exa_engine.Double.{Double, IsOrdered}
use ispd_exa_engine.Customer.{Event, Message, task_arrival, task_scheduler_init}
use ispd_exa_engine.Routing.{RoutingTable}
use ispd_exa_engine.Simulator.{Simulator, Service, link, switch, machine, master, dummy}
use ispd_exa_engine.Network.Placement.{Place, master_place}
use ispd_exa_engine.Network.Launch.{IsLaunched}
use ispd_exa_engine.Network.Home.{left_of}
use ispd_exa_engine.Network.Effect.{Receives, completed, handed_on, started, Effect, moves, takes}

abbrev one_if_same : ℕ → ℕ → ℕ
one_if_same a b = if a == b then 1 else 0

module _ {D : Type 0} where
  -- The tasks that a service has left to hand out.
  abbrev pub left_at : Service D → ℕ
  left_at (master m) = left_of m.workload
  left_at (link l) = 0
  left_at (switch l) = 0
  left_at (machine l) = 0
  left_at (dummy l) = 0

  -- The completed tasks that a service has counted.
  abbrev pub completed_at : Service D → ℕ
  completed_at (master m) = m.completed_tasks
  completed_at (link l) = 0
  completed_at (switch l) = 0
  completed_at (machine l) = 0
  completed_at (dummy l) = 0

  abbrev task_of : ℕ → Option (Event D) → ℕ
  task_of id none = 0
  task_of id (some e) = one_if_same e.task.origin id

  -- 1 for a message that carries a task of the master `id`.
  abbrev pub carries : ℕ → Message D → ℕ
  carries id m = if m.event_type == task_arrival then task_of id m.event else 0

  -- 1 for the message that starts the scheduler of the master `id`.
  abbrev pub is_start : ℕ → Message D → ℕ
  is_start id m = if m.event_type == task_scheduler_init then one_if_same m.receiver id else 0

module _ {D R : Type 0} ⦃d : Double D⦄ (laws : IsOrdered D) (random : R → D × R)
    (table : RoutingTable) (topology : ℕ → Place) (sim : Simulator D) where
  Receives-carries :
      {id back extra : ℕ} {m : Message D}
      → Receives laws random table topology sim id back extra m
      → carries id m ≡ back + extra
  Receives-carries {id} (completed src dest l time t b e own same) =
      rw (same, b, e) (rw (==-true t.origin id own) refl)
  Receives-carries {id} (handed_on time e b x own new same) =
      rw (same, b, x) (rw (==-true e.task.origin id own) refl)
  Receives-carries (started time e b x same) = rw (same, b, x) refl

  Receives-carries_none :
      {own id back extra : ℕ} {m : Message D}
      → Receives laws random table topology sim own back extra m
      → own ≢ id
      → carries id m ≡ 0
  Receives-carries_none {own} {id} (completed src dest l time t b e is_own same) ne =
      rw same (rw (==-false t.origin id (λ q. ne (sym is_own ∙ q))) refl)
  Receives-carries_none {own} {id} (handed_on time e b x is_own new same) ne =
      rw same (rw (==-false e.task.origin id (λ q. ne (sym is_own ∙ q))) refl)
  Receives-carries_none (started time e b x same) ne = rw same refl

  pub IsLaunched-carries :
      (src : ℕ) (ms : List (Message D))
      → All (IsLaunched topology table src) ms
      → sum_by (carries src) ms ≡ length ms
  IsLaunched-carries src [] ps = refl
  IsLaunched-carries src (m ∷ ms) (p, ps) =
      let one : carries src m ≡ 1 = rw p.is_sent (rw (==-true p.task.origin src p.own) refl) in
      omega (arith, one, IsLaunched-carries src ms ps)

  IsLaunched-carries_none :
      (src id : ℕ) (ms : List (Message D))
      → src ≢ id
      → All (IsLaunched topology table src) ms
      → sum_by (carries id) ms ≡ 0
  IsLaunched-carries_none src id [] ne ps = refl
  IsLaunched-carries_none src id (m ∷ ms) ne (p, ps) =
      let none : carries id m ≡ 0 =
        rw p.is_sent (rw (==-false p.task.origin id (λ q. ne (sym p.own ∙ q))) refl) in
      omega (arith, none, IsLaunched-carries_none src id ms ne ps)

  -- What a master has left, has under way in what it receives and sends, and has counted.
  pub Effect-own :
      {m : Message D} {hops extra : ℕ} {s s' : Service D} {sent : List (Message D)}
      → Effect laws random table topology sim m hops extra s s' sent
      → topology m.receiver ≡ master_place
      → u32 (left_at s' + sum_by (carries m.receiver) sent + completed_at s')
        ≡ u32 (left_at s + carries m.receiver m + completed_at s)
  Effect-own (moves src dest l at time later t h ne own inner _ _ _ _ _) place =
      absurd (inner place)
  Effect-own {m} {hops} {extra} {s} {s'} {sent}
        (takes w w' back near se se' mid got launched spent counted works) place =
      rw (← mid, se, se', IsLaunched-carries w.id sent launched, Receives-carries got)
        (omega (arith, spent, counted))

  -- The tasks of the other masters stay under way.
  pub Effect-other :
      (id : ℕ) {m : Message D} {hops extra : ℕ} {s s' : Service D} {sent : List (Message D)}
      → Effect laws random table topology sim m hops extra s s' sent
      → m.receiver ≢ id
      → sum_by (carries id) sent ≡ carries id m
  Effect-other id (moves src dest l at time later t h ne own inner _ _ _ is is_sent) other =
      rw (is, is_sent) (omega arith)
  Effect-other id {m} {hops} {extra} {s} {s'} {sent}
        (takes w w' back near se se' mid got launched spent counted works) other =
      let ne : w.id ≢ id = λ e. other (sym mid ∙ e) in
      IsLaunched-carries_none w.id id sent ne launched ∙ sym (Receives-carries_none got ne)
