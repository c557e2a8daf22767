-- ===== src/Network/Launch.antt =====
-- Masters that are running, the messages that may be pending, and packets that leave their master:
-- src/service/master.cpp and src/scheduler/round_robin.cpp on a network with lines to all slaves.
use ispd_exa_engine.Base.{
  ℕ, zero, suc, ◌≤◌, ◌≡◌, refl, sym, subst, List, [], ◌∷◌, arith, Option, some, get_elem?, All, ok,
  true,
}
use ispd_exa_engine.Base.Int.{pos}
use ispd_exa_engine.Customer.{
  Task, Event, Message, just_generated, descriptor, send, task_arrival, task_scheduler_init,
}
use ispd_exa_engine.Routing.{Route, RoutingTable, get_route, index}
use ispd_exa_engine.Workload.{Workload, get_remaining_tasks}
use ispd_exa_engine.Scheduler.Queue.{IsValid}
use ispd_exa_engine.Scheduler.Issue.{IsRouted, IsIssue, IsBatch}
use ispd_exa_engine.Service.Master.{Master, points_to}
use ispd_exa_engine.Network.Placement.{Place, master_place, Line, Position, to_link, depth, packet}

module _ (topology : ℕ → Place) (table : RoutingTable) where
  -- A master with a workload and with lines to all its slaves.
  pub record IsRunning {D : Type 0} (m : Master D) : Type 0 where
    pub work : Workload D
    pub tasks : ℕ
    pub has_work : m.workload ≡ points_to work
    pub left : get_remaining_tasks work ≡ pos tasks
    pub valid : IsValid m.scheduler
    pub lines :
        (i slave : ℕ)
        → get_elem? m.scheduler.resources i ≡ some slave
        → Line topology table m.id slave

  -- The messages that may be pending: packets on their lines, whose tasks come from the master at the
  -- end; tasks generated at a master; and the starts of schedulers.
  pub data IsPlaced {D : Type 0} (m : Message D) : Type 0 where
    on_line :
        (src dest : ℕ) (l : Line topology table src dest) (at : Position) (time : D) (t : Task D)
        → depth at ≤ l.last
        → t.origin ≡ src
        → m ≡ packet l at time t
        → IsPlaced m
    generated :
        (id : ℕ) (time : D) (e : Event D)
        → topology id ≡ master_place
        → e.task.completion_state ≡ just_generated
        → e.task.origin ≡ id
        → m ≡ record { receiver = id; time = time; event_type = task_arrival; event = some e }
        → IsPlaced m
    starts :
        (id : ℕ) (time : D) (e : Option (Event D))
        → topology id ≡ master_place
        → m ≡ record { receiver = id; time = time; event_type = task_scheduler_init; event = e }
        → IsPlaced m

  pub IsRouted-of_lines :
      {D : Type 0} (m : Master D) → IsRunning m → IsRouted table m.id m.scheduler
  IsRouted-of_lines m run i slave e =
      let l = run.lines i slave e in (l.route, l.link 0, l.routed, l.reads 0 (omega arith))

  -- A packet that leaves its master: at the first link of the line to a slave.
  pub record IsLaunched {D : Type 0} (src : ℕ) (m : Message D) : Type 0 where
    pub dest : ℕ
    pub line : Line topology table src dest
    pub time : D
    pub task : Task D
    pub own : task.origin ≡ src
    pub is_sent : m ≡ packet line (to_link 0) time task

  pub IsPlaced-of_IsLaunched :
      {D : Type 0} (src : ℕ) (m : Message D) → IsLaunched src m → IsPlaced m
  IsPlaced-of_IsLaunched src m p =
      on_line src p.dest p.line (to_link 0) p.time p.task (omega arith) p.own p.is_sent

  pub All-IsPlaced :
      {D : Type 0} (src : ℕ) (ms : List (Message D)) → All (IsLaunched src) ms → All IsPlaced ms
  All-IsPlaced src [] ps = tt
  All-IsPlaced src (m ∷ ms) ps = (IsPlaced-of_IsLaunched src m ps.0, All-IsPlaced src ms ps.1)

  -- A message that leaves a master over the first element of a slave's route is on that slave's line.
  pub IsLaunched-of_first :
      {D : Type 0} (src dest : ℕ) (l : Line topology table src dest) (route : Route) (first : ℕ)
      (now : D) (t : Task D)
      → t.origin ≡ src
      → t.completion_state ≡ just_generated
      → get_route table src dest ≡ ok route
      → index route 0 ≡ ok first
      → IsLaunched src (send first now t (descriptor src dest src 1 true))
  IsLaunched-of_first src dest l route first now t own new found at =
      let same : l.route ≡ route = ground (arith, l.routed) in
      let link_first : l.link 0 ≡ first = ground (arith, l.reads 0 (omega arith)) in
      record {
        dest = dest;
        line = l;
        time = now;
        task = t;
        own = own;
        is_sent = ground (arith, l.starts);
      }

  pub IsLaunched-of_issue :
      {D : Type 0} (m : Master D)
      → IsRunning m
      → (now : D) (n slave : ℕ) (msg : Message D)
      → IsIssue table m.id m.scheduler.resources now n slave msg
      → IsLaunched m.id msg
  IsLaunched-of_issue m run now n slave msg i = subst (IsLaunched m.id) (sym i.is_sent) (
      IsLaunched-of_first m.id slave (run.lines i.place slave i.listed) i.route i.first now _ refl
        refl i.routed i.starts)

  pub IsLaunched-of_batch :
      {D : Type 0} (m : Master D)
      → IsRunning m
      → (now : D) (n : ℕ) (slaves : List ℕ) (ms : List (Message D))
      → IsBatch table m.id m.scheduler.resources now n slaves ms
      → All (IsLaunched m.id) ms
  IsLaunched-of_batch m run now n slaves [] b = tt
  IsLaunched-of_batch m run now n [] (x ∷ ms) b = absurd b
  IsLaunched-of_batch m run now zero (s ∷ ss) (x ∷ ms) b = absurd b
  IsLaunched-of_batch m run now (suc n) (s ∷ ss) (x ∷ ms) b =
      (IsLaunched-of_issue m run now (suc n) s x b.0, IsLaunched-of_batch m run now n ss ms b.1)

  -- A master stays running as long as its resources are the same.
  pub IsRunning-of_same :
      {D : Type 0} (m m' : Master D) (w : Workload D) (n : ℕ)
      → IsRunning m
      → m'.id ≡ m.id
      → m'.scheduler.resources ≡ m.scheduler.resources
      → m'.workload ≡ points_to w
      → get_remaining_tasks w ≡ pos n
      → IsValid m'.scheduler
      → IsRunning m'
  IsRunning-of_same m m' w n run same_id same has left v = record {
    work = w;
    tasks = n;
    has_work = has;
    left = left;
    valid = v;
    lines = λ i slave e.
        subst (λ id. Line topology table id slave) (sym same_id) (run.lines i slave (rw same at e));
  }
