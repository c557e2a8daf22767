-- ===== src/Network/Load.antt =====
-- Every task is processed once: src/service/machine.cpp and master.cpp behind the dispatcher of
-- src/simulator/rootsim.cpp.
use ispd_exa_engine.Base.{
  ℕ, ◌+◌, ◌<◌, ◌≡◌, refl, ap, ◌∙◌, subst, List, [], ◌∷◌, ◌++◌, arith, All, length, sum_by,
  sum_by-append, sum_by_middle, sum_below,
}
use ispd_exa_engine.Double.{Double, IsOrdered}
use ispd_exa_engine.Customer.{Message}
use ispd_exa_engine.Routing.{RoutingTable}
use ispd_exa_engine.Simulator.{Simulator, Service}
use ispd_exa_engine.Network.{Network, Step, step, Reaches, here, next}
use ispd_exa_engine.Network.Placement.{
  Place, dummy_place, IsAt, at_link, at_switch, at_machine, at_master, at_dummy, next_position,
}
use ispd_exa_engine.Network.Work.{
  processed_at, to_process, to_process-packet, unprocessed-next_position,
}
use ispd_exa_engine.Network.Launch.{IsPlaced, IsLaunched}
use ispd_exa_engine.Network.Accounts.{left_at}
use ispd_exa_engine.Network.Effect.{Receives, completed, handed_on, started, Effect, moves, takes}
use ispd_exa_engine.Network.Cost.{IsAt-left_at}
use ispd_exa_engine.Network.Conservation.{Advances-state, Advances-total}
use ispd_exa_engine.Network.Consistent.{
  IsConsistent, All-split, Advances, deliver-Advances, Reaches-IsConsistent,
}

-- The tasks that a machine has processed, or that a master has left.
abbrev pub load : {D : Type 0} → Service D → ℕ
load s = processed_at s + left_at s

-- The tasks that are processed, wait for a slave, or are left, with the services below `n`.
abbrev pub all_tasks : {D R : Type 0} → ℕ → Network D R → ℕ
all_tasks n net = sum_below n (λ id. load (net.services id)) + sum_by to_process net.pending

module _ {D R : Type 0} ⦃d : Double D⦄ (laws : IsOrdered D) (random : R → D × R)
    (table : RoutingTable) (topology : ℕ → Place) (sim : Simulator D) where
  Receives-to_process :
      {id back extra : ℕ} {m : Message D}
      → Receives laws random table topology sim id back extra m
      → to_process m ≡ extra
  Receives-to_process (completed src dest l time t b e own same) = rw (same, e) refl
  Receives-to_process (handed_on time e b x own new same) = rw (same, x) (rw new refl)
  Receives-to_process (started time e b x same) = rw (same, x) refl

  IsLaunched-to_process :
      (src : ℕ) (ms : List (Message D))
      → All (IsLaunched topology table src) ms
      → sum_by to_process ms ≡ length ms
  IsLaunched-to_process src [] ps = refl
  IsLaunched-to_process src (m ∷ ms) (p, ps) =
      let one : to_process m ≡ 1 = rw p.is_sent refl in
      omega (arith, one, IsLaunched-to_process src ms ps)

  IsAt-processed_at :
      (p : Place) (id : ℕ) (s : Service D) → p ≡ dummy_place → IsAt p id s → load s ≡ 0
  IsAt-processed_at p id s e (at_link l pe ide se) = absurd (ground arith)
  IsAt-processed_at p id s e (at_switch l pe ide se) = absurd (ground arith)
  IsAt-processed_at p id s e (at_machine l pe ide se) = absurd (ground arith)
  IsAt-processed_at p id s e (at_master l pe ide se) = absurd (ground arith)
  IsAt-processed_at p id s e (at_dummy pe se) = rw se refl

  -- A delivery moves tasks between its receiver and the messages.
  Effect-load :
      {m : Message D} {hops extra : ℕ} {s s' : Service D} {sent : List (Message D)}
      → Effect laws random table topology sim m hops extra s s' sent
      → IsAt (topology m.receiver) m.receiver s
      → IsAt (topology m.receiver) m.receiver s'
      → load s' + sum_by to_process sent ≡ load s + to_process m
  Effect-load {s} {s'} (moves src dest l at time later t h ne own inner counts _ _ is is_sent)
        stands stands' =
      let none = IsAt-left_at laws random table topology sim 0 _ _ s inner stands in
      let none' = IsAt-left_at laws random table topology sim 0 _ _ s' inner stands' in
      let was = ap to_process is ∙ to_process-packet l at time t in
      let is_now =
        ap (sum_by to_process) is_sent
        ∙ ap (λ k. k + 0) (to_process-packet l (next_position l.last at) later t) in
      omega (arith, none, none', was, is_now, counts, unprocessed-next_position l.last at)
  Effect-load (takes w w' back near se se' mid got launched spent counted works) stands stands' =
      rw (se, se', IsLaunched-to_process w.id _ launched, Receives-to_process got)
        (omega (arith, spent))

  Advances-all_tasks :
      {net net' : Network D R} {m : Message D} (before after : List (Message D)) {hops extra : ℕ}
      (n : ℕ)
      → ((id : ℕ) → ¬ (id < n) → topology id ≡ dummy_place)
      → IsConsistent laws random table topology sim net
      → net.pending ≡ before ++ m ∷ after
      → Advances laws random table topology sim net m (before ++ after) hops extra net'
      → all_tasks n net' ≡ all_tasks n net
  Advances-all_tasks {net} {net'} {m} before after n beyond c pending a =
      let was = ap (sum_by to_process) pending ∙ sum_by_middle to_process before after m in
      let is =
        ap (sum_by to_process) a.queues ∙ sum_by-append to_process (before ++ after) a.sent in
      let total =
        Advances-total laws random table topology sim load n
          (λ id out. (
            IsAt-processed_at _ _ _ (beyond id out) (c.stands id),
            IsAt-processed_at _ _ _ (beyond id out) (a.consistent.stands id),
          ))
          a in
      let moved = Effect-load a.effect (c.stands m.receiver) (
        subst (IsAt (topology m.receiver) m.receiver)
          (Advances-state laws random table topology sim a) (a.consistent.stands m.receiver)) in
      omega (arith, was, is, total, moved)

  Step-all_tasks :
      {net net' : Network D R} (n : ℕ)
      → ((id : ℕ) → ¬ (id < n) → topology id ≡ dummy_place)
      → IsConsistent laws random table topology sim net
      → Step random table sim net net'
      → all_tasks n net' ≡ all_tasks n net
  Step-all_tasks {net} {net'} n beyond c (step before after m pending run) =
      let (p, ps) =
        All-split laws random table topology sim before after m
          (subst (All (IsPlaced topology table)) pending c.placed) in
      Advances-all_tasks before after n beyond c pending
        (deliver-Advances laws random table topology sim net net' m (before ++ after) c p ps run)

  -- From a consistent network that has nothing at the identifiers from `n`, after any deliveries in any
  -- order, the tasks that the machines have counted as processed, those in messages that no slave has
  -- processed, and those that the masters have left are as many together as before: every task is
  -- processed once.
  pub Reaches-all_tasks :
      (net net' : Network D R) (n : ℕ)
      → ((id : ℕ) → ¬ (id < n) → topology id ≡ dummy_place)
      → IsConsistent laws random table topology sim net
      → Reaches random table sim net net'
      → all_tasks n net' ≡ all_tasks n net
  Reaches-all_tasks net net' n beyond c here = refl
  Reaches-all_tasks net net' n beyond c (next {mid} r s) =
      Step-all_tasks n beyond (Reaches-IsConsistent laws random table topology sim c r) s
      ∙ Reaches-all_tasks net mid n beyond c r
