-- ===== src/Network/Completion.antt =====
-- When nothing is pending any more: src/service/master.cpp and src/scheduler/round_robin.cpp keep
-- something under way as long as a master has tasks left.
use ispd_exa_engine.Base.{
  ℕ, ◌+◌, ◌≤◌, ◌≡◌, ◌≢◌, sym, ap, ◌∙◌, subst, List, [], ◌∷◌, ◌++◌, arith, All, u32, sum_by,
  sum_by-append, sum_by_middle, ==-false,
}
use native.Mathlib.Decide.{ℕ_discrete}
use ispd_exa_engine.Double.{Double, IsOrdered}
use ispd_exa_engine.Customer.{Message}
use ispd_exa_engine.Routing.{RoutingTable}
use ispd_exa_engine.Simulator.{Simulator, Service}
use ispd_exa_engine.Network.{Network, Step, step, Reaches, here, next}
use ispd_exa_engine.Network.Placement.{Place, master_place}
use ispd_exa_engine.Network.Launch.{IsPlaced}
use ispd_exa_engine.Network.Home.{left_of}
use ispd_exa_engine.Network.Accounts.{
  left_at, completed_at, carries, is_start, Effect-other, IsLaunched-carries,
}
use ispd_exa_engine.Network.Effect.{Effect, moves, takes}
use ispd_exa_engine.Network.Conservation.{
  Advances-state, Advances-state_other, under_way, Reaches-accounted,
}
use ispd_exa_engine.Network.Consistent.{
  IsConsistent, All-split, Advances, deliver-Advances, Reaches-IsConsistent,
}

-- 1 for a message that a master waits for: a task of its own, or the start of its scheduler.
abbrev pub awaits : {D : Type 0} → ℕ → Message D → ℕ
awaits id m = carries id m + is_start id m

-- A master that has tasks left waits for a pending message.
abbrev pub IsBusy : {D R : Type 0} → Network D R → ℕ → Type 0
IsBusy net id = 1 ≤ left_at (net.services id) → 1 ≤ sum_by (awaits id) net.pending

sum_by-awaits :
    {D : Type 0} (id : ℕ) (ms : List (Message D))
    → sum_by (awaits id) ms ≡ sum_by (carries id) ms + sum_by (is_start id) ms
sum_by-awaits id [] = omega arith
sum_by-awaits id (m ∷ ms) = omega (arith, sum_by-awaits id ms)

module _ {D R : Type 0} ⦃d : Double D⦄ (laws : IsOrdered D) (random : R → D × R)
    (table : RoutingTable) (topology : ℕ → Place) (sim : Simulator D) where
  -- The start of a scheduler is for its receiver.
  Effect-is_start :
      (id : ℕ) {m : Message D} {hops extra : ℕ} {s s' : Service D} {sent : List (Message D)}
      → Effect laws random table topology sim m hops extra s s' sent
      → m.receiver ≢ id
      → is_start id m ≡ 0
  Effect-is_start id {m} e other = rw (==-false m.receiver id other) (ground arith)

  -- A master that has tasks left after a delivery has sent one.
  Effect-works :
      {m : Message D} {hops extra : ℕ} {s s' : Service D} {sent : List (Message D)}
      → Effect laws random table topology sim m hops extra s s' sent
      → topology m.receiver ≡ master_place
      → 1 ≤ left_at s'
      → 1 ≤ sum_by (carries m.receiver) sent
  Effect-works (moves src dest l at time later t h ne own inner _ _ _ _ _) place left =
      absurd (inner place)
  Effect-works {m} {hops} {extra} {s} {s'} {sent}
        (takes w w' back near se se' mid got launched spent counted works) place left =
      let left' : 1 ≤ left_of w'.workload = subst (λ s. 1 ≤ left_at s) se' left in
      rw (← mid, IsLaunched-carries laws random table topology sim w.id sent launched)
        (grind (arith, works, spent, left'))

  Advances-IsBusy :
      {net net' : Network D R} {m : Message D} (before after : List (Message D)) {hops extra : ℕ}
      (id : ℕ)
      → topology id ≡ master_place
      → net.pending ≡ before ++ m ∷ after
      → Advances laws random table topology sim net m (before ++ after) hops extra net'
      → IsBusy net id
      → IsBusy net' id
  Advances-IsBusy {net} {net'} {m} before after id place pending a busy left =
      let was = ap (sum_by (awaits id)) pending ∙ sum_by_middle (awaits id) before after m in
      let is =
        ap (sum_by (awaits id)) a.queues ∙ sum_by-append (awaits id) (before ++ after) a.sent in
      let split = sum_by-awaits id a.sent in
      elim (ℕ_discrete m.receiver id) [
        | yes same ↦
            let state =
              ap net'.services (sym same) ∙ Advances-state laws random table topology sim a in
            let sends =
              Effect-works a.effect (ap topology same ∙ place)
                (subst (λ s. 1 ≤ left_at s) state left) in
            let own = subst (λ i. 1 ≤ sum_by (carries i) a.sent) same sends in
            omega (arith, is, split, own)
        | no other ↦
            let kept = Effect-other laws random table topology sim id a.effect other in
            let none = Effect-is_start id a.effect other in
            let state = Advances-state_other laws random table topology sim id a other in
            let waits = busy (subst (λ s. 1 ≤ left_at s) state left) in
            omega (arith, was, is, split, kept, none, waits)
      ]

  Step-IsBusy :
      {net net' : Network D R} (id : ℕ)
      → topology id ≡ master_place
      → IsConsistent laws random table topology sim net
      → Step random table sim net net'
      → IsBusy net id
      → IsBusy net' id
  Step-IsBusy {net} {net'} id place c (step before after m pending run) =
      let (p, ps) =
        All-split laws random table topology sim before after m
          (subst (All (IsPlaced topology table)) pending c.placed) in
      Advances-IsBusy before after id place pending
        (deliver-Advances laws random table topology sim net net' m (before ++ after) c p ps run)

  pub Reaches-IsBusy :
      {net net' : Network D R} (id : ℕ)
      → topology id ≡ master_place
      → IsConsistent laws random table topology sim net
      → Reaches random table sim net net'
      → IsBusy net id
      → IsBusy net' id
  Reaches-IsBusy id place c here busy = busy
  Reaches-IsBusy id place c (next r s) busy =
      Step-IsBusy id place (Reaches-IsConsistent laws random table topology sim c r) s
        (Reaches-IsBusy id place c r busy)

  -- A master has handed out all its tasks, and all of them have come back completed, with those that
  -- were under way or counted before; the count is modulo 2 ^ 32 as in the source.
  abbrev pub IsDone : Network D R → Network D R → ℕ → Type 0
  IsDone net net' id =
      (left_at (net'.services id) ≡ 0)
      × (u32 (completed_at (net'.services id))
          ≡ u32 (left_at (net.services id) + under_way id net + completed_at (net.services id)))

  -- When nothing is pending any more, a master that was waiting for a message as long as it had tasks
  -- left has handed out all its tasks and has counted each of them as completed.
  pub Reaches-IsDone :
      (net net' : Network D R) (id : ℕ)
      → topology id ≡ master_place
      → IsConsistent laws random table topology sim net
      → IsBusy net id
      → Reaches random table sim net net'
      → net'.pending ≡ []
      → IsDone net net' id
  Reaches-IsDone net net' id place c busy r over =
      let account = Reaches-accounted laws random table topology sim net net' id place c r in
      let quiet : sum_by (awaits id) net'.pending ≡ 0 = ap (sum_by (awaits id)) over in
      let silent : sum_by (carries id) net'.pending ≡ 0 = ap (sum_by (carries id)) over in
      let none : left_at (net'.services id) ≡ 0 =
        grind (arith, quiet, Reaches-IsBusy id place c r busy) in
      (none, omega (arith, account, none, silent))
