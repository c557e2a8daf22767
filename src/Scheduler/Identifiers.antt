-- ===== src/Scheduler/Identifiers.antt =====
-- src/scheduler/round_robin.cpp: the identifiers of the tasks that masters hand out.
use ispd_exa_engine.Base.{
  ℕ, refl, [], ◌∷◌, ◌++◌, ok, >>=-inverts, ok_injective, ◌<◌, ◌≡◌, ◌≢◌, ap, Option, none, some,
  arith, u32_mod, sym, ◌∙◌,
}
use mathlib.Core.Option.{some-injective}
use ispd_exa_engine.Base.Int.{pos, to_u32}
use ispd_exa_engine.Double.{Double}
use ispd_exa_engine.Customer.{Message, Event}
use ispd_exa_engine.Routing.{RoutingTable, get_route, index}
use ispd_exa_engine.Szudzik.{szudzik}
use ispd_exa_engine.Szudzik.Pairing.{szudzik_injective}
use ispd_exa_engine.Workload.{get_remaining_tasks}
use ispd_exa_engine.Scheduler.{Issuing, schedule, issue_task}

module _ {D : Type 0} where
  -- The identifier of the task that a message carries.
  abbrev event_tid : Option (Event D) → Option ℕ
  event_tid none = none
  event_tid (some e) = some e.task.tid

  abbrev pub carried_tid : Message D → Option ℕ
  carried_tid m = event_tid m.event

module _ {D R : Type 0} ⦃d : Double D⦄ (random : R → D × R) (table : RoutingTable) where
  -- A task that is handed out has the identifier that its number and the master's identifier give.
  issue_task-carried_tid :
      (id : ℕ) (now : D) (s s1 : Issuing D R)
      → issue_task random table id now s ≡ ok s1
      → (m : Message D) × (s1.sent ≡ s.sent ++ m ∷ [])
        × (carried_tid m ≡ some (szudzik (to_u32 (get_remaining_tasks s.workload)) id))
  unfolding issue_task
  issue_task-carried_tid id now s s1 ran =
      let (pick, picked, _) = >>=-inverts (schedule s.round_robin) _ ran in
      let (route, found, _) = >>=-inverts (get_route table id pick.0) _ picked in
      let (first, done, _) = >>=-inverts (index route 0) _ found in
      (_, sym (ap (λ s. s.sent) (ok_injective done)), refl)

  -- Two tasks that are handed out by different masters, or by one master with different numbers of
  -- tasks left, have different identifiers, if the masters' identifiers and the numbers of tasks fit
  -- into 32 bits.
  pub issue_task_distinct :
      (id id' a b : ℕ) (now now' : D) (s s1 s' s1' : Issuing D R)
      → id < u32_mod
      → id' < u32_mod
      → a < u32_mod
      → b < u32_mod
      → ¬ ((a ≡ b) × (id ≡ id'))
      → get_remaining_tasks s.workload ≡ pos a
      → get_remaining_tasks s'.workload ≡ pos b
      → issue_task random table id now s ≡ ok s1
      → issue_task random table id' now' s' ≡ ok s1'
      → (m : Message D) × (m' : Message D) × (s1.sent ≡ s.sent ++ m ∷ [])
        × (s1'.sent ≡ s'.sent ++ m' ∷ [])
        × (carried_tid m ≢ carried_tid m')
  issue_task_distinct id id' a b now now' s s1 s' s1' hi hi' ha hb differ left left' ran ran' =
      let (m, sent, mine) = issue_task-carried_tid id now s s1 ran in
      let (m', sent', theirs) = issue_task-carried_tid id' now' s' s1' ran' in
      let small : to_u32 (pos a) ≡ a = omega (arith, ha) in
      let small' : to_u32 (pos b) ≡ b = omega (arith, hb) in
      let number : to_u32 (get_remaining_tasks s.workload) ≡ a = ap to_u32 left ∙ small in
      let number' : to_u32 (get_remaining_tasks s'.workload) ≡ b = ap to_u32 left' ∙ small' in
      (
        m,
        m',
        sent,
        sent',
        λ same.
            let keys : szudzik a id ≡ szudzik b id' = some-injective _ _ (
              ap (λ n. some (szudzik n id)) (sym number)
              ∙ sym mine
              ∙ same
              ∙ theirs
              ∙ ap (λ n. some (szudzik n id')) number') in
            differ (szudzik_injective a id b id' ha hi hb hi' keys),
      )
