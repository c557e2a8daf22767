-- ===== src/Service/Master/Timing.antt =====
-- src/service/master.cpp and src/scheduler/round_robin.cpp: a master sends at the time of arrival.
use ispd_exa_engine.Base.{
  >>=-inverts, Bool-cases, inl, inr, ◌+◌, u32, ℕ, ◌≡◌, refl, ap, subst, List, [], ◌∷◌, arith,
  All-append, ◌==◌, Result, ok, err, ◌>>=◌,
}
use ispd_exa_engine.Double.{Double, ◌≼◌}
use ispd_exa_engine.Customer.{Event, Message, TaskCompletionState, just_generated, processed}
use ispd_exa_engine.Routing.{RoutingTable, get_route, index}
use ispd_exa_engine.Scheduler.{Issuing, schedule, issue_task, on_completed_task}
use ispd_exa_engine.Service.Queueing.{IsFuture}
use ispd_exa_engine.Service.Master.{
  Master, Handled, WorkloadPointer, indeterminate, null, points_to, arrival, schedule_task,
  forward_to_origin, with_workload_completed, issuing, issued, on_task_arrival,
}

module _ {D R : Type 0} ⦃d : Double D⦄ (random : R → D × R) (table : RoutingTable) (now : D)
    (now_refl : now ≼ now) where
  messages : Result (Issuing D R) → List (Message D)
  messages (ok s) = s.sent
  messages (err x) = []

  issue_task-IsFuture :
      (id : ℕ) (s s' : Issuing D R)
      → IsFuture now s.sent
      → issue_task random table id now s ≡ ok s'
      → IsFuture now s'.sent
  unfolding issue_task messages
  issue_task-IsFuture id s s' h run =
      let (pick, run1, _) = >>=-inverts (schedule s.round_robin) _ run in
      let (route, run2, _) = >>=-inverts (get_route table id pick.0) _ run1 in
      let (first, run3, _) = >>=-inverts (index route 0) _ run2 in
      subst (IsFuture now) (ap messages run3)
        (All-append (λ m. now ≼ m.time) s.sent (_ ∷ []) h (now_refl, tt))

  on_completed_task-IsFuture :
      (id : ℕ) (s s' : Issuing D R)
      → IsFuture now s.sent
      → on_completed_task random table id now s ≡ ok s'
      → IsFuture now s'.sent
  unfolding on_completed_task
  on_completed_task-IsFuture id s s' h run = ground (arith, issue_task-IsFuture id s s' h)

  completed-IsFuture :
      (m : Master D) (p : WorkloadPointer D) (r : R) (out : Handled D R)
      → with_workload_completed random table m now p r ≡ ok out
      → IsFuture now out.sent
  unfolding with_workload_completed
  completed-IsFuture m indeterminate r out run = cc
  completed-IsFuture m null r out run = cc
  completed-IsFuture m (points_to w) r out run =
      by_result (on_completed_task random table m.id now (issuing random table m w r)) refl run
    where
      by_result :
          (res : Result (Issuing D R))
          → on_completed_task random table m.id now (issuing random table m w r) ≡ res
          → (res >>= λ s. ok (issued random table m s)) ≡ ok out
          → IsFuture now out.sent
      by_result (err x) same run = cc
      by_result (ok s) same run =
          ground (arith, on_completed_task-IsFuture m.id (issuing random table m w r) s tt same)

  arrival-IsFuture :
      (state : TaskCompletionState) (m : Master D) (e : Event D) (r : R) (out : Handled D R)
      → arrival random table state m now e r ≡ ok out
      → IsFuture now out.sent
  unfolding arrival forward_to_origin schedule_task
  arrival-IsFuture processed m e r out run = elim (Bool-cases (e.task.origin == m.id)) [
    | inl own ↦
        completed-IsFuture
          (record m { last_activity_time = now; completed_tasks = u32 (m.completed_tasks + 1) })
          m.workload r out (rw own at run)
    | inr other ↦ let sent = rw other at run in ground (arith, now_refl)
  ]
  arrival-IsFuture just_generated m e r out run = ground (arith, now_refl)

  pub master-IsFuture :
      (m : Master D) (e : Event D) (r : R) (out : Handled D R)
      → on_task_arrival random table m now e r ≡ ok out
      → IsFuture now out.sent
  unfolding on_task_arrival
  master-IsFuture m e r out run = arrival-IsFuture e.task.completion_state m e r out run
