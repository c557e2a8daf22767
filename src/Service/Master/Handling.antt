-- ===== src/Service/Master/Handling.antt =====
-- src/service/master.cpp: what a master does with completed tasks, with tasks to hand on and at the
-- start of its scheduler.
use ispd_exa_engine.Base.{
  zero, suc, sym, ◌∙◌, arith, Result, ℕ, ◌+◌, ◌≡◌, refl, [], ◌∷◌, ◌⊎◌, inl, inr, u32, ok, err,
  ◌>>=◌, ==-true, undefined_behaviour, true, length,
}
use ispd_exa_engine.Base.Int.{pos}
use ispd_exa_engine.Double.{Double}
use ispd_exa_engine.Customer.{Event, just_generated, processed, descriptor, send}
use ispd_exa_engine.Routing.{Route, RoutingTable, get_route, index}
use ispd_exa_engine.Workload.{Workload, get_remaining_tasks}
use ispd_exa_engine.Scheduler.{Issuing, on_completed_task}
use ispd_exa_engine.Scheduler.Queue.{IsValid, Rotates, schedule-Rotates}
use ispd_exa_engine.Scheduler.Issue.{IsRouted, Issues, FollowsUp, follows_up}
use ispd_exa_engine.Scheduler.Initial.{HandsOut, on_init-HandsOut}
use ispd_exa_engine.Service.Master.{
  Master, Handled, WorkloadPointer, indeterminate, null, points_to, issuing, issued, arrival,
  schedule_task, on_task_arrival, on_scheduler_init,
}

module _ {D R : Type 0} ⦃d : Double D⦄ (random : R → D × R) (table : RoutingTable) where
  -- The master once a completed task has been counted.
  abbrev pub counted : Master D → D → Master D
  counted m time = record m {
    last_activity_time = time;
    completed_tasks = u32 (m.completed_tasks + 1);
  }

  -- A completed task of this master is counted, and the scheduler's `onCompletedTask` decides what
  -- is sent and what becomes of the workload; with no workload the null or indeterminate pointer is
  -- used.
  pub on_task_arrival_own :
      (m : Master D) (time : D) (e : Event D) (r : R)
      → e.task.completion_state ≡ processed
      → e.task.origin ≡ m.id
      → ((w : Workload D) × (m.workload ≡ points_to w)
          × (on_task_arrival random table m time e r ≡ (
              on_completed_task random table m.id time (issuing random table m w r) >>= λ s.
              ok (issued random table (counted m time) s))))
        ⊎ ((on_task_arrival random table m time e r ≡ err undefined_behaviour)
            × ((m.workload ≡ null) ⊎ (m.workload ≡ indeterminate)))
  unfolding on_task_arrival
  on_task_arrival_own m time e r done own = by_pointer m.workload refl
    where
      by_pointer :
          (p : WorkloadPointer D)
          → m.workload ≡ p
          → ((w : Workload D) × (m.workload ≡ points_to w)
              × (on_task_arrival random table m time e r ≡ (
                  on_completed_task random table m.id time (issuing random table m w r) >>= λ s.
                  ok (issued random table (counted m time) s))))
            ⊎ ((on_task_arrival random table m time e r ≡ err undefined_behaviour)
                × ((m.workload ≡ null) ⊎ (m.workload ≡ indeterminate)))
      by_pointer indeterminate p = inr (rw (done, arrival, ==-true _ _ own, p), inr p)
      by_pointer null p = inr (rw (done, arrival, ==-true _ _ own, p), inl p)
      by_pointer (points_to w) p = inl (w, p, rw (done, arrival, ==-true _ _ own, p))

  -- What the completion of a task of its own leads to, if `n` tasks of the workload `w` are left.
  pub record AnswersOwn (m : Master D) (time : D) (w : Workload D) (r : R) (n : ℕ) (h : Handled D R)
      : Type 0 where
    pub same_id : h.master.id ≡ m.id
    pub counts : h.master.completed_tasks ≡ u32 (m.completed_tasks + 1)
    pub active : h.master.last_activity_time ≡ time
    pub follows :
        ((n ≡ 0)
          × (h.sent ≡ [])
          × (h.master.workload ≡ points_to w)
          × (h.master.scheduler ≡ m.scheduler))
        ⊎ ((k : ℕ) × (s : Issuing D R) × (n ≡ suc k)
            × Issues random table m.id time k (issuing random table m w r) s
            × (h.sent ≡ s.sent)
            × (h.master.workload ≡ points_to s.workload)
            × (h.master.scheduler ≡ s.round_robin))

  answers_own :
      (m : Master D) (time : D) (w : Workload D) (r : R) (n : ℕ) (res : Result (Handled D R))
      → res ≡ (
          on_completed_task random table m.id time (issuing random table m w r) >>= λ s.
          ok (issued random table (counted m time) s))
      → FollowsUp random table m.id time (issuing random table m w r) (pos n)
      → (h : Handled D R) × (res ≡ ok h) × AnswersOwn m time w r n h
  answers_own m time w r zero res same follow = (
    issued random table (counted m time) (issuing random table m w r),
    same ∙ rw follow refl,
    record { same_id = refl; counts = refl; active = refl; follows = inl (refl, refl, refl, refl) },
  )
  answers_own m time w r (suc k) res same (s, ran, one) = (
    issued random table (counted m time) s,
    same ∙ rw ran refl,
    record {
      same_id = refl;
      counts = refl;
      active = refl;
      follows = inr (k, s, refl, one, refl, refl, refl);
    },
  )

  -- A master with a workload of which `n` tasks are left, a valid index and routes to all slaves handles
  -- a completed task of its own without an error: it counts the task, and if a task is left it hands
  -- out exactly one, to the slave at the front of the queue; otherwise it sends nothing and keeps
  -- workload and queue.
  pub on_task_arrival-AnswersOwn :
      (m : Master D) (time : D) (e : Event D) (r : R) (w : Workload D) (n : ℕ)
      → e.task.completion_state ≡ processed
      → e.task.origin ≡ m.id
      → m.workload ≡ points_to w
      → get_remaining_tasks w ≡ pos n
      → IsValid m.scheduler
      → IsRouted table m.id m.scheduler
      → (h : Handled D R) × (on_task_arrival random table m time e r ≡ ok h)
        × AnswersOwn m time w r n h
  on_task_arrival-AnswersOwn m time e r w n done own has left v routes =
      elim (on_task_arrival_own m time e r done own) [
        | inl (w', has', same) ↦
            let is : w' ≡ w = ground (arith, has, has') in
            let s = issuing random table m w r in
            answers_own m time w r n (on_task_arrival random table m time e r) (rw is at same)
              (follows_up random table m.id time s (pos n) v routes left)
        | inr (_, inl missing) ↦ cc (sym has ∙ missing)
        | inr (_, inr missing) ↦ cc (sym has ∙ missing)
      ]

  -- A task that is not processed yet goes to the slave at the front of the queue, over the first
  -- element of its route; the task itself is unchanged, the workload is not used and the queue
  -- rotates.
  pub on_task_arrival_schedules :
      (m : Master D) (time : D) (e : Event D) (r : R)
      → e.task.completion_state ≡ just_generated
      → IsValid m.scheduler
      → IsRouted table m.id m.scheduler
      → (slave : ℕ) × (route : Route) × (first : ℕ) × (m' : Master D) × (get_route table m.id slave
          ≡ ok route)
        × (index route 0 ≡ ok first)
        × (on_task_arrival random table m time e r
            ≡ ok (record {
              master = m';
              rng = r;
              sent = send first time e.task (descriptor m.id slave m.id 1 true) ∷ [];
            }))
        × Rotates m.scheduler slave m'.scheduler
        × (m'.id ≡ m.id)
        × (m'.workload ≡ m.workload)
        × (m'.completed_tasks ≡ m.completed_tasks)
  unfolding on_task_arrival schedule_task
  on_task_arrival_schedules m time e r new v routes =
      let (slave, rr', run, rot) = schedule-Rotates m.scheduler v in
      let (route, first, found, at) = routes m.scheduler.next_resource slave rot.picked in
      (
        slave,
        route,
        first,
        record m { scheduler = rr'; last_activity_time = time },
        found,
        at,
        rw (new, arrival, schedule_task, run, found, at),
        rot,
        refl,
        refl,
        refl,
      )

  -- At the start of the scheduler, with a workload of `n` tasks, a valid index and routes to all
  -- slaves, the master hands out one task per slave or all `n`.
  pub on_scheduler_init-HandsOut :
      (m : Master D) (w : Workload D) (n : ℕ) (r : R)
      → m.workload ≡ points_to w
      → get_remaining_tasks w ≡ pos n
      → IsValid m.scheduler
      → IsRouted table m.id m.scheduler
      → (s : Issuing D R) × (on_scheduler_init random table m r ≡ ok (issued random table m s))
        × HandsOut random table m.id (length m.scheduler.resources) n (issuing random table m w r) s
  unfolding on_scheduler_init
  on_scheduler_init-HandsOut m w n r p left v routes =
      let (s, run, out) =
        on_init-HandsOut random table m.id n (issuing random table m w r) v routes left in
      (s, rw (p, on_scheduler_init, run), out)
