-- ===== src/Network/Home.antt =====
-- A packet at its master, a generated task at a master and the start of a scheduler:
-- src/service/master.cpp and src/scheduler/round_robin.cpp on a network with lines to all slaves.
use ispd_exa_engine.Base.{
  u32, ◌+◌, length, ap, ℕ, zero, suc, ◌≤◌, ◌≡◌, refl, sym, ◌∙◌, subst, inl, inr, arith, All, Result,
  ok, ◌>>=◌,
}
use Prim.Native.Nat.{min}
use ispd_exa_engine.Base.Int.{pos_part, pos}
use ispd_exa_engine.Double.{Double}
use ispd_exa_engine.Customer.{Event, just_generated, processed}
use ispd_exa_engine.Routing.{RoutingTable}
use ispd_exa_engine.Workload.{Workload, get_remaining_tasks}
use ispd_exa_engine.Scheduler.{on_completed_task}
use ispd_exa_engine.Scheduler.Issue.{follows_up}
use ispd_exa_engine.Service.Master.{
  WorkloadPointer, indeterminate, null, Master, Handled, points_to, issuing, issued,
  on_task_arrival, on_scheduler_init,
}
use ispd_exa_engine.Service.Master.Handling.{
  counted, on_task_arrival_own, on_task_arrival_schedules, on_scheduler_init-HandsOut,
}
use ispd_exa_engine.Network.Placement.{Place}
use ispd_exa_engine.Network.Launch.{
  IsRunning, IsLaunched, IsRouted-of_lines, IsLaunched-of_first, IsLaunched-of_issue,
  IsLaunched-of_batch, IsRunning-of_same,
}

-- The tasks of its workload that a master has not handed out yet.
abbrev pub left_of : {D : Type 0} → WorkloadPointer D → ℕ
left_of indeterminate = 0
left_of null = 0
left_of (points_to w) = pos_part (get_remaining_tasks w)

left_of-points_to :
    {D : Type 0} (p : WorkloadPointer D) (w : Workload D) (n : ℕ)
    → p ≡ points_to w
    → get_remaining_tasks w ≡ pos n
    → left_of p ≡ n
left_of-points_to p w n e f = rw (e, f) refl

module _ {D R : Type 0} ⦃d : Double D⦄ (random : R → D × R) (table : RoutingTable)
    (topology : ℕ → Place) where
  -- A handler of a master that succeeds, keeps the master running and sends packets to its slaves. It
  -- has got `back` completed tasks and `extra` tasks to hand on: what is sent comes from the workload
  -- or is handed on, and something is sent unless nothing is left.
  pub record Settles (m : Master D) (back extra : ℕ) (res : Result (Handled D R)) : Type 0 where
    pub handled : Handled D R
    pub ran : res ≡ ok handled
    pub running : IsRunning topology table handled.master
    pub same_id : handled.master.id ≡ m.id
    pub launched : All (IsLaunched topology table m.id) handled.sent
    pub spent : left_of handled.master.workload + length handled.sent ≡ left_of m.workload + extra
    pub counted : u32 handled.master.completed_tasks ≡ u32 (m.completed_tasks + back)
    pub works : (length handled.sent ≡ 0) → left_of m.workload + extra ≡ 0

  follow_up-Settles :
      (m : Master D) (time : D) (r : R) (w : Workload D) (n : ℕ)
      → IsRunning topology table m
      → m.workload ≡ points_to w
      → get_remaining_tasks w ≡ pos n
      → Settles m 1 0 (
          on_completed_task random table m.id time (issuing random table m w r) >>= λ s.
          ok (issued random table (counted random table m time) s))
  follow_up-Settles m time r w zero run has left =
      let same =
        follows_up random table m.id time (issuing random table m w r) (pos 0) run.valid
          (IsRouted-of_lines topology table m run) left in
      let was = left_of-points_to m.workload w 0 has left in
      record {
        handled = issued random table (counted random table m time) (issuing random table m w r);
        ran = rw same;
        running = IsRunning-of_same topology table m _ w 0 run refl refl refl left run.valid;
        same_id = refl;
        launched = tt;
        spent = omega (arith, was, left_of-points_to (points_to w) w 0 refl left);
        counted = omega arith;
        works = λ _. omega (arith, was);
      }
  follow_up-Settles m time r w (suc n) run has left =
      let (s, ran, one) =
        follows_up random table m.id time (issuing random table m w r) (pos (suc n)) run.valid
          (IsRouted-of_lines topology table m run) left in
      let was = left_of-points_to m.workload w (suc n) has left in
      let single : length s.sent ≡ 1 = ap length one.sent in
      record {
        handled = issued random table (counted random table m time) s;
        ran = rw ran;
        running =
            IsRunning-of_same topology table m _ s.workload n run refl one.same refl one.remaining
              one.valid;
        same_id = refl;
        launched = subst (All (IsLaunched topology table m.id)) (sym one.sent) (
          IsLaunched-of_issue topology table m run time (suc n) one.slave one.message one.is_issue,
          tt,
        );
        spent = omega (
          arith,
          was,
          single,
          left_of-points_to (points_to s.workload) s.workload n refl one.remaining,
        );
        counted = omega arith;
        works = λ none. absurd (omega (arith, single, none));
      }

  -- A completed task at its master is counted, and the task that follows it is on its line.
  pub home-Settles :
      (m : Master D) (time : D) (e : Event D) (r : R)
      → IsRunning topology table m
      → e.task.completion_state ≡ processed
      → e.task.origin ≡ m.id
      → Settles m 1 0 (on_task_arrival random table m time e r)
  home-Settles m time e r run done own =
      elim (on_task_arrival_own random table m time e r done own) [
        | inl (w, has, same) ↦
            let w_work : w ≡ run.work = ground (arith, run.has_work) in
            let left : get_remaining_tasks w ≡ pos run.tasks = rw w_work run.left in
            subst (Settles m 1 0) (sym same) (follow_up-Settles m time r w run.tasks run has left)
        | inr (_, inl missing) ↦ absurd (ground (arith, run.has_work))
        | inr (_, inr missing) ↦ absurd (ground (arith, run.has_work))
      ]

  -- A generated task at a running master leaves on the line of the slave at the front of the queue.
  pub generated-Settles :
      (m : Master D) (time : D) (e : Event D) (r : R)
      → IsRunning topology table m
      → e.task.completion_state ≡ just_generated
      → e.task.origin ≡ m.id
      → Settles m 0 1 (on_task_arrival random table m time e r)
  generated-Settles m time e r run new own =
      let (slave, route, first, m', found, at, ran, rot, same_id, same_work, same_count) =
        on_task_arrival_schedules random table m time e r new run.valid
          (IsRouted-of_lines topology table m run) in
      record {
        handled = _;
        ran = ran;
        running =
            IsRunning-of_same topology table m m' run.work run.tasks run same_id rot.same
              (same_work ∙ run.has_work) run.left rot.valid;
        same_id = same_id;
        launched = (
          IsLaunched-of_first topology table m.id slave
              (run.lines m.scheduler.next_resource slave rot.picked) route first time e.task own new
              found at,
          tt,
        );
        spent = ap (λ p. left_of p + 1) same_work;
        counted = omega (arith, same_count);
        works = λ none. absurd (omega (arith, none));
      }

  -- At the start of its scheduler a running master sends its first tasks on their lines.
  pub start-Settles :
      (m : Master D) (r : R)
      → IsRunning topology table m
      → Settles m 0 0 (on_scheduler_init random table m r)
  start-Settles m r run =
      let (s, ran, out) =
        on_scheduler_init-HandsOut random table m run.work run.tasks r run.has_work run.left
          run.valid (IsRouted-of_lines topology table m run) in
      let was = left_of-points_to m.workload run.work run.tasks run.has_work run.left in
      let is = left_of-points_to (points_to s.workload) s.workload _ refl out.remaining in
      let some_slave : 1 ≤ length m.scheduler.resources = omega (arith, run.valid) in
      let number : length s.sent ≡ min (length m.scheduler.resources) run.tasks =
        ap length out.sent ∙ out.count in
      record {
        handled = issued random table m s;
        ran = ran;
        running =
            IsRunning-of_same topology table m _ s.workload _ run refl out.same refl out.remaining
              out.valid;
        same_id = refl;
        launched =
            subst (All (IsLaunched topology table m.id)) (sym out.sent) (
              IsLaunched-of_batch topology table m run d.nought run.tasks _ out.messages out.batch);
        spent = omega (arith, was, is, number);
        counted = omega arith;
        works = λ none. omega (arith, was, number, none, some_slave);
      }
