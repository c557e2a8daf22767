-- ===== src/Scheduler/Issue.antt =====
-- src/scheduler/round_robin.cpp: the task that `onInit` and `onCompletedTask` hand out.
use ispd_exa_engine.Base.{
  ℕ, zero, suc, ◌≡◌, refl, ap, ◌∙◌, List, [], ◌∷◌, ◌++◌, ◌≤◌, arith, length, some, get_elem?, ok,
  true,
}
use ispd_exa_engine.Base.Int.{ℤ, pos, negsuc, to_u32, decrement}
use ispd_exa_engine.Double.{Double}
use ispd_exa_engine.Szudzik.{szudzik}
use ispd_exa_engine.Customer.{Message, new_task, descriptor, send}
use ispd_exa_engine.Routing.{Route, RoutingTable, get_route, index}
use ispd_exa_engine.Workload.{
  Workload, constant, uniform_random, get_remaining_tasks, set_task_workload,
}
use ispd_exa_engine.Scheduler.{RoundRobin, Issuing, issue_task, on_completed_task}
use ispd_exa_engine.Scheduler.Queue.{IsValid, queue, schedule-Rotates}

-- Every slave has a route from the master whose first element can be read.
abbrev pub IsRouted : RoutingTable → ℕ → RoundRobin → Type 0
IsRouted table master_id rr =
    (i slave : ℕ)
    → get_elem? rr.resources i ≡ some slave
    → (route : Route) × (first : ℕ) × (get_route table master_id slave ≡ ok route)
      × (index route 0 ≡ ok first)

module _ {D : Type 0} where
  -- The message for the task with the given number, on its way to the slave.
  pub record IsIssue (table : RoutingTable) (master_id : ℕ) (resources : List ℕ) (now : D)
      (number slave : ℕ) (m : Message D) : Type 0 where
    pub place : ℕ
    pub listed : get_elem? resources place ≡ some slave
    pub proc_size : D
    pub comm_size : D
    pub route : Route
    pub first : ℕ
    pub routed : get_route table master_id slave ≡ ok route
    pub starts : index route 0 ≡ ok first
    pub is_sent :
        m
        ≡ send first now
            (new_task (szudzik (to_u32 (pos number)) master_id) master_id proc_size comm_size)
            (descriptor master_id slave master_id 1 true)

  -- Messages to the slaves of the list, one after the other, for tasks numbered downwards.
  abbrev pub IsBatch : RoutingTable → ℕ → List ℕ → D → ℕ → List ℕ → List (Message D) → Type 0
  IsBatch table id rs now number slaves [] = Unit {0}
  IsBatch table id rs now number [] (m ∷ ms) = ⊥
  IsBatch table id rs now zero (s ∷ ss) (m ∷ ms) = ⊥
  IsBatch table id rs now (suc n) (s ∷ ss) (m ∷ ms) =
      IsIssue table id rs now (suc n) s m × IsBatch table id rs now n ss ms

  -- A batch uses as many slaves as it has messages.
  pub IsBatch-prefix :
      (table : RoutingTable) (id : ℕ) (rs : List ℕ) (now : D) (n : ℕ) (xs ys : List ℕ)
      (ms : List (Message D))
      → IsBatch table id rs now n (xs ++ ys) ms
      → length ms ≤ length xs
      → IsBatch table id rs now n xs ms
  IsBatch-prefix table id rs now n xs ys [] b h = tt
  IsBatch-prefix table id rs now n [] ys (m ∷ ms) b h = absurd (omega arith)
  IsBatch-prefix table id rs now zero (x ∷ xs) ys (m ∷ ms) b h = b
  IsBatch-prefix table id rs now (suc n) (x ∷ xs) ys (m ∷ ms) b h =
      (b.0, IsBatch-prefix table id rs now n xs ys ms b.1 (omega arith))

module _ {D R : Type 0} ⦃d : Double D⦄ (random : R → D × R) where
  pub set_task_workload-remaining :
      (w : Workload D) (r : R)
      → get_remaining_tasks (set_task_workload random w r).workload
        ≡ decrement (get_remaining_tasks w)
  unfolding set_task_workload
  set_task_workload-remaining (constant n p c) r = refl
  set_task_workload-remaining (uniform_random n p q c e) r = refl

  module _ (table : RoutingTable) (id : ℕ) where
    -- One task handed out.
    pub record Issues (now : D) (n : ℕ) (s s' : Issuing D R) : Type 0 where
      pub slave : ℕ
      pub tail : List ℕ
      pub message : Message D
      pub front : queue s.round_robin ≡ slave ∷ tail
      pub back : queue s'.round_robin ≡ tail ++ slave ∷ []
      pub same : s'.round_robin.resources ≡ s.round_robin.resources
      pub valid : IsValid s'.round_robin
      pub remaining : get_remaining_tasks s'.workload ≡ pos n
      pub sent : s'.sent ≡ s.sent ++ message ∷ []
      pub is_issue : IsIssue table id s.round_robin.resources now (suc n) slave message

    -- With a valid index, routes to all slaves and a task left, a task is handed out: to the slave at
    -- the front of the queue, over the first element of its route.
    pub issue_task-Issues :
        (now : D) (n : ℕ) (s : Issuing D R)
        → IsValid s.round_robin
        → IsRouted table id s.round_robin
        → get_remaining_tasks s.workload ≡ pos (suc n)
        → (s' : Issuing D R) × (issue_task random table id now s ≡ ok s') × Issues now n s s'
    unfolding issue_task
    issue_task-Issues now n s v routes left =
        let (slave, rr', run, rot) = schedule-Rotates s.round_robin v in
        let (route, first, found, starts) = routes s.round_robin.next_resource slave rot.picked in
        let drawn = set_task_workload random s.workload s.rng in
        let m =
          send first now
            (new_task (szudzik (to_u32 (get_remaining_tasks s.workload)) id) id drawn.proc_size
              drawn.comm_size)
            (descriptor id slave id 1 true) in
        (
          record {
            workload = drawn.workload;
            round_robin = rr';
            rng = drawn.rng;
            sent = s.sent ++ m ∷ [];
          },
          rw (run, found, starts),
          record {
            slave = slave;
            tail = rot.tail;
            message = m;
            front = rot.front;
            back = rot.back;
            same = rot.same;
            valid = rot.valid;
            remaining = set_task_workload-remaining s.workload s.rng ∙ ap decrement left;
            sent = refl;
            is_issue = record {
              place = s.round_robin.next_resource;
              listed = rot.picked;
              proc_size = drawn.proc_size;
              comm_size = drawn.comm_size;
              route = route;
              first = first;
              routed = found;
              starts = starts;
              is_sent = rw left;
            };
          },
        )

    -- What a completed task leads to, by the tasks that are left.
    abbrev pub FollowsUp : D → Issuing D R → ℤ → Type 0
    FollowsUp now s (pos zero) = on_completed_task random table id now s ≡ ok s
    FollowsUp now s (pos (suc n)) =
        (s' : Issuing D R) × (on_completed_task random table id now s ≡ ok s') × Issues now n s s'
    FollowsUp now s (negsuc n) = on_completed_task random table id now s ≡ ok s

    pub follows_up :
        (now : D) (s : Issuing D R) (k : ℤ)
        → IsValid s.round_robin
        → IsRouted table id s.round_robin
        → get_remaining_tasks s.workload ≡ k
        → FollowsUp now s k
    unfolding on_completed_task
    follows_up now s (pos zero) v routes e = rw (e, on_completed_task)
    follows_up now s (negsuc n) v routes e = rw (e, on_completed_task)
    follows_up now s (pos (suc n)) v routes e =
        let (s', run, one) = issue_task-Issues now n s v routes e in
        (s', rw (e, on_completed_task) run, one)

    -- On a completed task, with a valid index and routes to all slaves, exactly one task is handed
    -- out if one is left, and nothing happens if none is.
    pub on_completed_task_cases :
        (now : D) (s : Issuing D R)
        → IsValid s.round_robin
        → IsRouted table id s.round_robin
        → FollowsUp now s (get_remaining_tasks s.workload)
    on_completed_task_cases now s v routes =
        follows_up now s (get_remaining_tasks s.workload) v routes refl
