-- ===== src/Scheduler/Initial.antt =====
-- src/scheduler/round_robin.cpp: the loop of `onInit`.
use Prim.Native.Nat.{min}
use mathlib.Core.List.{append_assoc, append-nil}
use ispd_exa_engine.Base.{
  ℕ, zero, suc, ◌+◌, ◌-◌, ◌≡◌, refl, ap, ◌∙◌, sym, subst, List, [], ◌∷◌, ◌++◌, ◌≤◌, arith, length,
  ok, length-append,
}
use ispd_exa_engine.Base.Int.{pos}
use ispd_exa_engine.Double.{Double}
use ispd_exa_engine.Customer.{Message}
use ispd_exa_engine.Routing.{RoutingTable}
use ispd_exa_engine.Workload.{get_remaining_tasks}
use ispd_exa_engine.Scheduler.{Issuing, init_loop, on_init}
use ispd_exa_engine.Scheduler.Queue.{IsValid, queue, length-queue}
use ispd_exa_engine.Scheduler.Issue.{IsRouted, IsBatch, IsBatch-prefix, Issues, issue_task-Issues}

module _ {D R : Type 0} ⦃d : Double D⦄ (random : R → D × R) (table : RoutingTable) (id : ℕ) where
  -- What the loop of `onInit` does in `rounds` rounds with `n` tasks left.
  pub record HandsOut (rounds n : ℕ) (s s' : Issuing D R) : Type 0 where
    pub messages : List (Message D)
    pub sent : s'.sent ≡ s.sent ++ messages
    pub same : s'.round_robin.resources ≡ s.round_robin.resources
    pub valid : IsValid s'.round_robin
    pub count : length messages ≡ min rounds n
    pub remaining : get_remaining_tasks s'.workload ≡ pos (n - min rounds n)
    pub batch : IsBatch table id s.round_robin.resources d.nought n (queue s.round_robin) messages

  HandsOut-nothing :
      (rounds n : ℕ) (s : Issuing D R)
      → IsValid s.round_robin
      → get_remaining_tasks s.workload ≡ pos n
      → min rounds n ≡ 0
      → HandsOut rounds n s s
  HandsOut-nothing rounds n s v left none_due = record {
    messages = [];
    sent = sym (append-nil s.sent);
    same = refl;
    valid = v;
    count = omega arith;
    remaining = rw left (ap pos (omega arith));
    batch = tt;
  }

  -- The messages of the later rounds go to the slaves behind the first one.
  IsBatch-tail :
      (n : ℕ) (s s1 : Issuing D R) (one : Issues random table id d.nought n s s1)
      (ms : List (Message D))
      → IsBatch table id s1.round_robin.resources d.nought n (queue s1.round_robin) ms
      → length ms ≤ length one.tail
      → IsBatch table id s.round_robin.resources d.nought n one.tail ms
  IsBatch-tail n s s1 one ms batch few =
      IsBatch-prefix table id s.round_robin.resources d.nought n one.tail (one.slave ∷ []) ms
        (subst (λ q. IsBatch table id s.round_robin.resources d.nought n q ms) one.back
          (subst (λ rs. IsBatch table id rs d.nought n (queue s1.round_robin) ms) one.same batch))
        few

  HandsOut-cons :
      (rounds n : ℕ) (s s1 s2 : Issuing D R)
      → (one : Issues random table id d.nought n s s1) → rounds ≤ length one.tail
      → HandsOut rounds n s1 s2
      → HandsOut (suc rounds) (suc n) s s2
  HandsOut-cons rounds n s s1 s2 one short many =
      let few : length many.messages ≤ length one.tail = omega (arith, many.count) in
      record {
        messages = one.message ∷ many.messages;
        sent = many.sent ∙ rw one.sent (append_assoc s.sent (one.message ∷ []) many.messages);
        same = many.same ∙ one.same;
        valid = many.valid;
        count = omega (arith, many.count);
        remaining = many.remaining ∙ ap pos (omega arith);
        batch =
            subst
              (λ q.
                IsBatch table id s.round_robin.resources d.nought (suc n) q
                  (one.message ∷ many.messages))
              (sym one.front) (one.is_issue, IsBatch-tail n s s1 one many.messages many.batch few);
      }

  init_loop-HandsOut :
      (rounds n : ℕ) (s : Issuing D R)
      → IsValid s.round_robin
      → IsRouted table id s.round_robin
      → get_remaining_tasks s.workload ≡ pos n
      → rounds ≤ length (queue s.round_robin)
      → (s' : Issuing D R) × (init_loop random table id rounds s ≡ ok s') × HandsOut rounds n s s'
  unfolding init_loop
  init_loop-HandsOut zero n s v routes left h =
      (s, refl, HandsOut-nothing 0 n s v left (omega arith))
  init_loop-HandsOut (suc rounds) zero s v routes left h =
      (s, rw (left, init_loop), HandsOut-nothing (suc rounds) 0 s v left (omega arith))
  init_loop-HandsOut (suc rounds) (suc n) s v routes left h =
      let (s1, run, one) = issue_task-Issues random table id d.nought n s v routes left in
      let short : rounds ≤ length one.tail = omega (arith, ap length one.front) in
      let longer : length (queue s1.round_robin) ≡ length one.tail + 1 =
        omega (arith, ap length one.back, length-append one.tail (one.slave ∷ [])) in
      let (s2, rest, many) =
        init_loop-HandsOut rounds n s1 one.valid (λ i slave e. routes i slave (rw one.same at e))
          one.remaining (omega arith) in
      (s2, rw (left, run, init_loop) rest, HandsOut-cons rounds n s s1 s2 one short many)

  -- With a valid index and routes to all slaves, `onInit` hands out one task per slave, or all that
  -- are left if there are fewer: over the first elements of the routes to the slaves at the front
  -- of the queue, at time 0, numbered downwards from the tasks that are left.
  pub on_init-HandsOut :
      (n : ℕ) (s : Issuing D R)
      → IsValid s.round_robin
      → IsRouted table id s.round_robin
      → get_remaining_tasks s.workload ≡ pos n
      → (s' : Issuing D R) × (on_init random table id s ≡ ok s')
        × HandsOut (length s.round_robin.resources) n s s'
  unfolding on_init
  on_init-HandsOut n s v routes left =
      init_loop-HandsOut (length s.round_robin.resources) n s v routes left
        (omega (arith, length-queue s.round_robin v))
