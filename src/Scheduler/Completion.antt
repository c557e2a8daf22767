-- ===== src/Scheduler/Completion.antt =====
-- src/scheduler/round_robin.cpp: `onInit` and then a call of `onCompletedTask` for each task that
-- comes back.
use Prim.Native.Nat.{min}
use ispd_exa_engine.Base.{
  ℕ, zero, suc, ◌+◌, ◌-◌, ◌≡◌, refl, ap, ◌∙◌, List, [], ◌∷◌, arith, length, length-append, Result,
  ok, ◌>>=◌,
}
use ispd_exa_engine.Base.Int.{pos}
use ispd_exa_engine.Double.{Double}
use ispd_exa_engine.Routing.{RoutingTable}
use ispd_exa_engine.Workload.{get_remaining_tasks}
use ispd_exa_engine.Scheduler.{Issuing, on_init, on_completed_task}
use ispd_exa_engine.Scheduler.Queue.{IsValid}
use ispd_exa_engine.Scheduler.Issue.{IsRouted, follows_up}
use ispd_exa_engine.Scheduler.Initial.{on_init-HandsOut}

module _ {D R : Type 0} ⦃d : Double D⦄ (random : R → D × R) (table : RoutingTable) (id : ℕ) where
  -- Tasks that come back at these times.
  unfoldable pub completions : List D → Issuing D R → Result (Issuing D R)
  completions [] s = ok s
  completions (now ∷ times) s =
      on_completed_task random table id now s >>= λ s'. completions times s'

  -- Of `n` tasks, as many as `due` are handed out, if there are so many.
  pub record Drains (n due : ℕ) (s s' : Issuing D R) : Type 0 where
    pub sent : length s'.sent ≡ length s.sent + min n due
    pub remaining : get_remaining_tasks s'.workload ≡ pos (n - min n due)

  completions-Drains :
      (times : List D) (n : ℕ) (s : Issuing D R)
      → IsValid s.round_robin
      → IsRouted table id s.round_robin
      → get_remaining_tasks s.workload ≡ pos n
      → (s' : Issuing D R) × (completions times s ≡ ok s') × Drains n (length times) s s'
  unfolding completions
  completions-Drains [] n s v routes left =
      (s, refl, record { sent = omega arith; remaining = left ∙ ap pos (omega arith) })
  completions-Drains (now ∷ times) zero s v routes left =
      let idle = follows_up random table id now s (pos 0) v routes left in
      let (s', run, out) = completions-Drains times zero s v routes left in
      (
        s',
        rw idle run,
        record { sent = omega (arith, out.sent); remaining = out.remaining ∙ ap pos (omega arith) },
      )
  completions-Drains (now ∷ times) (suc n) s v routes left =
      let (s1, first, one) = follows_up random table id now s (pos (suc n)) v routes left in
      let (s', run, out) =
        completions-Drains times n s1 one.valid (λ i slave e. routes i slave (rw one.same at e))
          one.remaining in
      (
        s',
        rw first run,
        record {
          sent =
              omega (arith, out.sent, ap length one.sent, length-append s.sent (one.message ∷ []));
          remaining = out.remaining ∙ ap pos (omega arith);
        },
      )

  -- With a valid index and routes to all slaves, the start of the scheduler and then the completion of
  -- any number of tasks hand out one task per slave and one per completion, but never more than the
  -- workload has; what is left is what has not been handed out.
  pub on_init-completions :
      (times : List D) (n : ℕ) (s : Issuing D R)
      → IsValid s.round_robin
      → IsRouted table id s.round_robin
      → get_remaining_tasks s.workload ≡ pos n
      → (s' : Issuing D R) × ((on_init random table id s >>= λ s1. completions times s1) ≡ ok s')
        × Drains n (length s.round_robin.resources + length times) s s'
  on_init-completions times n s v routes left =
      let (s1, first, out) = on_init-HandsOut random table id n s v routes left in
      let (s', run, rest) =
        completions-Drains times (n - min (length s.round_robin.resources) n) s1 out.valid
          (λ i slave e. routes i slave (rw out.same at e)) out.remaining in
      (
        s',
        rw first run,
        record {
          sent =
              omega (
                arith,
                rest.sent,
                ap length out.sent,
                length-append s.sent out.messages,
                out.count,
              );
          remaining = rest.remaining ∙ ap pos (omega arith);
        },
      )
