-- ===== src/Scheduler.antt =====
-- include/scheduler/scheduler.hpp, include/scheduler/round_robin.hpp and
-- src/scheduler/round_robin.cpp.
pub mod Queue
pub mod Interface
pub mod Issue
pub mod Initial
pub mod Completion
pub mod Identifiers
pub mod Tests
use ispd_exa_engine.Base.{
  ℕ, zero, suc, ◌+◌, ◌%◌, Bool, true, false, List, [], ◌∷◌, ◌++◌, if◌then◌else◌, length, get_elem?,
  Option, Result, ok, err, ◌>>=◌, ◌>>◌, or_fail, undefined_behaviour,
}
use ispd_exa_engine.Base.Int.{to_u32}
use ispd_exa_engine.Double.{Double}
use ispd_exa_engine.Szudzik.{szudzik}
use ispd_exa_engine.Customer.{Message, new_task, descriptor, send}
use ispd_exa_engine.Routing.{RoutingTable, get_route, index}
use ispd_exa_engine.Workload.{
  Workload, Drawn, get_remaining_tasks, has_remaining_workload, set_task_workload,
}

pub record RoundRobin : Type 0 where
  pub resources : List ℕ
  pub next_resource : ℕ

abbrev pub new_round_robin : RoundRobin
new_round_robin = record { resources = []; next_resource = 0 }

unfoldable pub add_resource : RoundRobin → ℕ → RoundRobin
add_resource rr resource = record rr { resources = rr.resources ++ resource ∷ [] }

-- With no resource the read is out of bounds (and the modulus is 0).
unfoldable pub schedule : RoundRobin → Result (ℕ × RoundRobin)
schedule rr = do
  resource ← or_fail (get_elem? rr.resources rr.next_resource) undefined_behaviour
  ok (resource, record rr { next_resource = (rr.next_resource + 1) % length rr.resources })

-- What handing out tasks changes: the master's workload and scheduler, the random number
-- generator, and the messages scheduled so far.
pub record Issuing (D R : Type 0) : Type 0 where
  pub workload : Workload D
  pub round_robin : RoundRobin
  pub rng : R
  pub sent : List (Message D)

module _ {D R : Type 0} ⦃d : Double D⦄ (random : R → D × R) (table : RoutingTable)
    (master_id : ℕ) where
  -- The body that `onInit`'s loop and `onCompletedTask` share: one task, to the next slave.
  unfoldable pub issue_task : D → Issuing D R → Result (Issuing D R)
  issue_task now s =
      let task_id = szudzik (to_u32 (get_remaining_tasks s.workload)) master_id in
      let drawn = set_task_workload random s.workload s.rng in
      schedule s.round_robin >>= λ pick. get_route table master_id pick.0 >>= λ route.
      index route 0 >>= λ first. ok (record {
        workload = drawn.workload;
        round_robin = pick.1;
        rng = drawn.rng;
        sent =
            s.sent
            ++ send first now (new_task task_id master_id drawn.proc_size drawn.comm_size)
                (descriptor master_id pick.0 master_id 1 true)
              ∷ [];
      })

  -- The loop of `onInit`, with the rounds that are left.
  unfoldable pub init_loop : ℕ → Issuing D R → Result (Issuing D R)
  init_loop zero s = ok s
  init_loop (suc rounds) s = elim (has_remaining_workload s.workload) [
    | true ↦ issue_task d.nought s >>= λ s'. init_loop rounds s'
    | false ↦ ok s
  ]

  -- `onInit`, when the master has a workload.
  unfoldable pub on_init : Issuing D R → Result (Issuing D R)
  unfolding init_loop
  on_init s = init_loop (length s.round_robin.resources) s

  -- `onCompletedTask`, when the master has a workload.
  unfoldable pub on_completed_task : D → Issuing D R → Result (Issuing D R)
  on_completed_task now s = if has_remaining_workload s.workload then issue_task now s else ok s
