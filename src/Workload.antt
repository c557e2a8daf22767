-- ===== src/Workload.antt =====
-- include/workload/workload.hpp: the workloads that a master hands out task by task.
use ispd_exa_engine.Base.{Bool}
use ispd_exa_engine.Base.Int.{ℤ, is_positive, decrement}
use ispd_exa_engine.Double.{Double, ◌⊕◌, ◌⊖◌, ◌⊗◌}

-- The two subclasses; the first field is `m_TaskAmount`.
pub data Workload (D : Type 0) : Type 0 where
  constant : ℤ → D → D → Workload D
  uniform_random : ℤ → (min_proc max_proc min_comm max_comm : D) → Workload D

-- What a call of `setTaskWorkload` leaves behind: its two output parameters, the workload, and the
-- state of the simulator's random number generator.
pub record Drawn (D R : Type 0) : Type 0 where
  pub proc_size : D
  pub comm_size : D
  pub workload : Workload D
  pub rng : R

module _ {D : Type 0} where
  abbrev pub get_remaining_tasks : Workload D → ℤ
  get_remaining_tasks (constant n p c) = n
  get_remaining_tasks (uniform_random n p q c e) = n

  abbrev pub has_remaining_workload : Workload D → Bool
  has_remaining_workload w = is_positive (get_remaining_tasks w)

-- `Random()` is the simulator's: it takes the generator's state to a value and the next state.
module _ {D R : Type 0} ⦃d : Double D⦄ (random : R → D × R) where
  unfoldable pub set_task_workload : Workload D → R → Drawn D R
  set_task_workload (constant n p c) r = record {
    proc_size = p;
    comm_size = c;
    workload = constant (decrement n) p c;
    rng = r;
  }
  set_task_workload (uniform_random n p q c e) r =
      let (u, r') = random r in
      let (v, r'') = random r' in
      record {
        proc_size = u ⊗ (q ⊖ p) ⊕ p;
        comm_size = v ⊗ (e ⊖ c) ⊕ c;
        workload = uniform_random (decrement n) p q c e;
        rng = r'';
      }
