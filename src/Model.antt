-- ===== src/Model.antt =====
-- include/model/builder.hpp and src/model/builder.cpp.
pub mod Register
pub mod Workloads
pub mod Tests
use ispd_exa_engine.Base.{
  ℕ, zero, suc, ◌+◌, Bool, true, false, List, [], ◌∷◌, if◌then◌else◌, ◌||◌, some, Option, or_fail,
  invalid_argument, Result, ok, err, ◌>>=◌, ◌>>◌, stop_if, died,
}
use ispd_exa_engine.Double.{Double, ◌⊕◌}
use ispd_exa_engine.Szudzik.{szudzik}
use ispd_exa_engine.Customer.{Message, Event, new_task, event_of_task, task_arrival}
use ispd_exa_engine.Service.Link.{new_link}
use ispd_exa_engine.Service.Switch.{new_switch}
use ispd_exa_engine.Service.Machine.{new_machine}
use ispd_exa_engine.Service.Master.{Master, new_master}
use ispd_exa_engine.Simulator.{Simulator, register_service, link, switch, machine, master, dummy}

pub data MasterScheduler : Type 0 where
  round_robin : MasterScheduler

-- `Builder::Builder`: a null pointer is an exception, and all that a builder has is its simulator.
abbrev pub new_model_builder : {D : Type 0} → Option (Simulator D) → Result (Simulator D)
new_model_builder simulator = or_fail simulator invalid_argument

module _ {D : Type 0} ⦃d : Double D⦄ where
  -- The test on load factors that the `register` functions share.
  abbrev pub is_out_of_unit : D → Bool
  is_out_of_unit load_factor = d.lt load_factor d.nought || d.lt d.one load_factor

  -- The callback finishes the master and may schedule events.
  unfoldable pub register_master :
      Simulator D
      → ℕ
      → MasterScheduler
      → (Master D → Result (Master D × List (Message D)))
      → Result (Simulator D)
  register_master sim id round_robin callback =
      register_service sim id (callback (new_master id) >>= λ out. ok (master out.0, out.1))

  unfoldable pub register_machine :
      (memory : ℕ → Option D)
      → Simulator D
      → (id : ℕ) (power load_factor : D) (cores : ℕ) → Result (Simulator D)
  register_machine memory sim id power load_factor cores =
      stop_if (d.le power d.nought) died
      >> (stop_if (is_out_of_unit load_factor) died
          >> register_service sim id
              (ok (machine (new_machine memory id power load_factor cores), [])))

  unfoldable pub register_link :
      Simulator D → (id from to : ℕ) (bandwidth load_factor latency : D) → Result (Simulator D)
  register_link sim id from to bandwidth load_factor latency =
      stop_if (is_out_of_unit load_factor) died
      >> register_service sim id (ok (link (new_link id from to bandwidth load_factor latency), []))

  -- The arguments in the order in which `construct<Switch>` gets them.
  unfoldable pub register_switch :
      Simulator D → (id : ℕ) (bandwidth load_factor latency : D) → Result (Simulator D)
  register_switch sim id bandwidth load_factor latency =
      stop_if (is_out_of_unit load_factor) died
      >> register_service sim id (ok (switch (new_switch id bandwidth load_factor latency), []))

  unfoldable pub register_dummy : Simulator D → ℕ → Result (Simulator D)
  register_dummy sim id = register_service sim id (ok (dummy id, []))

module _ {D : Type 0} ⦃d : Double D⦄ where
  -- `std::priority_queue` with `std::greater`: `top` and `pop` give the least element first.
  unfoldable pub push : D → List D → List D
  push x [] = x ∷ []
  push x (y ∷ ys) = if d.lt y x then y ∷ push x ys else x ∷ y ∷ ys

  unfoldable pub push_all : List D → List D → List D
  push_all [] queue = queue
  push_all (x ∷ xs) queue = push_all xs (push x queue)

module _ {D : Type 0} ⦃d : Double D⦄ (master_id : ℕ) (proc_size comm_size : D) where
  -- The event for the task with the given number, as both workload generators send it.
  abbrev pub generated : ℕ → D → Message D
  generated i time = record {
    receiver = master_id;
    time = time;
    event_type = task_arrival;
    event = some (event_of_task (new_task (szudzik i master_id) master_id proc_size comm_size));
  }

  -- The loops of `zeroth::addConstantSizedWorkload`, with the rounds that are left. `jitter` is the
  -- literal 1e-52.
  unfoldable pub jittered_loop : (jitter : D) → ℕ → ℕ → D → List (Message D)
  jittered_loop jitter zero i arrival_time = []
  jittered_loop jitter (suc n) i arrival_time =
      generated i arrival_time ∷ jittered_loop jitter n (i + 1) (arrival_time ⊕ jitter)

  unfoldable pub zeroth_loop : ℕ → ℕ → List (Message D)
  zeroth_loop zero i = []
  zeroth_loop (suc n) i = generated i d.nought ∷ zeroth_loop n (i + 1)

  unfoldable pub zeroth_constant_sized_workload :
      (jitter : D) → (task_amount : ℕ) → (jittered : Bool) → List (Message D)
  unfolding jittered_loop zeroth_loop
  zeroth_constant_sized_workload jitter task_amount jittered =
      if jittered then jittered_loop jitter task_amount 0 d.nought else zeroth_loop task_amount 0

  unfoldable pub drain : ℕ → List D → List (Message D)
  drain task_count [] = []
  drain task_count (t ∷ ts) = generated task_count t ∷ drain (task_count + 1) ts

  -- `exp::addConstantSizedWorkload`, on the `task_amount` values that `exp(engine)` draws.
  unfoldable pub exp_constant_sized_workload : List D → List (Message D)
  unfolding push_all drain push
  exp_constant_sized_workload draws = drain 0 (push_all draws [])
