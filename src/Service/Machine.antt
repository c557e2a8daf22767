-- ===== src/Service/Machine.antt =====
-- include/service/machine.hpp and src/service/machine.cpp.
pub mod Cores
pub mod Process
pub mod Forwarding
use ispd_exa_engine.Base.{
  ℕ, suc, zero, leb, ◌+◌, ◌%◌, ◌≡◌, Bool, true, false, List, [], ◌∷◌, if◌then◌else◌, ◌==◌, Option,
  none, some, set, Result, ok, err, ◌>>=◌, ◌>>◌, stop_if, or_fail, undefined_behaviour, u32, u64,
  u64_sub, ltb,
}
use ispd_exa_engine.Double.{Double, ◌⊕◌, ◌⊖◌, ◌⊗◌, ◌⊘◌}
use ispd_exa_engine.Customer.{Event, Message, RouteDescriptor, descriptor, send, Task, processed}
use ispd_exa_engine.Routing.{RoutingTable, get_route, index}
use ispd_exa_engine.Service.Queueing.{departure_time}

pub record MachineMetrics (D : Type 0) : Type 0 where
  pub last_activity_time : D
  pub proc_mflops : D
  pub proc_time : D
  pub proc_tasks : ℕ
  pub forwarded_packets : ℕ

-- `core_free_times` is the array of `m_Cores` elements; `none` is one that was never written.
pub record Machine (D : Type 0) : Type 0 where
  pub id : ℕ
  pub metrics : MachineMetrics D
  pub power_per_proc : D
  pub load_factor : D
  pub core_free_times : List (Option D)

-- `INT_MAX`: one more is signed overflow.
abbrev pub int_max : ℕ
int_max = 2147483647

module _ {D : Type 0} ⦃d : Double D⦄ where
  -- The elements of a block of `n` from the one at `i`.
  abbrev pub allocated : (ℕ → Option D) → ℕ → ℕ → List (Option D)
  allocated memory i zero = []
  allocated memory i (suc n) = memory i ∷ allocated memory (suc i) n

  -- The constructor writes no free time: they are what the block of `rs_malloc` holds, of which
  -- nothing is assumed. The number of cores is not negative.
  abbrev pub new_machine :
      (memory : ℕ → Option D) (id : ℕ) (power load_factor : D) (cores : ℕ) → Machine D
  new_machine memory id power load_factor cores = record {
    id = id;
    metrics = record {
      last_activity_time = d.nought;
      proc_mflops = d.nought;
      proc_time = d.nought;
      proc_tasks = 0;
      forwarded_packets = 0;
    };
    power_per_proc = power ⊘ d.of_nat cores;
    load_factor = load_factor;
    core_free_times = allocated memory 0 cores;
  }

  unfoldable pub time_to_process : Machine D → D → D
  time_to_process m proc_size = proc_size ⊘ ((d.one ⊖ m.load_factor) ⊗ m.power_per_proc)

  -- The loop of `timeToAttend` from core `i`: `coreIndex` is `none` until it is assigned.
  unfoldable pub attend_loop : ℕ → List (Option D) → D × Option ℕ → Result (D × Option ℕ)
  attend_loop i [] best = ok best
  attend_loop i (none ∷ ts) best = err undefined_behaviour
  attend_loop i (some t ∷ ts) best =
      attend_loop (suc i) ts (if d.lt t best.0 then (t, some i) else best)

  -- The least free time and the core that has it.
  unfoldable pub time_to_attend : Machine D → Result (D × Option ℕ)
  unfolding attend_loop
  time_to_attend m = attend_loop 0 m.core_free_times (d.max_value, none)

  unfoldable pub do_machine_packet_forwarding : RoutingTable → ℕ → D → Event D → Result (Message D)
  do_machine_packet_forwarding table machine_id time e =
      let r = e.route_descriptor in
      let new_offset = if r.forwarding_direction then u64 (r.offset + 1) else u64_sub r.offset 1 in
      get_route table r.source r.destination >>= λ route. index route r.offset >>= λ next. ok (
        send next time e.task
          (descriptor r.source r.destination machine_id new_offset r.forwarding_direction))

  -- A packet for another service.
  unfoldable pub forward :
      RoutingTable → Machine D → D → Event D → Result (Machine D × List (Message D))
  forward table m time e = do_machine_packet_forwarding table m.id time e >>= λ msg. ok (
    record m {
      metrics = record m.metrics {
        last_activity_time = time;
        forwarded_packets = u32 (m.metrics.forwarded_packets + 1);
      };
    },
    msg ∷ [],
  )

  -- The reply to the service that the packet came from.
  abbrev pub reply : Machine D → D → Event D → Message D
  reply m departure e =
      let r = e.route_descriptor in
      send r.previous_service departure (record e.task { completion_state = processed })
        (descriptor r.source r.destination m.id (u64_sub r.offset 2) false)

  -- A task for this machine. Writing to a core that was never chosen is undefined behaviour.
  unfoldable pub process : Machine D → D → Event D → Result (Machine D × List (Message D))
  unfolding time_to_process
  process m time e =
      let proc_size = e.task.proc_size in
      let proc_time = time_to_process m proc_size in
      time_to_attend m >>= λ attend.
      let departure = departure_time attend.0 time proc_time in
      stop_if (leb int_max m.metrics.proc_tasks) undefined_behaviour
      >> (or_fail attend.1 undefined_behaviour >>= λ core_index. ok (
        record m {
          metrics = record m.metrics {
            last_activity_time = time;
            proc_mflops = m.metrics.proc_mflops ⊕ proc_size;
            proc_time = m.metrics.proc_time ⊕ proc_time;
            proc_tasks = m.metrics.proc_tasks + 1;
          };
          core_free_times = set m.core_free_times core_index (some departure);
        },
        reply m departure e ∷ [],
      ))

  unfoldable pub on_task_arrival :
      RoutingTable → Machine D → D → Event D → Result (Machine D × List (Message D))
  unfolding forward process
  on_task_arrival table m time e =
      if e.route_descriptor.destination == m.id then process m time e else forward table m time e
