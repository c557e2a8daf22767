-- ===== src/Service/Machine/Process.antt =====
-- src/service/machine.cpp: `onTaskArrival` with a task for the machine itself.
use ispd_exa_engine.Base.{
  ℕ, ◌+◌, ◌<◌, ◌≡◌, refl, true, false, [], ◌∷◌, some, arith, get_elem?, set, Bool-cases, ◌⊎◌, inl,
  inr, if◌then◌else◌, ok, err, undefined_behaviour, get_elem?-set, ◌==◌, lt_of_get_elem?, leb,
  ==-true, ◌∙◌, ap, sym, List, Option, none,
}
use ispd_exa_engine.Double.{Double, IsOrdered}
use ispd_exa_engine.Customer.{Event}
use ispd_exa_engine.Service.Queueing.{departure_time}
use ispd_exa_engine.Service.Machine.{
  Machine, time_to_attend, time_to_process, process, int_max, reply,
}
use ispd_exa_engine.Service.Machine.Cores.{
  written, set-written, IsLeast, time_to_attend-AttendsLeast, time_to_attend_unwritten,
}

module _ {D : Type 0} ⦃d : Double D⦄ where
  -- All free times have been written, and some core is free before the largest finite time.
  abbrev pub HasFreeCore : Machine D → Type 0
  HasFreeCore m =
      (ts : List D) × (m.core_free_times ≡ written ts)
      × (j : ℕ) × (u : D) × (get_elem? ts j ≡ some u)
      × (d.lt u d.max_value ≡ true)

  -- The machine can take a task: one more does not overflow its counter, and it has such a core.
  abbrev pub IsReady : Machine D → Type 0
  IsReady m = (m.metrics.proc_tasks < int_max) × HasFreeCore m

  module _ (laws : IsOrdered D) where
    -- The machine after the task has been given to core `k`.
    abbrev pub worked : Machine D → D → Event D → ℕ → D → Machine D
    worked m time e k departure = record m {
      metrics = record m.metrics {
        last_activity_time = time;
        proc_mflops = d.add m.metrics.proc_mflops e.task.proc_size;
        proc_time = d.add m.metrics.proc_time (time_to_process m e.task.proc_size);
        proc_tasks = m.metrics.proc_tasks + 1;
      };
      core_free_times = set m.core_free_times k (some departure);
    }

    pub process-worked :
        (m : Machine D) (time : D) (e : Event D) (t : D) (k : ℕ)
        → m.metrics.proc_tasks < int_max
        → time_to_attend m ≡ ok (t, some k)
        → let departure = departure_time t time (time_to_process m e.task.proc_size) in
          process m time e ≡ ok (worked m time e k departure, reply m departure e ∷ [])
    unfolding process
    process-worked m time e t k room core =
        let fits : leb int_max m.metrics.proc_tasks ≡ false = ground arith in rw (core, fits) refl

    set_core :
        (m : Machine D) (ts : List D) (k : ℕ) (departure : D)
        → m.core_free_times ≡ written ts
        → set m.core_free_times k (some departure) ≡ written (set ts k departure)
    set_core m ts k departure same =
        ap (λ xs. set xs k (some departure)) same ∙ set-written ts k departure

    -- A task that is processed, on a machine whose cores have the free times `ts`: if some core is free
    -- before the largest finite time, the task waits for the core `k` that is free first, which is then
    -- busy until the departure; the other cores keep their times; one reply leaves at the departure, and
    -- the counters grow by this task.
    pub process_lem :
        (m : Machine D) (time : D) (e : Event D) (ts : List D) (j : ℕ) (u : D)
        → m.metrics.proc_tasks < int_max
        → m.core_free_times ≡ written ts
        → get_elem? ts j ≡ some u
        → d.lt u d.max_value ≡ true
        → (k : ℕ) × (t : D) × (m' : Machine D) × (ts' : List D) × (get_elem? ts k ≡ some t)
          × IsLeast ts t
          × let departure = departure_time t time (time_to_process m e.task.proc_size) in
            (process m time e ≡ ok (m', reply m departure e ∷ []))
            × (m'.core_free_times ≡ written ts')
            × ((i : ℕ) → get_elem? ts' i ≡ (if k == i then some departure else get_elem? ts i))
            × (m'.metrics.proc_tasks ≡ m.metrics.proc_tasks + 1)
            × (m'.metrics.forwarded_packets ≡ m.metrics.forwarded_packets)
    process_lem m time e ts j u room same h free =
        let a = time_to_attend-AttendsLeast laws m ts same in
        elim a.chosen [
          | inl (k, core, at_core, _) ↦
              let departure = departure_time a.time time (time_to_process m e.task.proc_size) in
              (
                k,
                a.time,
                worked m time e k departure,
                set ts k departure,
                at_core,
                a.least,
                (
                  process-worked m time e a.time k room (a.ran ∙ ap (λ c. ok (a.time, c)) core),
                  set_core m ts k departure same,
                  λ i. get_elem?-set ts k i departure (lt_of_get_elem? k ts a.time at_core),
                  refl,
                  refl,
                ),
              )
          | inr (_, late) ↦ cc (rw late at a.least j u h, free)
        ]

    names_core :
        (m : Machine D) → HasFreeCore m → (t : D) × (k : ℕ) × (time_to_attend m ≡ ok (t, some k))
    names_core m (ts, same, j, u, at, free) =
        let a = time_to_attend-AttendsLeast laws m ts same in
        elim a.chosen [
          | inl (k, core, _, _) ↦ (a.time, k, a.ran ∙ ap (λ c. ok (a.time, c)) core)
          | inr (_, late) ↦ cc (rw late at a.least j u at, free)
        ]

    -- A free time that was never written is read.
    process_unwritten :
        (m : Machine D) (time : D) (e : Event D)
        → time_to_attend m ≡ err undefined_behaviour
        → process m time e ≡ err undefined_behaviour
    unfolding process
    process_unwritten m time e fails = rw fails refl

    -- With no core that is free before the largest finite time (with no core at all, say) the index
    -- that is written to was never assigned.
    process_no_core :
        (m : Machine D) (time : D) (e : Event D) (t : D)
        → time_to_attend m ≡ ok (t, none)
        → process m time e ≡ err undefined_behaviour
    unfolding process
    process_no_core m time e t ran = rw ran (ground arith)

    process_full :
        (m : Machine D) (time : D) (e : Event D) (t : D) (core : Option ℕ)
        → leb int_max m.metrics.proc_tasks ≡ true
        → time_to_attend m ≡ ok (t, core)
        → process m time e ≡ err undefined_behaviour
    unfolding process
    process_full m time e t core full ran = rw (ran, full) refl

    -- A machine with a core that is free in time has one after a task whose departure is in time.
    worked-HasFreeCore :
        (m : Machine D) (time : D) (e : Event D) (ts : List D) (k : ℕ) (t departure : D)
        → m.core_free_times ≡ written ts
        → get_elem? ts k ≡ some t
        → d.lt departure d.max_value ≡ true
        → HasFreeCore (worked m time e k departure)
    worked-HasFreeCore m time e ts k t departure same at_core early = (
      set ts k departure,
      set_core m ts k departure same,
      k,
      departure,
      get_elem?-set ts k k departure (lt_of_get_elem? k ts t at_core) ∙ rw (==-true k k refl) refl,
      early,
    )

    -- A machine that processes a task replies once, keeps its identifier, counts the task, and keeps
    -- some core that is free in time if it had one and the departure is in time; or it meets undefined
    -- behaviour, and that only if it is not ready.
    pub process_cases :
        (m : Machine D) (time : D) (e : Event D)
        → ((process m time e ≡ err undefined_behaviour) × ¬ IsReady m)
          ⊎ ((m' : Machine D) × (departure : D) × (process m time e
                ≡ ok (m', reply m departure e ∷ []))
              × (m'.id ≡ m.id)
              × (m'.metrics.proc_tasks ≡ m.metrics.proc_tasks + 1)
              × (HasFreeCore m → d.lt departure d.max_value ≡ true → HasFreeCore m'))
    process_cases m time e = elim (time_to_attend_unwritten m) [
      | inr fails ↦ inl (
        process_unwritten m time e fails,
        λ ready. let (t, k, named) = names_core m ready.1 in cc (sym fails ∙ named),
      )
      | inl (ts, same) ↦
          let a = time_to_attend-AttendsLeast laws m ts same in
          elim (Bool-cases (leb int_max m.metrics.proc_tasks)) [
            | inl full ↦ inl (process_full m time e a.time a.core full a.ran, λ ready. ground arith)
            | inr room ↦ elim a.chosen [
              | inl (k, core, at_core, _) ↦ inr (
                worked m time e k _,
                _,
                process-worked m time e a.time k (ground arith)
                    (a.ran ∙ ap (λ c. ok (a.time, c)) core),
                refl,
                refl,
                λ free early. worked-HasFreeCore m time e ts k a.time _ same at_core early,
              )
              | inr (none_named, late) ↦ inl (
                process_no_core m time e a.time (a.ran ∙ ap (λ c. ok (a.time, c)) none_named),
                λ ready.
                    let (t, k, named) = names_core m ready.1 in
                    cc (sym (a.ran ∙ ap (λ c. ok (a.time, c)) none_named) ∙ named),
              )
            ]
          ]
    ]
