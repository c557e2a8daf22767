-- ===== src/Service/Master/Unset.antt =====
-- src/service/master.cpp: a master whose workload was never set keeps it unset.
use ispd_exa_engine.Base.{
  ◌+◌, u32, ◌≡◌, refl, sym, ap, ◌∙◌, [], ◌∷◌, ok, err, >>=-inverts, ok_injective, Bool-cases, inl,
  inr, ◌==◌, undefined_behaviour,
}
use ispd_exa_engine.Double.{Double}
use ispd_exa_engine.Customer.{Event, Message, TaskCompletionState, just_generated, processed}
use ispd_exa_engine.Routing.{RoutingTable, get_route, index}
use ispd_exa_engine.Scheduler.{schedule}
use ispd_exa_engine.Service.Master.{
  Master, Handled, indeterminate, arrival, forward_to_origin, schedule_task, on_task_arrival,
  on_scheduler_init,
}

module _ {D R : Type 0} ⦃d : Double D⦄ (random : R → D × R) (table : RoutingTable) where
  schedule_task-workload :
      (m : Master D) (time : D) (e : Event D) (out : Master D × Message D)
      → schedule_task table m time e ≡ ok out
      → out.0.workload ≡ m.workload
  unfolding schedule_task
  schedule_task-workload m time e out ran =
      let (pick, picked, _) = >>=-inverts (schedule m.scheduler) _ ran in
      let (route, found, _) = >>=-inverts (get_route table m.id pick.0) _ picked in
      let (next, is, _) = >>=-inverts (index route 0) _ found in
      sym (ap (λ o. o.0.workload) (ok_injective is))

  arrival-unset :
      (c : TaskCompletionState) (m : Master D) (time : D) (e : Event D) (r : R) (h : Handled D R)
      → m.workload ≡ indeterminate
      → arrival random table c m time e r ≡ ok h
      → h.master.workload ≡ indeterminate
  unfolding arrival
  arrival-unset processed m time e r h unset ran =
      let m' = record m {
        last_activity_time = time;
        completed_tasks = u32 (m.completed_tasks + 1);
      } in
      elim (Bool-cases (e.task.origin == m.id)) [
        | inl own ↦ cc (rw (own, unset) at ran)
        | inr foreign ↦
            let (msg, done, _) =
              >>=-inverts (forward_to_origin table m time e)
                (λ msg. ok (record { master = m'; rng = r; sent = msg ∷ [] }))
                (rw foreign at ran) in
            sym (ap (λ h. h.master.workload) (ok_injective done)) ∙ unset
      ]
  arrival-unset just_generated m time e r h unset ran =
      let (out, done, chosen) =
        >>=-inverts (schedule_task table m time e)
          (λ out. ok (record { master = out.0; rng = r; sent = out.1 ∷ [] })) ran in
      sym (ap (λ h. h.master.workload) (ok_injective done))
      ∙ schedule_task-workload m time e out chosen
      ∙ unset

  pub on_task_arrival-unset :
      (m : Master D) (time : D) (e : Event D) (r : R) (h : Handled D R)
      → m.workload ≡ indeterminate
      → on_task_arrival random table m time e r ≡ ok h
      → h.master.workload ≡ indeterminate
  unfolding on_task_arrival
  on_task_arrival-unset m time e r h unset ran =
      arrival-unset e.task.completion_state m time e r h unset ran

  -- The start of its scheduler reads the indeterminate pointer.
  pub on_scheduler_init-unset :
      (m : Master D) (r : R)
      → m.workload ≡ indeterminate
      → on_scheduler_init random table m r ≡ err undefined_behaviour
  unfolding on_scheduler_init
  on_scheduler_init-unset m r unset = rw (on_scheduler_init, unset) refl
