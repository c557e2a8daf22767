-- ===== src/Network/Unset.antt =====
-- A master without a workload in the network: src/service/master.cpp and src/scheduler/round_robin.cpp
-- behind the dispatcher of src/simulator/rootsim.cpp.
use ispd_exa_engine.Base.{
  ℕ, ◌+◌, ◌≤◌, ◌≡◌, ◌≢◌, refl, sym, ap, ◌∙◌, subst, List, [], ◌∷◌, ◌++◌, Option, none, some, ok,
  err, >>=-inverts, or_fail-inverts, ok_injective, Bool-cases, Option-cases, inl, inr, arith, ◌==◌,
  if◌then◌else◌, ==-true, ==-false, sum_by, sum_by-append, sum_by_middle, or_fail,
  undefined_behaviour,
}
use mathlib.Core.Option.{some-injective}
use native.Mathlib.Decide.{ℕ_discrete}
use ispd_exa_engine.Double.{Double}
use ispd_exa_engine.Customer.{Event, Message, task_arrival, task_scheduler_init, lp_init, lp_fini}
use ispd_exa_engine.Routing.{RoutingTable}
use ispd_exa_engine.UnorderedMap.{find}
use ispd_exa_engine.Service.Master
use ispd_exa_engine.Service.Master.{Master, indeterminate}
use ispd_exa_engine.Service.Master.Unset.{on_task_arrival-unset, on_scheduler_init-unset}
use ispd_exa_engine.Simulator.{
  Simulator, Service, master, get_id, Dispatched, dispatch, on_fini, on_init, on_arrival,
  on_scheduler_init, service_on_task_arrival,
}
use ispd_exa_engine.Network.{Network, deliver, settle}

module _ {D : Type 0} where
  -- A master whose workload pointer was never set.
  abbrev pub LacksWorkload : Service D → Type 0
  LacksWorkload s = (m : Master D) × (s ≡ master m) × (m.workload ≡ indeterminate)

  -- The start of the scheduler of `id`.
  abbrev pub starts : ℕ → Message D → ℕ
  starts id m =
      if m.receiver == id then (if m.event_type == task_scheduler_init then 1 else 0) else 0

  -- The initializer of `id` builds a master without a workload and schedules the start of its
  -- scheduler.
  pub record BuildsUnset (sim : Simulator D) (id : ℕ) : Type 0 where
    pub service : Service D
    pub sent : List (Message D)
    pub registered : find id sim.service_initializers ≡ some (ok (service, sent))
    pub lacks : LacksWorkload service
    pub awaited : 1 ≤ sum_by (starts id) sent

module _ {D R : Type 0} ⦃d : Double D⦄ (random : R → D × R) (table : RoutingTable)
    (sim : Simulator D) (id : ℕ) (b : BuildsUnset sim id) where
  -- The master of `id` has no workload, and the start of its scheduler is pending.
  pub record IsUnset (net : Network D R) : Type 0 where
    pub lacks : LacksWorkload (net.services id)
    pub awaited : 1 ≤ sum_by (starts id) net.pending

  pub on_init-lacks :
      (r : R) (out : Dispatched D R)
      → on_init random table sim id r ≡ ok out
      → (out.state ≡ some b.service) × (out.sent ≡ b.sent)
  unfolding on_init
  on_init-lacks r out ran = elim (Bool-cases (get_id b.service == id)) [
    | inl own ↦
        let done = ok_injective (rw (on_init, b.registered, own) at ran) in
        (sym (ap (λ o. o.state) done), sym (ap (λ o. o.sent) done))
    | inr foreign ↦ cc (rw (on_init, b.registered, foreign) at ran)
  ]

  on_arrival-lacks :
      (m : Master D) (now : D) (content : Option (Event D)) (r : R) (out : Dispatched D R)
      → m.workload ≡ indeterminate
      → on_arrival random table (some (master m)) now content r ≡ ok out
      → (s : Service D) × (out.state ≡ some s) × LacksWorkload s
  unfolding on_arrival service_on_task_arrival
  on_arrival-lacks m now none r out unset ran = cc
  on_arrival-lacks m now (some e) r out unset ran =
      let (h, done, handled) = >>=-inverts (Master.on_task_arrival random table m now e r) _ ran in
      (
        master h.master,
        sym (ap (λ o. o.state) (ok_injective done)),
        (h.master, refl, on_task_arrival-unset random table m now e r h unset handled),
      )

  on_fini-lacks :
      (s : Service D) (r : R) (out : Dispatched D R)
      → on_fini random table sim id (some s) r ≡ ok out
      → out.state ≡ some s
  unfolding on_fini
  on_fini-lacks s r out ran = elim (Option-cases (find id sim.service_finalizers)) [
    | inl missing ↦ sym (ap (λ o. o.state) (ok_injective (rw (on_fini, missing) at ran)))
    | inr (f, found) ↦
        let (printed, done, _) =
          >>=-inverts (f s) (λ _. ok (record { state = some s; rng = r; sent = [] }))
            (rw (on_fini, found) at ran) in
        sym (ap (λ o. o.state) (ok_injective done))
  ]

  pub dispatch-start :
      (s : Service D) (now : D) (t : ℕ) (content : Option (Event D)) (r : R)
      → LacksWorkload s
      → t ≡ task_scheduler_init
      → dispatch random table sim id now t content (some s) r ≡ err undefined_behaviour
  unfolding dispatch on_scheduler_init
  dispatch-start s now t content r (m, is, unset) start =
      rw (is, start, on_scheduler_init-unset random table m r unset) refl

  -- Whatever the dispatcher makes of an event at `id`, it is not the start of the scheduler, which is
  -- undefined behaviour, and the workload is still not set.
  dispatch-lacks :
      (s : Service D) (now : D) (t : ℕ) (content : Option (Event D)) (r : R) (out : Dispatched D R)
      → LacksWorkload s
      → dispatch random table sim id now t content (some s) r ≡ ok out
      → (t ≢ task_scheduler_init) × (s' : Service D) × (out.state ≡ some s') × LacksWorkload s'
  unfolding dispatch on_scheduler_init
  dispatch-lacks s now t content r out (m, is, unset) ran = elim (ℕ_discrete t lp_fini) [
    | yes fini ↦
        let done = on_fini-lacks s r out (rw (==-true _ _ fini) at ran) in
        ((λ e. omega (arith, e, fini)), s, done, (m, is, unset))
    | no no_fini ↦ elim (ℕ_discrete t lp_init) [
      | yes init ↦
          let done = on_init-lacks r out (rw (==-false _ _ no_fini, ==-true _ _ init) at ran) in
          ((λ e. omega (arith, e, init)), b.service, done.0, b.lacks)
      | no no_init ↦ elim (ℕ_discrete t task_arrival) [
        | yes arrives ↦
            let (s', state, lacks) =
              on_arrival-lacks m now content r out unset
                (rw (is, ==-false _ _ no_fini, ==-false _ _ no_init, ==-true _ _ arrives) at ran) in
            ((λ e. omega (arith, e, arrives)), s', state, lacks)
        | no other ↦ elim (ℕ_discrete t task_scheduler_init) [
          | yes start ↦ cc (sym (dispatch-start s now t content r (m, is, unset) start) ∙ ran)
          | no unknown ↦ cc (
              rw
                (
                  ==-false _ _ no_fini,
                  ==-false _ _ no_init,
                  ==-false _ _ other,
                  ==-false _ _ unknown,
                )
                at ran)
        ]
      ]
    ]
  ]

  starts-other : (m : Message D) → m.receiver ≢ id → starts id m ≡ 0
  starts-other m away = rw (==-false _ _ away) refl

  starts-no_start : (m : Message D) → m.event_type ≢ task_scheduler_init → starts id m ≡ 0
  starts-no_start m no_start = elim (Bool-cases (m.receiver == id)) [
    | inl at_id ↦ rw (at_id, ==-false _ _ no_start) refl
    | inr away ↦ rw away refl
  ]

  pub starts-start :
      (m : Message D) → 1 ≤ starts id m → (m.receiver ≡ id) × (m.event_type ≡ task_scheduler_init)
  starts-start m h = elim (ℕ_discrete m.receiver id) [
    | no away ↦ absurd (omega (arith, h, starts-other m away))
    | yes e ↦ elim (ℕ_discrete m.event_type task_scheduler_init) [
      | yes start ↦ (e, start)
      | no other ↦ absurd (omega (arith, h, starts-no_start m other))
    ]
  ]

  pub settle-IsUnset :
      (net net' : Network D R) (i : ℕ) (rest : List (Message D)) (out : Dispatched D R)
      → settle random table sim net i rest out ≡ ok net'
      → (i ≡ id → (s : Service D) × (out.state ≡ some s) × LacksWorkload s)
      → (i ≢ id → LacksWorkload (net.services id))
      → 1 ≤ sum_by (starts id) rest + sum_by (starts id) out.sent
      → IsUnset net'
  settle-IsUnset net net' i rest out settled at_id elsewhere awaited =
      let (s, done, is_state) = >>=-inverts (or_fail out.state undefined_behaviour) _ settled in
      let services = ap (λ n. n.services id) (sym (ok_injective done)) in
      let pending = ap (λ n. sum_by (starts id) n.pending) (sym (ok_injective done)) in
      record {
        lacks = elim (ℕ_discrete i id) [
          | yes e ↦
              let (s', state, lacks) = at_id e in
              let same = sym (or_fail-inverts out.state undefined_behaviour is_state) ∙ state in
              subst LacksWorkload (sym (services ∙ rw (==-true _ _ e) (some-injective _ _ same)))
                lacks
          | no ne ↦ subst LacksWorkload (sym (services ∙ rw (==-false _ _ ne) refl)) (elsewhere ne)
        ];
        awaited = omega (arith, pending, sum_by-append (starts id) rest out.sent, awaited);
      }

  -- A delivery keeps it so, as that of the start is undefined behaviour.
  pub deliver-IsUnset :
      (net net' : Network D R) (before after : List (Message D)) (m : Message D)
      → IsUnset net
      → net.pending ≡ before ++ m ∷ after
      → deliver random table sim net m (before ++ after) ≡ ok net'
      → IsUnset net'
  unfolding deliver
  deliver-IsUnset net net' before after m u e ran =
      let (out, settled, handled) =
        >>=-inverts
          (dispatch random table sim m.receiver m.time m.event_type m.event
            (some (net.services m.receiver)) net.rng)
          _ ran in
      let whole = ap (sum_by (starts id)) e ∙ sum_by_middle (starts id) before after m in
      let awaits : starts id m ≡ 0
          → 1 ≤ sum_by (starts id) (before ++ after) + sum_by (starts id) out.sent =
        λ none. omega (arith, whole, u.awaited, none) in
      elim (ℕ_discrete m.receiver id) [
        | yes e ↦
            let (no_start, s', state, lacks) =
              dispatch-lacks (net.services id) m.time m.event_type m.event net.rng out u.lacks
                (rw e at handled) in
            settle-IsUnset net net' m.receiver (before ++ after) out settled
              (λ _. (s', state, lacks)) (λ away. u.lacks) (awaits (starts-no_start m no_start))
        | no away ↦
            settle-IsUnset net net' m.receiver (before ++ after) out settled (λ e. absurd (away e))
              (λ _. u.lacks) (awaits (starts-other m away))
      ]
