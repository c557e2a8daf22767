-- ===== src/Network/InTime.antt =====
-- A slave can work as long as no event has reached the largest finite time: `timeToAttend` and the
-- counters of src/service/machine.cpp.
use ispd_exa_engine.Base.{
  ℕ, ◌<◌, ◌≤◌, ◌≡◌, refl, sym, ap, ◌∙◌, subst, List, [], ◌∷◌, ◌++◌, arith, All, false, Bool-cases,
  ◌⊎◌, inl, inr, sum_by, sum_by_middle, sum_below_one,
}
use native.Mathlib.Decide.{dec_lt}
use ispd_exa_engine.Double.{Double, IsOrdered}
use ispd_exa_engine.Customer.{Message}
use ispd_exa_engine.Routing.{RoutingTable}
use ispd_exa_engine.Service.Machine.{int_max}
use ispd_exa_engine.Simulator.{Simulator, Service, link, switch, machine, master, dummy}
use ispd_exa_engine.Network.{Network, Step, step, Reaches, here, next}
use ispd_exa_engine.Network.Placement.{
  Place, dummy_place, IsAt, at_link, at_switch, at_machine, at_master, at_dummy,
}
use ispd_exa_engine.Network.Work.{HasTime, CanWork, processed_at, to_process}
use ispd_exa_engine.Network.Launch.{IsPlaced}
use ispd_exa_engine.Network.Effect.{Effect, moves, takes}
use ispd_exa_engine.Network.Load.{load, all_tasks, Reaches-all_tasks}
use ispd_exa_engine.Network.Consistent.{
  IsConsistent, All-split, Advances, deliver-Advances, Reaches-IsConsistent, update_holds,
}

module _ {D R : Type 0} ⦃d : Double D⦄ where
  -- An event is pending that is not before the largest finite time.
  pub record IsLate (net : Network D R) : Type 0 where
    pub before : List (Message D)
    pub after : List (Message D)
    pub message : Message D
    pub is_pending : net.pending ≡ before ++ message ∷ after
    pub late : d.lt message.time d.max_value ≡ false

  abbrev pub HaveTime : Network D R → Type 0
  HaveTime net = (id : ℕ) → HasTime (net.services id)

module _ {D R : Type 0} ⦃d : Double D⦄ (laws : IsOrdered D) (random : R → D × R)
    (table : RoutingTable) (topology : ℕ → Place) (sim : Simulator D) where
  -- A network on the way had an event at the largest finite time or later.
  pub record WasLate (net net' : Network D R) : Type 0 where
    pub between : Network D R
    pub reached : Reaches random table sim net between
    pub goes_on : Reaches random table sim between net'
    pub is_late : IsLate between

  -- The receiver keeps a core that is free in time, or what it sends is late.
  Effect-HasTime :
      {m : Message D} {hops extra : ℕ} {s s' : Service D} {sent : List (Message D)}
      → Effect laws random table topology sim m hops extra s s' sent
      → HasTime s
      → HasTime s' ⊎ ((x : Message D) × (sent ≡ x ∷ []) × (d.lt x.time d.max_value ≡ false))
  Effect-HasTime (moves src dest l at time later t h ne own inner _ frees _ is is_sent) free =
      elim (Bool-cases (d.lt later d.max_value)) [
        | inl early ↦ inl (frees free early)
        | inr late ↦ inr (_, is_sent, late)
      ]
  Effect-HasTime (takes w w' back near se se' mid got launched spent counted works) free =
      inl (rw se' tt)

  Advances-HaveTime :
      {net net' : Network D R} {m : Message D} {rest : List (Message D)} {hops extra : ℕ}
      → Advances laws random table topology sim net m rest hops extra net'
      → HaveTime net
      → HaveTime net' ⊎ IsLate net'
  Advances-HaveTime {net} {net'} {m} {rest} a free =
      elim (Effect-HasTime a.effect (free m.receiver)) [
        | inl ready ↦ inl λ id.
            subst (λ services. HasTime (services id)) (sym a.serves)
              (update_holds laws random table topology sim (λ id s. HasTime s) net.services
                m.receiver a.state free ready id)
        | inr (x, is_sent, late) ↦ inr (record {
          before = rest;
          after = [];
          message = x;
          is_pending = a.queues ∙ ap (λ ms. rest ++ ms) is_sent;
          late = late;
        })
      ]

  Step-HaveTime :
      {net net' : Network D R}
      → IsConsistent laws random table topology sim net
      → Step random table sim net net'
      → HaveTime net
      → HaveTime net' ⊎ IsLate net'
  Step-HaveTime {net} {net'} c (step before after m pending run) free =
      let (p, ps) =
        All-split laws random table topology sim before after m
          (subst (All (IsPlaced topology table)) pending c.placed) in
      Advances-HaveTime
        (deliver-Advances laws random table topology sim net net' m (before ++ after) c p ps run)
        free

  WasLate-next :
      {net mid net' : Network D R}
      → Step random table sim mid net'
      → WasLate net mid
      → WasLate net net'
  WasLate-next s w = record {
    between = w.between;
    reached = w.reached;
    goes_on = next w.goes_on s;
    is_late = w.is_late;
  }

  pub Reaches-HaveTime :
      {net net' : Network D R}
      → IsConsistent laws random table topology sim net
      → Reaches random table sim net net'
      → HaveTime net
      → HaveTime net' ⊎ WasLate net net'
  Reaches-HaveTime c here free = inl free
  Reaches-HaveTime {net} {net'} c (next {mid} r s) free = elim (Reaches-HaveTime c r free) [
    | inl free' ↦
        elim (Step-HaveTime (Reaches-IsConsistent laws random table topology sim c r) s free') [
          | inl still ↦ inl still
          | inr late ↦
              inr (record { between = net'; reached = next r s; goes_on = here; is_late = late })
        ]
    | inr w ↦ inr (WasLate-next s w)
  ]

  CanWork-of_HasTime : (s : Service D) → processed_at s < int_max → HasTime s → CanWork s
  CanWork-of_HasTime (machine m) room free = (room, free)
  CanWork-of_HasTime (link l) room free = tt
  CanWork-of_HasTime (switch l) room free = tt
  CanWork-of_HasTime (master l) room free = tt
  CanWork-of_HasTime (dummy l) room free = tt

  IsAt-processed_at :
      (p : Place) (id : ℕ) (s : Service D) → p ≡ dummy_place → IsAt p id s → processed_at s ≡ 0
  IsAt-processed_at p id s e (at_link l pe ide se) = absurd (ground arith)
  IsAt-processed_at p id s e (at_switch l pe ide se) = absurd (ground arith)
  IsAt-processed_at p id s e (at_machine l pe ide se) = absurd (ground arith)
  IsAt-processed_at p id s e (at_master l pe ide se) = absurd (ground arith)
  IsAt-processed_at p id s e (at_dummy pe se) = rw se refl

  -- With a task that waits for a slave no counter is full, if there are no more than `int_max` tasks.
  processed_at_bound :
      (n : ℕ) (net : Network D R) (before after : List (Message D)) (m : Message D)
      → ((id : ℕ) → ¬ (id < n) → topology id ≡ dummy_place)
      → IsConsistent laws random table topology sim net
      → all_tasks n net ≤ int_max
      → net.pending ≡ before ++ m ∷ after
      → to_process m ≡ 1
      → (id : ℕ) → processed_at (net.services id) < int_max
  processed_at_bound n net before after m beyond c few pending new id =
      let waits = ap (sum_by to_process) pending ∙ sum_by_middle to_process before after m in
      elim (dec_lt id n) [
        | yes lt ↦
            let one = sum_below_one n id (λ i. load (net.services i)) lt in
            omega (arith, few, waits, new, one)
        | no out ↦ omega (arith, IsAt-processed_at _ _ _ (beyond id out) (c.stands id))
      ]

  -- A consistent network that has nothing at the identifiers from `n`, no more tasks than an `int`
  -- counts, and on every machine free times that have all been written and one of them before the
  -- largest finite time: after any
  -- deliveries in any order, the receiver of a task that no slave has processed can work, or a network
  -- on the way had a pending event that is not before the largest finite time.
  pub Reaches-CanWork :
      (n : ℕ) (net net' : Network D R) (before after : List (Message D)) (m : Message D)
      → ((id : ℕ) → ¬ (id < n) → topology id ≡ dummy_place)
      → IsConsistent laws random table topology sim net
      → HaveTime net
      → all_tasks n net ≤ int_max
      → Reaches random table sim net net'
      → net'.pending ≡ before ++ m ∷ after
      → to_process m ≡ 1
      → CanWork (net'.services m.receiver) ⊎ WasLate net net'
  Reaches-CanWork n net net' before after m beyond c free few r pending new =
      let c' = Reaches-IsConsistent laws random table topology sim c r in
      let same = Reaches-all_tasks laws random table topology sim net net' n beyond c r in
      elim (Reaches-HaveTime c r free) [
        | inl free' ↦ inl (
            CanWork-of_HasTime (net'.services m.receiver)
              (processed_at_bound n net' before after m beyond c' (omega (arith, same, few)) pending
                new m.receiver)
              (free' m.receiver))
        | inr late ↦ inr late
      ]
