-- ===== src/Network/Conservation.antt =====
-- No task is lost or counted twice: src/simulator/rootsim.cpp with the handlers of src/service.
use ispd_exa_engine.Base.{
  sym, ◌<◌, sum_below, sum_below_change, sum_below-same, ℕ, ◌+◌, ◌≡◌, ◌≢◌, refl, ap, ◌∙◌, subst,
  List, ◌∷◌, ◌++◌, arith, All, u32, ==-true, ==-false, sum_by, sum_by-append, sum_by_middle,
}
use native.Mathlib.Decide.{ℕ_discrete, dec_lt}
use ispd_exa_engine.Double.{Double, IsOrdered}
use ispd_exa_engine.Customer.{Message}
use ispd_exa_engine.Routing.{RoutingTable}
use ispd_exa_engine.Simulator.{Simulator, Service}
use ispd_exa_engine.Network.{Network, Step, step, Reaches, here, next}
use ispd_exa_engine.Network.Placement.{Place, master_place}
use ispd_exa_engine.Network.Launch.{IsPlaced}
use ispd_exa_engine.Network.Accounts.{left_at, completed_at, carries, Effect-own, Effect-other}
use ispd_exa_engine.Network.Consistent.{
  IsConsistent, All-split, Advances, deliver-Advances, Reaches-IsConsistent,
}

-- The tasks of a master that the pending messages carry.
abbrev pub under_way : {D R : Type 0} → ℕ → Network D R → ℕ
under_way id net = sum_by (carries id) net.pending

-- The tasks of a master: left, under way and completed, in 32 bits as the source counts the last.
abbrev pub accounted : {D R : Type 0} → ℕ → Network D R → ℕ
accounted id net =
    u32 (left_at (net.services id) + under_way id net + completed_at (net.services id))

module _ {D R : Type 0} ⦃d : Double D⦄ (laws : IsOrdered D) (random : R → D × R)
    (table : RoutingTable) (topology : ℕ → Place) (sim : Simulator D) where
  pub Advances-state :
      {net net' : Network D R} {m : Message D} {rest : List (Message D)} {hops extra : ℕ}
      → (a : Advances laws random table topology sim net m rest hops extra net')
      → net'.services m.receiver ≡ a.state
  Advances-state {m = m} a = rw (a.serves, ==-true m.receiver m.receiver refl) refl

  pub Advances-state_other :
      {net net' : Network D R} {m : Message D} {rest : List (Message D)} {hops extra : ℕ} (id : ℕ)
      → Advances laws random table topology sim net m rest hops extra net'
      → m.receiver ≢ id
      → net'.services id ≡ net.services id
  Advances-state_other {m = m} id a other = rw (a.serves, ==-false m.receiver id other) refl

  -- A total over the services below `n`, with nothing at the others, moves with the receiver's share.
  pub Advances-total :
      (f : Service D → ℕ) (n : ℕ) {net net' : Network D R} {m : Message D} {rest : List (Message D)}
      {hops extra : ℕ}
      → ((id : ℕ) → ¬ (id < n) → (f (net.services id) ≡ 0) × (f (net'.services id) ≡ 0))
      → (a : Advances laws random table topology sim net m rest hops extra net')
      → sum_below n (λ id. f (net'.services id)) + f (net.services m.receiver)
        ≡ sum_below n (λ id. f (net.services id)) + f a.state
  Advances-total f n {net} {net'} {m} beyond a =
      let state = Advances-state a in
      let change : (i : ℕ) → m.receiver ≢ i → f (net'.services i) ≡ f (net.services i) =
        λ i other. ap f (Advances-state_other i a other) in
      elim (dec_lt m.receiver n) [
        | yes lt ↦ rw (← state) (
            sum_below_change n m.receiver (λ i. f (net'.services i)) (λ i. f (net.services i)) lt
              change)
        | no out ↦
            let (none, none') = beyond m.receiver out in
            let same =
              sum_below-same n (λ i. f (net'.services i)) (λ i. f (net.services i))
                (λ i lt. change i (λ e. out (subst (λ j. j < n) (sym e) lt))) in
            omega (arith, same, none, ap f state, none')
      ]

  Advances-accounted :
      {net net' : Network D R} {m : Message D} (before after : List (Message D)) {hops extra : ℕ}
      (id : ℕ)
      → topology id ≡ master_place
      → net.pending ≡ before ++ m ∷ after
      → Advances laws random table topology sim net m (before ++ after) hops extra net'
      → accounted id net' ≡ accounted id net
  Advances-accounted {net} {net'} {m} before after id place pending a =
      let was = ap (sum_by (carries id)) pending ∙ sum_by_middle (carries id) before after m in
      let is =
        ap (sum_by (carries id)) a.queues ∙ sum_by-append (carries id) (before ++ after) a.sent in
      elim (ℕ_discrete m.receiver id) [
        | yes same ↦
            let own =
              Effect-own laws random table topology sim a.effect (ap topology same ∙ place) in
            let moved =
              subst
                (λ i.
                  u32 (
                    left_at (net'.services i)
                    + sum_by (carries i) a.sent
                    + completed_at (net'.services i))
                  ≡ u32 (left_at (net.services i) + carries i m + completed_at (net.services i)))
                same (rw (Advances-state a) own) in
            omega (arith, was, is, moved)
        | no other ↦
            let kept = Effect-other laws random table topology sim id a.effect other in
            rw (Advances-state_other id a other) (ap u32 (omega (arith, was, is, kept)))
      ]

  Step-accounted :
      {net net' : Network D R} (id : ℕ)
      → topology id ≡ master_place
      → IsConsistent laws random table topology sim net
      → Step random table sim net net'
      → accounted id net' ≡ accounted id net
  Step-accounted {net} {net'} id place c (step before after m pending run) =
      let (p, ps) =
        All-split laws random table topology sim before after m
          (subst (All (IsPlaced topology table)) pending c.placed) in
      Advances-accounted before after id place pending
        (deliver-Advances laws random table topology sim net net' m (before ++ after) c p ps run)

  -- From a consistent network, after any deliveries in any order, a master has as many tasks left in
  -- its workload, under way and completed together as it had before, modulo 2 ^ 32 as the source
  -- counts the completed ones: no task is lost, and none is counted twice.
  pub Reaches-accounted :
      (net net' : Network D R) (id : ℕ)
      → topology id ≡ master_place
      → IsConsistent laws random table topology sim net
      → Reaches random table sim net net'
      → accounted id net' ≡ accounted id net
  Reaches-accounted net net' id place c here = refl
  Reaches-accounted net net' id place c (next {mid} r s) =
      Step-accounted id place (Reaches-IsConsistent laws random table topology sim c r) s
      ∙ Reaches-accounted net mid id place c r
