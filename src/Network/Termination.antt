-- ===== src/Network/Termination.antt =====
-- The simulation ends: every delivery of src/simulator/rootsim.cpp uses up a part of what is left.
use ispd_exa_engine.Base.{
  ℕ, ◌+◌, ◌*◌, ◌≤◌, ◌<◌, ◌≡◌, ◌≢◌, sym, ap, subst, List, [], ◌∷◌, ◌++◌, arith, All, length,
  sum_below,
}
use ispd_exa_engine.Double.{Double, IsOrdered}
use ispd_exa_engine.Customer.{Message}
use ispd_exa_engine.Routing.{RoutingTable}
use ispd_exa_engine.Simulator.{Simulator}
use ispd_exa_engine.Network.{Network, Step, step, Reaches, here, next}
use ispd_exa_engine.Network.Placement.{
  Place, master_place, IsAt, to_link, to_node, back_to_link, back_to_node,
}
use ispd_exa_engine.Network.Launch.{IsPlaced, on_line, generated, starts}
use ispd_exa_engine.Network.Routes.{AreShort, Line-last}
use ispd_exa_engine.Network.Accounts.{left_at}
use ispd_exa_engine.Network.Cost.{
  rounds, cost, cost_all, Costs, Costs-append, cost_all-split, IsAt-left_at, Effect-Costs,
}
use ispd_exa_engine.Network.Conservation.{Advances-state, Advances-total}
use ispd_exa_engine.Network.Consistent.{
  IsConsistent, Advances, deliver-Advances, Reaches-IsConsistent,
}

module _ {D R : Type 0} ⦃d : Double D⦄ (random : R → D × R) (table : RoutingTable)
    (sim : Simulator D) where
  abbrev pub steps : {net net' : Network D R} → Reaches random table sim net net' → ℕ
  steps here = 0
  steps (next r s) = steps r + 1

-- The tasks that the masters below `n` have left.
abbrev pub left_below : {D R : Type 0} → ℕ → Network D R → ℕ
left_below n net = sum_below n (λ id. left_at (net.services id))

module _ {D R : Type 0} ⦃d : Double D⦄ (laws : IsOrdered D) (random : R → D × R)
    (table : RoutingTable) (topology : ℕ → Place) (sim : Simulator D) (longest n : ℕ) where
  -- All masters have identifiers below `n`.
  abbrev pub AreBelow : Type 0
  AreBelow = (id : ℕ) → topology id ≡ master_place → id < n

  -- The pending messages and the tasks that are left lead to no more than `e` deliveries.
  abbrev pub Budget : Network D R → ℕ → Type 0
  Budget net e =
      (c : ℕ) × Costs laws random table topology sim longest net.pending c
      × (c + left_below n net * rounds longest ≤ e)

  Advances-left_below :
      AreBelow
      → {net net' : Network D R} {m : Message D} {rest : List (Message D)} {hops extra : ℕ}
      → IsConsistent laws random table topology sim net
      → (a : Advances laws random table topology sim net m rest hops extra net')
      → left_below n net' + left_at (net.services m.receiver) ≡ left_below n net + left_at a.state
  Advances-left_below below {net} {net'} {m} c a =
      Advances-total laws random table topology sim left_at n
        (λ id out.
          let inner : topology id ≢ master_place = λ e. out (below id e) in
          (
            IsAt-left_at laws random table topology sim longest _ _ _ inner (c.stands id),
            IsAt-left_at laws random table topology sim longest _ _ _ inner
                (a.consistent.stands id),
          ))
        a

  pub Advances-Budget :
      AreBelow
      → AreShort longest table
      → {net net' : Network D R} {m : Message D} {rest : List (Message D)} {hops extra e : ℕ}
      → IsConsistent laws random table topology sim net
      → (qs : All (IsPlaced topology table) rest)
      → hops
          + extra * rounds longest
          + cost_all laws random table topology sim longest rest qs
          + left_below n net * rounds longest
        ≤ e
      → Advances laws random table topology sim net m rest hops extra net'
      → (e' : ℕ) × (e' < e) × Budget net' e'
  Advances-Budget below short {net} {net'} {m} {rest} {hops} {extra} {e} c qs paid a =
      let state = Advances-state laws random table topology sim a in
      let total = Advances-left_below below c a in
      let spread : (left_below n net' + left_at (net.services m.receiver)) * rounds longest
          ≡ (left_below n net + left_at a.state) * rounds longest =
        ap (λ k. k * rounds longest) total in
      let (cost_sent, costs, less) =
        Effect-Costs laws random table topology sim longest short a.effect (c.stands m.receiver)
          (subst (IsAt (topology m.receiver) m.receiver) state (a.consistent.stands m.receiver)) in
      let rest_cost = cost_all laws random table topology sim longest rest qs in
      let all =
        Costs-append laws random table topology sim longest rest a.sent rest_cost cost_sent
          (qs, omega arith) costs in
      (
        rest_cost + cost_sent + left_below n net' * rounds longest,
        grind (arith, paid, spread, less),
        (
          rest_cost + cost_sent,
          subst (λ ms. Costs laws random table topology sim longest ms (rest_cost + cost_sent))
              (sym a.queues) all,
          omega arith,
        ),
      )

  -- One step uses up a part of the budget.
  Step-Budget :
      AreBelow
      → AreShort longest table
      → {net net' : Network D R} {e : ℕ} → IsConsistent laws random table topology sim net
      → Step random table sim net net'
      → Budget net e
      → (e' : ℕ) × (e' < e) × Budget net' e'
  Step-Budget below short {net} {net'} {e} k (step before after m pending run) (c, costs, within) =
      let (ps, h) = subst (λ ms. Costs laws random table topology sim longest ms c) pending costs in
      let (p, qs, split) =
        cost_all-split laws random table topology sim longest before after m ps in
      Advances-Budget below short k qs (omega (arith, h, split, within))
        (deliver-Advances laws random table topology sim net net' m (before ++ after) k p qs run)

  Reaches-Budget :
      AreBelow
      → AreShort longest table
      → {net net' : Network D R} {e : ℕ} → IsConsistent laws random table topology sim net
      → (r : Reaches random table sim net net') → Budget net e
      → (e' : ℕ) × (steps random table sim r + e' ≤ e) × Budget net' e'
  Reaches-Budget below short {e = e} k here b = (e, omega arith, b)
  Reaches-Budget below short k (next r s) b =
      let (e1, h1, b1) = Reaches-Budget below short k r b in
      let (e2, h2, b2) =
        Step-Budget below short (Reaches-IsConsistent laws random table topology sim k r) s b1 in
      (e2, omega (arith, h1, h2), b2)

  -- Before anything is delivered each pending message counts for at most one task more than a start.
  cost_all_bound :
      AreShort longest table
      → (ms : List (Message D)) (ps : All (IsPlaced topology table) ms)
      → cost_all laws random table topology sim longest ms ps ≤ length ms * (rounds longest + 1)
  cost_all_bound short [] ps = omega arith
  cost_all_bound short (m ∷ ms) (p, ps) = omega (arith, cost_bound p, cost_all_bound short ms ps)
    where
      cost_bound :
          {m : Message D} (p : IsPlaced topology table m)
          → cost laws random table topology sim longest p ≤ rounds longest + 1
      cost_bound (on_line src dest l (to_link i) _ _ _ _ _) =
          omega (arith, Line-last longest topology table short src dest l)
      cost_bound (on_line src dest l (to_node i) _ _ _ _ _) =
          omega (arith, Line-last longest topology table short src dest l)
      cost_bound (on_line src dest l (back_to_link i) _ _ h _ _) =
          omega (arith, Line-last longest topology table short src dest l, h)
      cost_bound (on_line src dest l (back_to_node i) _ _ h _ _) =
          omega (arith, Line-last longest topology table short src dest l, h)
      cost_bound (generated _ _ _ _ _ _ _) = omega arith
      cost_bound (starts _ _ _ _ _) = omega arith

  -- The budget at the beginning.
  pub start-Budget :
      AreShort longest table
      → (net : Network D R) → IsConsistent laws random table topology sim net
      → Budget net (length net.pending * (rounds longest + 1) + left_below n net * rounds longest)
  start-Budget short net k = (
    length net.pending * (rounds longest + 1),
    (k.placed, cost_all_bound short net.pending k.placed),
    omega arith,
  )

  -- In a consistent network whose masters have identifiers below `n` and whose routes have at most
  -- `longest + 1` elements, the simulation ends in any order of the deliveries: there are no more of them
  -- than `4 * (longest + 1)` for each task that a master has left, and one more than that for each
  -- message that is pending at the beginning.
  pub steps_bound :
      AreBelow
      → AreShort longest table
      → (net net' : Network D R) → IsConsistent laws random table topology sim net
      → (r : Reaches random table sim net net')
      → steps random table sim r
        ≤ length net.pending * (rounds longest + 1) + left_below n net * rounds longest
  steps_bound below short net net' k r =
      let (e, h, _) = Reaches-Budget below short k r (start-Budget short net k) in omega (arith, h)
