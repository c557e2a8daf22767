-- ===== src/Network/Cost.antt =====
-- How many deliveries of src/simulator/rootsim.cpp a pending message can lead to, and that what a
-- delivery sends leads to fewer.
use ispd_exa_engine.Base.{
  ℕ, ◌+◌, ◌*◌, ◌≤◌, ◌<◌, ◌≡◌, ◌≢◌, refl, sym, ap, subst, List, [], ◌∷◌, ◌++◌, arith, All, length,
}
use ispd_exa_engine.Double.{Double, IsOrdered}
use ispd_exa_engine.Customer.{Message}
use ispd_exa_engine.Routing.{RoutingTable}
use ispd_exa_engine.Simulator.{Simulator, Service}
use ispd_exa_engine.Network.Placement.{
  Place, master_place, IsAt, next_position, to_link, to_node, back_to_link, back_to_node, to_go,
  at_link, at_switch, at_machine, at_master, at_dummy,
}
use ispd_exa_engine.Network.Routes.{AreShort, Line-last}
use ispd_exa_engine.Network.Travel.{to_go-next_position}
use ispd_exa_engine.Network.Launch.{IsPlaced, IsLaunched, on_line, generated, starts}
use ispd_exa_engine.Network.Home.{left_of}
use ispd_exa_engine.Network.Accounts.{left_at}
use ispd_exa_engine.Network.Effect.{hops_of, extra_of, Effect, moves, takes}

-- Tasks that are sent instead of being left or handed on are paid for.
spent_rounds :
    (left' sent left extra hops k : ℕ)
    → 1 ≤ hops
    → left' + sent ≡ left + extra
    → sent * k + left' * k < hops + extra * k + left * k
spent_rounds left' sent left extra hops k near spent =
    let paid : (left' + sent) * k ≡ (left + extra) * k = ap (λ n. n * k) spent in
    grind (arith, near, paid)

-- The deliveries for one task on lines of at most `longest + 1` links.
abbrev pub rounds : ℕ → ℕ
rounds longest = 4 * (longest + 1)

module _ {D R : Type 0} ⦃d : Double D⦄ (laws : IsOrdered D) (random : R → D × R)
    (table : RoutingTable) (topology : ℕ → Place) (sim : Simulator D) (longest : ℕ) where
  -- The deliveries that a placed message can lead to, but for the tasks that are left.
  abbrev pub cost : {m : Message D} → IsPlaced topology table m → ℕ
  cost p =
      hops_of laws random table topology sim p
      + extra_of laws random table topology sim p * rounds longest

  abbrev pub cost_all : (ms : List (Message D)) → All (IsPlaced topology table) ms → ℕ
  cost_all [] ps = 0
  cost_all (m ∷ ms) (p, ps) = cost p + cost_all ms ps

  -- The delivery of the message itself counts.
  pub cost_positive : {m : Message D} (p : IsPlaced topology table m) → 1 ≤ cost p
  cost_positive (on_line src dest l (to_link i) _ _ h _ _) = omega (arith, h)
  cost_positive (on_line src dest l (to_node i) _ _ h _ _) = omega (arith, h)
  cost_positive (on_line src dest l (back_to_link i) _ _ h _ _) = omega arith
  cost_positive (on_line src dest l (back_to_node i) _ _ h _ _) = omega arith
  cost_positive (generated _ _ _ _ _ _ _) = omega arith
  cost_positive (starts _ _ _ _ _) = omega arith

  -- All pending messages are placed and lead to no more than `e` deliveries.
  abbrev pub Costs : List (Message D) → ℕ → Type 0
  Costs ms e = (ps : All (IsPlaced topology table) ms) × (cost_all ms ps ≤ e)

  pub Costs-append :
      (xs ys : List (Message D)) (a b : ℕ) → Costs xs a → Costs ys b → Costs (xs ++ ys) (a + b)
  Costs-append [] ys a b (ps, h) (qs, k) = (qs, omega (arith, h, k))
  Costs-append (x ∷ xs) ys a b ((p, ps), h) (qs, k) =
      let (rs, e) = Costs-append xs ys (cost_all xs ps) b (ps, omega arith) (qs, k) in
      ((p, rs), omega (arith, e, h))

  pub cost_all-split :
      (before after : List (Message D)) (m : Message D)
      (ps : All (IsPlaced topology table) (before ++ m ∷ after))
      → (p : IsPlaced topology table m) × (qs : All (IsPlaced topology table) (before ++ after))
        × (cost_all (before ++ m ∷ after) ps ≡ cost p + cost_all (before ++ after) qs)
  cost_all-split [] after m (p, ps) = (p, ps, refl)
  cost_all-split (b ∷ bs) after m (p, ps) =
      let (q, qs, e) = cost_all-split bs after m ps in (q, (p, qs), omega (arith, e))

  pub IsAt-left_at :
      (p : Place) (id : ℕ) (s : Service D) → p ≢ master_place → IsAt p id s → left_at s ≡ 0
  IsAt-left_at p id s ne (at_link l pe ide se) = rw se refl
  IsAt-left_at p id s ne (at_switch l pe ide se) = rw se refl
  IsAt-left_at p id s ne (at_machine l pe ide se) = rw se refl
  IsAt-left_at p id s ne (at_master l pe ide se) = absurd (ne pe)
  IsAt-left_at p id s ne (at_dummy pe se) = rw se refl

  -- A packet that leaves its master.
  IsLaunched-cost :
      AreShort longest table
      → (src : ℕ) (m : Message D) → IsLaunched topology table src m
      → (q : IsPlaced topology table m) × (cost q ≤ rounds longest)
  IsLaunched-cost short src m p = (
    on_line src p.dest p.line (to_link 0) p.time p.task (omega arith) p.own p.is_sent,
    omega (arith, Line-last longest topology table short src p.dest p.line),
  )

  IsLaunched-Costs :
      AreShort longest table
      → (src : ℕ) (ms : List (Message D)) → All (IsLaunched topology table src) ms
      → Costs ms (length ms * rounds longest)
  IsLaunched-Costs short src [] ps = (tt, omega arith)
  IsLaunched-Costs short src (m ∷ ms) (p, ps) =
      let (q, h) = IsLaunched-cost short src m p in
      let (qs, k) = IsLaunched-Costs short src ms ps in ((q, qs), omega (arith, h, k))

  -- What a delivery sends, with what its receiver has left, leads to fewer deliveries.
  pub Effect-Costs :
      AreShort longest table
      → {m : Message D} {hops extra : ℕ} {s s' : Service D} {sent : List (Message D)}
      → Effect laws random table topology sim m hops extra s s' sent
      → IsAt (topology m.receiver) m.receiver s
      → IsAt (topology m.receiver) m.receiver s'
      → (c : ℕ) × Costs sent c
        × (c + left_at s' * rounds longest
            < hops + extra * rounds longest + left_at s * rounds longest)
  Effect-Costs short {m} {hops} {extra} {s} {s'} {sent}
        (moves src dest l at time later t h ne own inner _ _ far is is_sent) stands stands' =
      let (near, inside) = to_go-next_position l.last at h ne in
      let none = IsAt-left_at _ _ s inner stands in
      let none' = IsAt-left_at _ _ s' inner stands' in
      (
        to_go l.last (next_position l.last at),
        subst (λ ms. Costs ms (to_go l.last (next_position l.last at))) (sym is_sent)
            (
              (on_line src dest l (next_position l.last at) later t inside own refl, tt),
              omega arith,
            ),
        rw (none, none') (omega (arith, near, far)),
      )
  Effect-Costs short {m} {hops} {extra} {s} {s'} {sent}
        (takes w w' back near se se' mid got launched spent counted works) stands stands' =
      let left : left_at s ≡ left_of w.workload = rw se refl in
      let left' : left_at s' ≡ left_of w'.workload = rw se' refl in
      (
        length sent * rounds longest,
        IsLaunched-Costs short w.id sent launched,
        rw (left, left')
            (spent_rounds (left_of w'.workload) (length sent) (left_of w.workload) extra hops
              (rounds longest) near spent),
      )
