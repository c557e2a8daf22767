-- ===== src/Network/Travel.antt =====
-- A packet on its line moves on with every delivery: src/service/link.cpp, switch.cpp, machine.cpp.
use ispd_exa_engine.Base.{
  ℕ, zero, suc, ◌+◌, ◌≤◌, ◌≡◌, ◌≢◌, refl, sym, ap, ◌∙◌, subst, ◌⊎◌, inl, inr, true, false, arith,
  ==-true, ==-false, u64_sub, u64, ok, err, undefined_behaviour,
}
use native.Mathlib.Decide.{ℕ_discrete}
use ispd_exa_engine.Double.{Double, IsOrdered}
use ispd_exa_engine.Customer.{Task, RouteDescriptor, descriptor, send}
use ispd_exa_engine.Routing.{RoutingTable, index}
use ispd_exa_engine.Simulator.{Service, service_on_task_arrival}
use ispd_exa_engine.Network.Work.{CanWork, works_at}
use ispd_exa_engine.Network.Hops.{Passes, link_hop, relay_hop, slave_hop}
use ispd_exa_engine.Network.Placement.{
  Place, IsAt, Line, Position, to_link, to_node, back_to_link, back_to_node, depth, to_go,
  next_position, receiver_at, task_at, carried, packet, link_place, machine_place,
}

-- Each delivery brings a packet one step nearer to its master.
pub to_go-next_position :
    (last : ℕ) (pos : Position)
    → depth pos ≤ last
    → pos ≢ back_to_node 0
    → (to_go last (next_position last pos) + 1 ≡ to_go last pos)
      × (depth (next_position last pos) ≤ last)
to_go-next_position last (to_link i) h ne = omega arith
to_go-next_position last (to_node i) h ne = ground arith
to_go-next_position last (back_to_link i) h ne = omega arith
to_go-next_position last (back_to_node zero) h ne = absurd (ne refl)
to_go-next_position last (back_to_node (suc i)) h ne = omega arith

module _ {D R : Type 0} ⦃d : Double D⦄ (laws : IsOrdered D) (random : R → D × R)
    (table : RoutingTable) (topology : ℕ → Place) {src dest : ℕ}
    (l : Line topology table src dest) where
  -- What a delivery of the packet at `pos` leads to.
  abbrev pub Travels : Position → D → Task D → R → Service D → Type 0
  Travels pos time t r s =
      ((service_on_task_arrival random table s time (carried l pos t) r ≡ err undefined_behaviour)
        × (¬ CanWork s)
        × (pos ≡ to_node l.last))
      ⊎ Passes (topology (receiver_at l pos)) (receiver_at l pos) r (works_at l.last pos) s
          (λ time'. packet l (next_position l.last pos) time' t)
          (service_on_task_arrival random table s time (carried l pos t) r)

  -- The same for a message that is written out.
  abbrev Outcome : Position → D → Task D → R → Service D → ℕ → ℕ → Task D → RouteDescriptor → Type 0
  Outcome pos time t r s work receiver task h =
      ((service_on_task_arrival random table s time (carried l pos t) r ≡ err undefined_behaviour)
        × (¬ CanWork s)
        × (pos ≡ to_node l.last))
      ⊎ Passes (topology (receiver_at l pos)) (receiver_at l pos) r work s
          (λ time'. send receiver time' task h)
          (service_on_task_arrival random table s time (carried l pos t) r)

  turned :
      (i : ℕ)
      → i ≤ l.last
      → (topology (l.link i) ≡ link_place (l.node (suc i)) (l.node i))
        ⊎ (topology (l.link i) ≡ link_place (l.node i) (l.node (suc i)))
  turned i h = elim (l.wired i h) [ inl e ↦ inr e | inr e ↦ inl e ]

  -- A packet on its line that is delivered to the service there moves to the next position, with
  -- its task unchanged but for the completion state, unless it is at the end of its line and the slave
  -- there cannot work.
  pub packet-Travels :
      (pos : Position) (time : D) (t : Task D) (r : R) (s : Service D)
      → depth pos ≤ l.last
      → pos ≢ back_to_node 0
      → IsAt (topology (receiver_at l pos)) (receiver_at l pos) s
      → Travels pos time t r s
  packet-Travels (to_link i) time t r s h ne at = inr (
      link_hop random table _ (l.link i) s (l.node i) (l.node (suc i)) time
        (carried l (to_link i) t) r (l.wired i h) (l.distinct i h) refl at)
  packet-Travels (to_node i) time t r s h ne at = elim (ℕ_discrete i l.last) [
    | yes end ↦
        let here : l.node (suc i) ≡ dest = ap (λ k. l.node (suc k)) end ∙ l.ends in
        let machine_here : topology (l.node (suc i)) ≡ machine_place = ap topology here ∙ l.sink in
        let back : u64_sub (suc i) 2 ≡ u64_sub i 1 = omega arith in
        rw (==-true i l.last end) (
          subst
            (λ o.
              Outcome (to_node i) time t r s 1 (l.link i) (task_at (back_to_link i) t)
                (descriptor src dest (l.node (suc i)) o false))
            back
            (elim (slave_hop random table laws _ (l.node (suc i)) s time (carried l (to_node i) t) r
              machine_here (sym here) at) [
                | inl (fails, stuck) ↦ inl (fails, stuck, ap to_node end)
                | inr p ↦ inr p
              ]))
    | no more ↦
        let inner : suc i ≤ l.last = omega arith in
        let ahead : u64 (suc i + 1) ≡ suc (suc i) = omega (arith, l.small) in
        rw (==-false i l.last more) (
          subst
            (λ o.
              Outcome (to_node i) time t r s 0 (l.link (suc i)) (task_at (to_link (suc i)) t)
                (descriptor src dest (l.node (suc i)) o true))
            ahead
            (inr (
              relay_hop random table _ (l.node (suc i)) s time (carried l (to_node i) t) r l.route
                (l.link (suc i)) (l.relays i inner) l.routed (l.reads (suc i) inner) at)))
  ]
  packet-Travels (back_to_link i) time t r s h ne at = inr (
      link_hop random table _ (l.link i) s (l.node (suc i)) (l.node i) time
        (carried l (back_to_link i) t) r (turned i h) (λ e. l.distinct i h (sym e)) refl at)
  packet-Travels (back_to_node zero) time t r s h ne at = absurd (ne refl)
  packet-Travels (back_to_node (suc i)) time t r s h ne at =
      let inner : i ≤ l.last = omega arith in
      let here : u64_sub (suc i) 1 ≡ i = omega (arith, l.small) in
      let read = subst (λ o. index l.route o ≡ ok (l.link i)) (sym here) (l.reads i inner) in
      subst
        (λ o.
          Outcome (back_to_node (suc i)) time t r s 0 (l.link i) (task_at (back_to_link i) t)
            (descriptor src dest (l.node (suc i)) (u64_sub o 1) false))
        here
        (inr (
          relay_hop random table _ (l.node (suc i)) s time (carried l (back_to_node (suc i)) t) r
            l.route (l.link i) (l.relays i h) l.routed read at))
