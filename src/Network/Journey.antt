-- ===== src/Network/Journey.antt =====
-- A packet from its master to the slave and back: src/service/link.cpp, switch.cpp and machine.cpp
-- behind the dispatcher, one delivery after the other.
use ispd_exa_engine.Base.{
  ℕ, zero, suc, ◌+◌, ◌*◌, ◌≤◌, ◌≡◌, ◌≢◌, sym, ap, ◌∙◌, subst, inl, inr, arith, ==-true, ==-false,
  [], ◌∷◌, Result, ok, err, ◌>>=◌, undefined_behaviour,
}
use native.Mathlib.Decide.{ℕ_discrete}
use ispd_exa_engine.Double.{Double, IsOrdered}
use ispd_exa_engine.Customer.{Task, Message}
use ispd_exa_engine.Routing.{RoutingTable}
use ispd_exa_engine.Simulator.{Simulator, Service, service_on_task_arrival, dispatch, on_arrival}
use ispd_exa_engine.Network.{Network, deliver, update}
use ispd_exa_engine.Network.Placement.{
  Place, IsAt, Line, Position, to_link, to_node, back_to_link, back_to_node, depth, to_go,
  next_position, receiver_at, packet, carried, machine_place,
}
use ispd_exa_engine.Network.Work.{CanWork, works_at}
use ispd_exa_engine.Network.Hops.{Passes}
use ispd_exa_engine.Network.Travel.{packet-Travels, to_go-next_position}

module _ {D R : Type 0} ⦃d : Double D⦄ (random : R → D × R) (table : RoutingTable)
    (sim : Simulator D) where
  -- Delivers a message, and then as many times the one message that the delivery has sent.
  unfoldable pub carry : ℕ → Network D R → Message D → Result (Network D R × Message D)
  carry zero net m = ok (net, m)
  carry (suc n) net m = deliver random table sim net m [] >>= λ net'. elim net'.pending [
    | [] ↦ err undefined_behaviour
    | m' ∷ ms ↦ carry n net' m'
  ]

module _ {D R : Type 0} ⦃d : Double D⦄ (laws : IsOrdered D) (random : R → D × R)
    (table : RoutingTable) (topology : ℕ → Place) (sim : Simulator D) {src dest : ℕ}
    (l : Line topology table src dest) where
  -- Every service is of its class.
  abbrev pub Stands : (ℕ → Service D) → Type 0
  Stands services = (id : ℕ) → IsAt (topology id) id (services id)

  -- The slave can work if the packet has not been there yet.
  abbrev Waits : Position → (ℕ → Service D) → Type 0
  Waits (to_link i) services = CanWork (services dest)
  Waits (to_node i) services = CanWork (services dest)
  Waits (back_to_link i) services = Unit
  Waits (back_to_node i) services = Unit

  -- The network after the delivery of a packet alone.
  abbrev moved : Network D R → Position → Task D → Service D → R → D → Network D R
  moved net pos t s r later = record {
    services = update random table sim net.services (receiver_at l pos) s;
    rng = r;
    pending = packet l (next_position l.last pos) later t ∷ [];
  }

  -- Where the packet is after a delivery, and what the network has become.
  record Moves (net : Network D R) (pos : Position) (time : D) (t : Task D) : Type 0 where
    state : Service D
    rng : R
    later : D
    ran :
        deliver random table sim net (packet l pos time t) [] ≡ ok (moved net pos t state rng later)
    stays : IsAt (topology (receiver_at l pos)) (receiver_at l pos) state

  Moves-of_Passes :
      (net : Network D R) (pos : Position) (time : D) (t : Task D)
      → Passes
          (topology (receiver_at l pos))
          (receiver_at l pos)
          net.rng
          (works_at l.last pos)
          (net.services (receiver_at l pos))
          (λ later. packet l (next_position l.last pos) later t)
          (service_on_task_arrival random table
            (net.services (receiver_at l pos))
            time
            (carried l pos t)
            net.rng)
      → Moves net pos time t
  unfolding deliver dispatch on_arrival
  Moves-of_Passes net pos time t p = record {
    state = p.state;
    rng = p.out.rng;
    later = p.time;
    ran = rw (p.ran, p.is_state, p.is_sent);
    stays = p.stays;
  }

  waiting_slave :
      (i : ℕ) (services : ℕ → Service D) → Waits (to_node i) services → CanWork (services dest)
  waiting_slave i services w = w

  moves :
      (net : Network D R) (pos : Position) (time : D) (t : Task D)
      → depth pos ≤ l.last
      → pos ≢ back_to_node 0
      → Stands net.services
      → Waits pos net.services
      → Moves net pos time t
  moves net pos time t h ne stands waits =
      elim (packet-Travels laws random table topology l pos time t net.rng
        (net.services (receiver_at l pos)) h ne (stands (receiver_at l pos))) [
          | inr p ↦ Moves-of_Passes net pos time t p
          | inl (_, stuck, end) ↦
              let ready : CanWork (net.services dest) =
                subst (λ q. Waits q net.services) end waits in
              let here : receiver_at l pos ≡ dest = ap (receiver_at l) end ∙ l.ends in
              absurd (stuck (subst (λ id. CanWork (net.services id)) (sym here) ready))
        ]

  -- On its way to the slave the packet meets only other services.
  link_not_slave : (i : ℕ) → i ≤ l.last → l.link i ≢ dest
  link_not_slave i h e =
      let place : topology (l.link i) ≡ machine_place = ap topology e ∙ l.sink in
      elim (l.wired i h) [ inl w ↦ ground arith | inr w ↦ ground arith ]

  relay_not_slave : (i : ℕ) → suc i ≤ l.last → l.node (suc i) ≢ dest
  relay_not_slave i h e = elim (l.relays i h) [
    | inl w ↦
        (let place : topology (l.node (suc i)) ≡ machine_place = ap topology e ∙ l.sink in
          ground arith)
    | inr w ↦ w.1 e
  ]

  Waits-next :
      (services : ℕ → Service D) (pos : Position) (s : Service D)
      → depth pos ≤ l.last
      → Waits pos services
      → Waits (next_position l.last pos) (update random table sim services (receiver_at l pos) s)
  Waits-next services (to_link i) s h w = rw (==-false (l.link i) dest (link_not_slave i h)) w
  Waits-next services (to_node i) s h w = elim (ℕ_discrete i l.last) [
    | yes end ↦ rw (==-true i l.last end) tt
    | no more ↦
        rw (==-false i l.last more)
          (rw (==-false (l.node (suc i)) dest (relay_not_slave i (omega arith))) w)
  ]
  Waits-next services (back_to_link i) s h w = tt
  Waits-next services (back_to_node zero) s h w = tt
  Waits-next services (back_to_node (suc i)) s h w = tt

  Stands-update :
      (services : ℕ → Service D) (id : ℕ) (s : Service D)
      → Stands services
      → IsAt (topology id) id s
      → Stands (update random table sim services id s)
  Stands-update services id s all new j = elim (ℕ_discrete id j) [
    | yes same ↦ rw (==-true id j same, ← same) new
    | no other ↦ rw (==-false id j other) (all j)
  ]

  home_position :
      (last : ℕ) (pos : Position) → depth pos ≤ last → to_go last pos ≡ 1 → pos ≡ back_to_node 0
  home_position last (to_link i) h e = absurd (omega arith)
  home_position last (to_node i) h e = absurd (omega arith)
  home_position last (back_to_link i) h e = absurd (omega arith)
  home_position last (back_to_node i) h e = ap back_to_node (omega arith)

  -- The packet comes home.
  abbrev pub Returns : ℕ → Network D R → Position → D → Task D → Type 0
  Returns n net pos time t =
      (net' : Network D R) × (later : D) × (carry random table sim n net (packet l pos time t)
        ≡ ok (net', packet l (back_to_node 0) later t))
      × Stands net'.services

  carry-Returns :
      (n : ℕ) (net : Network D R) (pos : Position) (time : D) (t : Task D)
      → to_go l.last pos ≡ suc n
      → depth pos ≤ l.last
      → Stands net.services
      → Waits pos net.services
      → Returns n net pos time t
  unfolding carry
  carry-Returns zero net pos time t left h stands waits =
      let home : pos ≡ back_to_node 0 = home_position l.last pos h left in
      (net, time, ap (λ q. ok (net, packet l q time t)) home, stands)
  carry-Returns (suc n) net pos time t left h stands waits =
      let away : pos ≢ back_to_node 0 = λ e. omega (arith, ap (to_go l.last) e) in
      let m = moves net pos time t h away stands waits in
      let (closer, inside) = to_go-next_position l.last pos h away in
      let (net', later, run, stands') =
        carry-Returns n (moved net pos t m.state m.rng m.later) (next_position l.last pos) m.later t
          (omega (arith, closer)) inside
          (Stands-update net.services (receiver_at l pos) m.state stands m.stays)
          (Waits-next net.services pos m.state h waits) in
      (net', later, rw (m.ran, carry) run, stands')

  -- A packet that has left its master on a line of `last + 1` links, in a network of which every
  -- service is of its class and whose slave at the end of the line can work, is at its master's door
  -- again after exactly `4 * last + 3` deliveries, with its task processed.
  pub carry-to_master :
      (net : Network D R) (time : D) (t : Task D)
      → Stands net.services
      → CanWork (net.services dest)
      → Returns (4 * l.last + 3) net (to_link 0) time t
  carry-to_master net time t stands ready =
      carry-Returns (4 * l.last + 3) net (to_link 0) time t (omega arith) (omega arith) stands ready
