-- ===== src/Network/Boot.antt =====
-- The initialisation of all logical processes by the dispatcher of src/simulator/rootsim.cpp gives a
-- network that is ready to run.
use ispd_exa_engine.Base.{
  ℕ, zero, suc, ◌+◌, ◌≤◌, ◌<◌, ◌≡◌, refl, sym, ap, ◌∙◌, subst, List, [], ◌++◌, arith, All,
  All-append, none, some, Result, ok, ==-true, ==-false, sum_by, sum_by-append,
}
use native.Mathlib.Decide.{ℕ_discrete, dec_lt}
use ispd_exa_engine.Double.{Double, IsOrdered}
use ispd_exa_engine.Customer.{Message, lp_init}
use ispd_exa_engine.Routing.{RoutingTable}
use ispd_exa_engine.UnorderedMap.{find}
use ispd_exa_engine.Simulator.{Simulator, Service, dummy, dispatch, on_init, get_id}
use ispd_exa_engine.Network.{Network, update}
use ispd_exa_engine.Network.Placement.{
  Place, master_place, dummy_place, IsAt, at_link, at_switch, at_machine, at_master, at_dummy,
}
use ispd_exa_engine.Network.Launch.{IsPlaced}
use ispd_exa_engine.Network.Accounts.{left_at}
use ispd_exa_engine.Network.Effect.{Holds}
use ispd_exa_engine.Network.Completion.{IsBusy, awaits}
use ispd_exa_engine.Network.Consistent.{IsConsistent}
use ispd_exa_engine.Network.Simulate.{boot, built, sent_below}

module _ {D R : Type 0} ⦃d : Double D⦄ (laws : IsOrdered D) (random : R → D × R)
    (table : RoutingTable) (topology : ℕ → Place) (sim : Simulator D) where
  -- The initializer of `id` builds a service of the class that the topology has there, with a master
  -- that is running, and schedules messages that are placed; a master with tasks waits for one.
  pub record IsBuilt (id : ℕ) : Type 0 where
    pub service : Service D
    pub sent : List (Message D)
    pub registered : find id sim.service_initializers ≡ some (ok (service, sent))
    pub stands : IsAt (topology id) id service
    pub holds : Holds laws random table topology sim service
    pub placed : All (IsPlaced topology table) sent
    pub busy : 1 ≤ left_at service → 1 ≤ sum_by (awaits id) sent

  IsAt-get_id : (p : Place) (id : ℕ) (s : Service D) → IsAt p id s → get_id s ≡ id
  IsAt-get_id p id s (at_link l pe ide se) = rw se ide
  IsAt-get_id p id s (at_switch l pe ide se) = rw se ide
  IsAt-get_id p id s (at_machine l pe ide se) = rw se ide
  IsAt-get_id p id s (at_master l pe ide se) = rw se ide
  IsAt-get_id p id s (at_dummy pe se) = rw se refl

  dispatched_init :
      (id : ℕ) (now : D) (r : R) (b : IsBuilt id)
      → dispatch random table sim id now lp_init none none r
        ≡ ok (record { state = some b.service; rng = r; sent = b.sent })
  unfolding dispatch on_init
  dispatched_init id now r b =
      rw (on_init, b.registered, ==-true (get_id b.service) id (IsAt-get_id _ _ _ b.stands)) refl

  built-IsBuilt : (id : ℕ) (b : IsBuilt id) → built sim id ≡ (b.service, b.sent)
  built-IsBuilt id b = rw (built, b.registered) refl

  -- The processes below `k` have been initialised.
  record Booted (k : ℕ) (res : Result (Network D R)) : Type 0 where
    net : Network D R
    ran : res ≡ ok net
    serves : (i : ℕ) → i < k → net.services i ≡ (built sim i).0
    empty : (i : ℕ) → ¬ (i < k) → net.services i ≡ dummy i
    pends : net.pending ≡ sent_below sim k

  boot-Booted :
      (k : ℕ) (r : R) → ((i : ℕ) → i < k → IsBuilt i) → Booted k (boot random table sim k r)
  unfolding boot
  boot-Booted zero r all = record {
    net = record { services = λ id. dummy id; rng = r; pending = [] };
    ran = refl;
    serves = λ i lt. elim lt [ ];
    empty = λ i h. refl;
    pends = refl;
  }
  boot-Booted (suc k) r all =
      let before = boot-Booted k r (λ i lt. all i (omega arith)) in
      let b = all k (omega arith) in
      let same = built-IsBuilt k b in
      record {
        net = record {
          services = update random table sim before.net.services k b.service;
          rng = before.net.rng;
          pending = before.net.pending ++ b.sent;
        };
        ran = rw (before.ran, dispatched_init k d.nought before.net.rng b) refl;
        serves = λ i lt. elim (ℕ_discrete k i) [
          | yes e ↦ rw (==-true k i e, ← e) (sym (ap (λ p. p.0) same))
          | no ne ↦ rw (==-false k i ne) (before.serves i (omega (arith, ne)))
        ];
        empty = λ i h.
            rw (==-false k i (λ e. h (omega (arith, e)))) (before.empty i (λ lt. h (omega arith)));
        pends = rw (before.pends, same) refl;
      }

  sent_below-placed :
      (k : ℕ) → ((i : ℕ) → i < k → IsBuilt i) → All (IsPlaced topology table) (sent_below sim k)
  sent_below-placed zero all = tt
  sent_below-placed (suc k) all =
      let b = all k (omega arith) in
      All-append (IsPlaced topology table) (sent_below sim k) (built sim k).1
        (sent_below-placed k (λ i lt. all i (omega arith)))
        (subst (λ out. All (IsPlaced topology table) out.1) (sym (built-IsBuilt k b)) b.placed)

  sent_below-awaits :
      (k id : ℕ)
      → id < k
      → sum_by (awaits id) (built sim id).1 ≤ sum_by (awaits id) (sent_below sim k)
  sent_below-awaits zero id lt = elim lt [ ]
  sent_below-awaits (suc k) id lt =
      let both = sum_by-append (awaits id) (sent_below sim k) (built sim k).1 in
      elim (ℕ_discrete id k) [
        | yes e ↦ rw e (
            omega (
              arith,
              subst
                  (λ j.
                    sum_by (awaits j) (sent_below sim k ++ (built sim k).1)
                    ≡ sum_by (awaits j) (sent_below sim k) + sum_by (awaits j) (built sim k).1)
                  e both,
            ))
        | no ne ↦ omega (arith, both, sent_below-awaits k id (omega (arith, ne)))
      ]

  -- A network that is ready to run.
  pub record IsReady (n : ℕ) (res : Result (Network D R)) : Type 0 where
    pub net : Network D R
    pub ran : res ≡ ok net
    pub serves : (i : ℕ) → i < n → net.services i ≡ (built sim i).0
    pub pends : net.pending ≡ sent_below sim n
    pub consistent : IsConsistent laws random table topology sim net
    pub busy : (id : ℕ) → topology id ≡ master_place → IsBusy net id

  -- If the initializers of all identifiers below `n` build services of the class that the topology has
  -- there, and it has nothing else, the network is ready to run after the initialisation.
  pub boot-IsReady :
      (n : ℕ) (r : R)
      → ((i : ℕ) → i < n → IsBuilt i)
      → ((i : ℕ) → ¬ (i < n) → topology i ≡ dummy_place)
      → IsReady n (boot random table sim n r)
  boot-IsReady n r all beyond =
      let b = boot-Booted n r all in
      record {
        net = b.net;
        ran = b.ran;
        serves = b.serves;
        pends = b.pends;
        consistent = record {
          stands = stands_at b;
          holds = holds_at b;
          placed = subst (All (IsPlaced topology table)) (sym b.pends) (sent_below-placed n all);
        };
        busy = busy_at b;
      }
    where
      stands_at :
          (b : Booted n (boot random table sim n r)) (i : ℕ)
          → IsAt (topology i) i (b.net.services i)
      stands_at b i = elim (dec_lt i n) [
        | yes lt ↦
            let a = all i lt in
            subst (IsAt (topology i) i) (sym (b.serves i lt ∙ ap (λ o. o.0) (built-IsBuilt i a)))
              a.stands
        | no out ↦ at_dummy (beyond i out) (b.empty i out)
      ]

      holds_at :
          (b : Booted n (boot random table sim n r)) (i : ℕ)
          → Holds laws random table topology sim (b.net.services i)
      holds_at b i = elim (dec_lt i n) [
        | yes lt ↦
            let a = all i lt in
            subst (Holds laws random table topology sim)
              (sym (b.serves i lt ∙ ap (λ o. o.0) (built-IsBuilt i a))) a.holds
        | no out ↦ subst (Holds laws random table topology sim) (sym (b.empty i out)) tt
      ]

      busy_at :
          (b : Booted n (boot random table sim n r)) (id : ℕ)
          → topology id ≡ master_place
          → IsBusy b.net id
      busy_at b id place left = elim (dec_lt id n) [
        | yes lt ↦
            let a = all id lt in
            let is = built-IsBuilt id a in
            let owes = subst (λ s. 1 ≤ left_at s) (b.serves id lt ∙ ap (λ o. o.0) is) left in
            let waits = a.busy owes in
            let more = sent_below-awaits n id lt in
            let sent = ap (λ o. sum_by (awaits id) o.1) is in
            rw b.pends (omega (arith, waits, more, sent))
        | no out ↦ absurd (ground (arith, beyond id out))
      ]
