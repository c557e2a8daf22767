-- ===== src/Network/Consistent.antt =====
-- One step of the whole simulation: src/simulator/rootsim.cpp on a network whose routing table agrees
-- with its topology.
use ispd_exa_engine.Base.{
  ℕ, ◌≡◌, refl, subst, ◌⊎◌, inl, inr, List, [], ◌∷◌, ◌++◌, arith, All, All-append, ok, err,
  undefined_behaviour, ==-true, ==-false,
}
use native.Mathlib.Decide.{ℕ_discrete}
use ispd_exa_engine.Double.{Double, IsOrdered}
use ispd_exa_engine.Customer.{Message}
use ispd_exa_engine.Routing.{RoutingTable}
use ispd_exa_engine.Simulator.{Simulator, Service}
use ispd_exa_engine.Network.{Network, Step, step, Reaches, here, next, deliver, update}
use ispd_exa_engine.Network.Placement.{Place, IsAt}
use ispd_exa_engine.Network.Work.{CanWork, to_process}
use ispd_exa_engine.Network.Launch.{IsPlaced}
use ispd_exa_engine.Network.Effect.{Holds, Effect, Effect-IsPlaced, hops_of, extra_of}
use ispd_exa_engine.Network.Delivery.{placed-Safe}

module _ {D R : Type 0} ⦃d : Double D⦄ (laws : IsOrdered D) (random : R → D × R)
    (table : RoutingTable) (topology : ℕ → Place) (sim : Simulator D) where
  -- Every service is of its class, every master is running, and every pending message is placed.
  pub record IsConsistent (net : Network D R) : Type 0 where
    pub stands : (id : ℕ) → IsAt (topology id) id (net.services id)
    pub holds : (id : ℕ) → Holds laws random table topology sim (net.services id)
    pub placed : All (IsPlaced topology table) net.pending

  pub update_holds :
      (P : ℕ → Service D → Type 0) (services : ℕ → Service D) (id : ℕ) (s : Service D)
      → ((j : ℕ) → P j (services j))
      → P id s
      → (j : ℕ) → P j (update random table sim services id s j)
  update_holds P services id s all new j = elim (ℕ_discrete id j) [
    | yes same ↦ rw (==-true id j same, ← same) new
    | no other ↦ rw (==-false id j other) (all j)
  ]

  pub All-split :
      (before after : List (Message D)) (m : Message D)
      → All (IsPlaced topology table) (before ++ m ∷ after)
      → IsPlaced topology table m × All (IsPlaced topology table) (before ++ after)
  All-split [] after m (p, ps) = (p, ps)
  All-split (b ∷ bs) after m (p, ps) = let (q, qs) = All-split bs after m ps in (q, (p, qs))

  -- A delivery that succeeds replaces the receiver's state and adds what is sent; its effect agrees
  -- with the place of the message, and the network stays consistent.
  pub record Advances (net : Network D R) (m : Message D) (rest : List (Message D)) (hops extra : ℕ)
      (net' : Network D R) : Type 0 where
    pub state : Service D
    pub sent : List (Message D)
    pub serves : net'.services ≡ update random table sim net.services m.receiver state
    pub queues : net'.pending ≡ rest ++ sent
    pub effect :
        Effect laws random table topology sim m hops extra (net.services m.receiver) state sent
    pub consistent : IsConsistent net'

  -- The delivery brings a task to a machine that cannot work and meets undefined behaviour, or it succeeds.
  pub deliver_cases :
      (net : Network D R) (m : Message D) (rest : List (Message D))
      → IsConsistent net
      → (p : IsPlaced topology table m) → All (IsPlaced topology table) rest
      → ((deliver random table sim net m rest ≡ err undefined_behaviour)
          × (to_process m ≡ 1)
          × ¬ CanWork (net.services m.receiver))
        ⊎ ((net' : Network D R) × (deliver random table sim net m rest ≡ ok net')
            × Advances net m rest
                (hops_of laws random table topology sim p)
                (extra_of laws random table topology sim p)
                net')
  unfolding deliver
  deliver_cases net m rest c p ps =
      elim (placed-Safe laws random table topology sim m net.rng p (net.services m.receiver)
        (c.stands m.receiver) (c.holds m.receiver)) [
          | inl (fails, new, stuck) ↦ inl (rw fails, new, stuck)
          | inr s ↦ inr (
            record {
              services = update random table sim net.services m.receiver s.state;
              rng = s.out.rng;
              pending = rest ++ s.out.sent;
            },
            rw (s.ran, s.is_state),
            record {
              state = s.state;
              sent = s.out.sent;
              serves = refl;
              queues = refl;
              effect = s.effect;
              consistent = record {
                stands =
                    update_holds (λ id s. IsAt (topology id) id s) net.services m.receiver s.state
                      c.stands s.stays;
                holds =
                    update_holds (λ id s. Holds laws random table topology sim s) net.services
                      m.receiver s.state c.holds s.holds;
                placed =
                    All-append (IsPlaced topology table) rest s.out.sent ps
                      (Effect-IsPlaced laws random table topology sim s.effect);
              };
            },
          )
        ]

  -- The delivery of a message that is placed, when it has succeeded.
  pub deliver-Advances :
      (net net' : Network D R) (m : Message D) (rest : List (Message D))
      → IsConsistent net
      → (p : IsPlaced topology table m) → All (IsPlaced topology table) rest
      → deliver random table sim net m rest ≡ ok net'
      → Advances net m rest
          (hops_of laws random table topology sim p)
          (extra_of laws random table topology sim p)
          net'
  deliver-Advances net net' m rest c p ps run = elim (deliver_cases net m rest c p ps) [
    | inl (fails, _, _) ↦ cc
    | inr (net2, ran, a) ↦
        let same : net2 ≡ net' = ground arith in
        subst
          (Advances net m rest (hops_of laws random table topology sim p)
            (extra_of laws random table topology sim p))
          same a
  ]

  pub Step-IsConsistent :
      {net net' : Network D R}
      → IsConsistent net
      → Step random table sim net net'
      → IsConsistent net'
  Step-IsConsistent {net} {net'} c (step before after m pending run) =
      let (p, ps) =
        All-split before after m (subst (All (IsPlaced topology table)) pending c.placed) in
      let a = deliver-Advances net net' m (before ++ after) c p ps run in a.consistent

  pub Reaches-IsConsistent :
      {net net' : Network D R}
      → IsConsistent net
      → Reaches random table sim net net'
      → IsConsistent net'
  Reaches-IsConsistent c here = c
  Reaches-IsConsistent c (next r s) = Step-IsConsistent (Reaches-IsConsistent c r) s
