-- ===== src/Network/Safety.antt =====
-- The whole simulation: src/simulator/rootsim.cpp on a network whose routing table agrees with its
-- topology, whatever the order of the deliveries.
use ispd_exa_engine.Base.{
  ℕ, ◌≡◌, subst, ◌⊎◌, inl, inr, List, ◌∷◌, ◌++◌, All, ok, err, undefined_behaviour,
}
use ispd_exa_engine.Double.{Double, IsOrdered}
use ispd_exa_engine.Customer.{Message}
use ispd_exa_engine.Routing.{RoutingTable}
use ispd_exa_engine.Simulator.{Simulator}
use ispd_exa_engine.Network.{Network, Reaches, deliver}
use ispd_exa_engine.Network.Placement.{Place}
use ispd_exa_engine.Network.Work.{CanWork}
use ispd_exa_engine.Network.Launch.{IsPlaced}
use ispd_exa_engine.Network.Consistent.{
  IsConsistent, All-split, deliver_cases, Reaches-IsConsistent,
}

module _ {D R : Type 0} ⦃d : Double D⦄ (laws : IsOrdered D) (random : R → D × R)
    (table : RoutingTable) (topology : ℕ → Place) (sim : Simulator D) where
  -- What the delivery of a placed message to a consistent network leads to.
  abbrev pub Delivers : Network D R → Message D → List (Message D) → Type 0
  Delivers net m rest =
      ((deliver random table sim net m rest ≡ err undefined_behaviour)
        × ¬ CanWork (net.services m.receiver))
      ⊎ ((net' : Network D R) × (deliver random table sim net m rest ≡ ok net')
          × IsConsistent laws random table topology sim net')

  -- From a consistent network, after any deliveries in any order, every pending message can be
  -- delivered: no link meets a packet from a stranger, no route and no path element is missing, no
  -- pointer is null; the one failure left is a slave that cannot work, for a free time was never
  -- written, no core is free in time or its task counter is full. The network stays consistent.
  pub deliver_reached :
      (net net' : Network D R) (before after : List (Message D)) (m : Message D)
      → IsConsistent laws random table topology sim net
      → Reaches random table sim net net'
      → net'.pending ≡ before ++ m ∷ after
      → Delivers net' m (before ++ after)
  deliver_reached net net' before after m c reached pending =
      let c' = Reaches-IsConsistent laws random table topology sim c reached in
      let (p, ps) =
        All-split laws random table topology sim before after m
          (subst (All (IsPlaced topology table)) pending c'.placed) in
      elim (deliver_cases laws random table topology sim net' m (before ++ after) c' p ps) [
        | inl (fails, _, stuck) ↦ inl (fails, stuck)
        | inr (net2, ran, a) ↦ inr (net2, ran, a.consistent)
      ]
