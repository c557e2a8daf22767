-- ===== src/Network.antt =====
-- The services together: src/simulator/rootsim.cpp delivers one pending event after the other, in
-- any order, and the handlers schedule new ones.
pub mod Placement
pub mod Work
pub mod Hops
pub mod Travel
pub mod Launch
pub mod Home
pub mod Effect
pub mod Delivery
pub mod Consistent
pub mod Accounts
pub mod Conservation
pub mod Routes
pub mod Cost
pub mod Load
pub mod InTime
pub mod Termination
pub mod Completion
pub mod Loop
pub mod Run
pub mod Finish
pub mod Safety
pub mod Journey
pub mod Simulate
pub mod Boot
pub mod Deterministic
pub mod Commute
pub mod Unset
pub mod Unended
pub mod Example
pub mod Tests
pub mod FinishTests
use ispd_exa_engine.Base.{
  ℕ, Option, none, some, List, [], ◌∷◌, ◌++◌, ◌≡◌, if◌then◌else◌, ◌==◌, Result, ok, ◌>>=◌, or_fail,
  undefined_behaviour,
}
use ispd_exa_engine.Double.{Double}
use ispd_exa_engine.Customer.{Message}
use ispd_exa_engine.Routing.{RoutingTable}
use ispd_exa_engine.Simulator.{Simulator, Service, Dispatched, dispatch}

-- The states of the logical processes after their initialisation, the random number generator and
-- the events that have been scheduled and not yet delivered.
pub record Network (D R : Type 0) : Type 0 where
  pub services : ℕ → Service D
  pub rng : R
  pub pending : List (Message D)

module _ {D R : Type 0} ⦃d : Double D⦄ (random : R → D × R) (table : RoutingTable)
    (sim : Simulator D) where
  abbrev pub update : (ℕ → Service D) → ℕ → Service D → ℕ → Service D
  update services id s j = if id == j then s else services j

  -- The state of the network once the dispatcher has handled a message.
  abbrev pub settle : Network D R → ℕ → List (Message D) → Dispatched D R → Result (Network D R)
  settle net id rest out = or_fail out.state undefined_behaviour >>= λ s.
      ok (record { services = update net.services id s; rng = out.rng; pending = rest ++ out.sent })

  -- The dispatcher takes a message; `rest` are the other pending ones.
  unfoldable pub deliver : Network D R → Message D → List (Message D) → Result (Network D R)
  deliver net m rest =
      dispatch random table sim m.receiver m.time m.event_type m.event
        (some (net.services m.receiver)) net.rng
      >>= λ out. settle net m.receiver rest out

  -- Any pending message may be the next.
  pub data Step (net net' : Network D R) : Type 0 where
    step :
        (before after : List (Message D)) (m : Message D)
        → net.pending ≡ before ++ m ∷ after
        → deliver net m (before ++ after) ≡ ok net'
        → Step net net'

  pub data Reaches (net : Network D R) : Network D R → Type 0 where
    here : Reaches net net
    next : {mid last : Network D R} → Reaches net mid → Step mid last → Reaches net last
