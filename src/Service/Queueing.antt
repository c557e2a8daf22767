-- ===== src/Service/Queueing.antt =====
-- The queueing arithmetic that src/service/link.cpp, switch.cpp and machine.cpp write alike.
use ispd_exa_engine.Base.{arith}
use ispd_exa_engine.Double.{Double, ◌⊕◌, ◌⊖◌, ◌⊗◌, ◌⊘◌, ◌≼◌, max_nought, IsOrdered}
use ispd_exa_engine.Base.{List, All}
use ispd_exa_engine.Customer.{Message}

module _ {D : Type 0} ⦃d : Double D⦄ where
  -- No message is for a time before `now`.
  abbrev pub IsFuture : D → List (Message D) → Type 0
  IsFuture now = All (λ m. now ≼ m.time)

  -- `latency + commSize / ((1.0 - loadFactor) * bandwidth)`
  unfoldable pub time_to_communicate : (latency load_factor bandwidth comm_size : D) → D
  time_to_communicate latency load_factor bandwidth comm_size =
      latency ⊕ comm_size ⊘ ((d.one ⊖ load_factor) ⊗ bandwidth)

  -- `waitingTime = std::max(0.0, available - now); departureTime = now + waitingTime + duration`
  unfoldable pub departure_time : (available now duration : D) → D
  departure_time available now duration = now ⊕ max_nought (available ⊖ now) ⊕ duration

  module _ (laws : IsOrdered D) where
    open laws use {nought_refl, refl_of_le, le_trans, le_of_lt, le-add}

    max_nought_nonneg : (x : D) → d.nought ≼ max_nought x
    max_nought_nonneg x = ground (arith, nought_refl, le_of_lt d.nought x)

    -- A departure is not before the arrival.
    pub departure_time-ge_now :
        (available now duration : D)
        → d.nought ≼ now
        → d.nought ≼ duration
        → now ≼ departure_time available now duration
    unfolding departure_time
    departure_time-ge_now available now duration h k =
        let w = max_nought (available ⊖ now) in
        let up = le-add now w h (max_nought_nonneg (available ⊖ now)) in
        le_trans now (now ⊕ w) _ up (le-add (now ⊕ w) duration (le_trans d.nought now _ h up) k)
