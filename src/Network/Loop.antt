-- ===== src/Network/Loop.antt =====
-- The loop of the simulation: RootsimRun, which src/simulator/rootsim.cpp calls, delivers one pending
-- message after the other until none is left.
use ispd_exa_engine.Base.{
  ℕ, zero, suc, ◌≡◌, refl, ap, List, [], ◌∷◌, ◌++◌, Option, none, some, Result, ok, err, ◌>>=◌,
  undefined_behaviour, ◌⊎◌, inl, inr,
}
use ispd_exa_engine.Double.{Double}
use ispd_exa_engine.Customer.{Message}
use ispd_exa_engine.Routing.{RoutingTable}
use ispd_exa_engine.Simulator.{Simulator}
use ispd_exa_engine.Network.{Network, Step, Reaches, here, next, deliver}
use ispd_exa_engine.Network.Work.{CanWork, to_process}

-- The pending messages around the one at an index, or around the last.
pub record Taken (A : Type 0) : Type 0 where
  pub before : List A
  pub chosen : A
  pub after : List A

abbrev pub take_out : {A : Type 0} → ℕ → A → List A → Taken A
take_out zero x xs = record { before = []; chosen = x; after = xs }
take_out (suc i) x [] = record { before = []; chosen = x; after = [] }
take_out (suc i) x (y ∷ ys) = let rest = take_out i y ys in record rest { before = x ∷ rest.before }

pub take_out_whole :
    {A : Type 0} (i : ℕ) (x : A) (xs : List A)
    → x ∷ xs ≡ (take_out i x xs).before ++ (take_out i x xs).chosen ∷ (take_out i x xs).after
take_out_whole zero x xs = refl
take_out_whole (suc i) x [] = refl
take_out_whole (suc i) x (y ∷ ys) = ap (λ zs. x ∷ zs) (take_out_whole i y ys)

pub List-cases : {A : Type 0} (xs : List A) → (xs ≡ []) ⊎ ((y : A) × (ys : List A) × (xs ≡ y ∷ ys))
List-cases [] = inl refl
List-cases (y ∷ ys) = inr (y, ys, refl)

module _ {D R : Type 0} ⦃d : Double D⦄ (random : R → D × R) (table : RoutingTable)
    (sim : Simulator D) (pick : List (Message D) → ℕ) where
  -- The simulation with fuel; `pick` decides which message is the next. `none` means that the fuel has
  -- run out.
  unfoldable pub run : ℕ → Network D R → Result (Option (Network D R))
  run zero net = elim net.pending [ [] ↦ ok (some net) | m ∷ ms ↦ ok none ]
  run (suc fuel) net = elim net.pending [
    | [] ↦ ok (some net)
    | m ∷ ms ↦
        let t = take_out (pick (m ∷ ms)) m ms in
        deliver random table sim net t.chosen (t.before ++ t.after) >>= λ net'. run fuel net'
  ]

  pub run-picks :
      (fuel : ℕ) (net : Network D R) (m : Message D) (ms : List (Message D))
      → net.pending ≡ m ∷ ms
      → run (suc fuel) net ≡ (
          let t = take_out (pick (m ∷ ms)) m ms in
          deliver random table sim net t.chosen (t.before ++ t.after) >>= λ net'. run fuel net')
  unfolding run
  run-picks fuel net m ms e =
      ap
        (λ pending. elim pending [
          | [] ↦ ok (some net)
          | m ∷ ms ↦
              let t = take_out (pick (m ∷ ms)) m ms in
              deliver random table sim net t.chosen (t.before ++ t.after) >>= λ net'. run fuel net'
        ])
        e

  Reaches-cons :
      {net mid net' : Network D R}
      → Step random table sim net mid
      → Reaches random table sim mid net'
      → Reaches random table sim net net'
  Reaches-cons s here = next here s
  Reaches-cons s (next r t) = next (Reaches-cons s r) t

  -- The simulation ends with nothing pending.
  pub record Finishes (net : Network D R) (res : Result (Option (Network D R))) : Type 0 where
    pub final : Network D R
    pub returns : res ≡ ok (some final)
    pub reached : Reaches random table sim net final
    pub over : final.pending ≡ []

  -- It ends with a task at a machine that cannot work.
  pub record GetsStuck (net : Network D R) (res : Result (Option (Network D R))) : Type 0 where
    pub final : Network D R
    pub before : List (Message D)
    pub after : List (Message D)
    pub message : Message D
    pub fails : res ≡ err undefined_behaviour
    pub reached : Reaches random table sim net final
    pub is_pending : final.pending ≡ before ++ message ∷ after
    pub new : to_process message ≡ 1
    pub stuck : ¬ CanWork (final.services message.receiver)

  abbrev pub Ends : Network D R → Result (Option (Network D R)) → Type 0
  Ends net res = Finishes net res ⊎ GetsStuck net res

  pub Ends-cons :
      {net mid : Network D R} {res : Result (Option (Network D R))}
      → Step random table sim net mid
      → Ends mid res
      → Ends net res
  Ends-cons s (inl f) = inl (record {
    final = f.final;
    returns = f.returns;
    reached = Reaches-cons s f.reached;
    over = f.over;
  })
  Ends-cons s (inr g) = inr (record {
    final = g.final;
    before = g.before;
    after = g.after;
    message = g.message;
    fails = g.fails;
    reached = Reaches-cons s g.reached;
    is_pending = g.is_pending;
    new = g.new;
    stuck = g.stuck;
  })
