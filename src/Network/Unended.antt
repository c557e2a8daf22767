-- ===== src/Network/Unended.antt =====
-- A simulation with a master that has no workload: `ROOTSimSimulator::simulate` of
-- src/simulator/rootsim.cpp.
use ispd_exa_engine.Base.{
  sum_by_positive, ℕ, zero, suc, ◌<◌, ◌≡◌, ◌≢◌, refl, sym, ap, ◌∙◌, List, ◌∷◌, ◌++◌, Option, none,
  some, ok, err, >>=-inverts, ok_injective, inl, inr, arith, sum_by, length, undefined_behaviour,
}
use native.Mathlib.Decide.{ℕ_discrete}
use ispd_exa_engine.Double.{Double}
use ispd_exa_engine.Customer.{Message, lp_init}
use ispd_exa_engine.Routing.{RoutingTable}
use ispd_exa_engine.Simulator.{Simulator, dispatch}
use ispd_exa_engine.Network.{Network, deliver, step, Reaches, here, next}
use ispd_exa_engine.Network.Loop.{take_out, take_out_whole, List-cases, run, run-picks}
use ispd_exa_engine.Network.Simulate.{boot, simulate, finish, finished}
use ispd_exa_engine.Network.Unset.{
  BuildsUnset, starts, IsUnset, on_init-lacks, dispatch-start, starts-start, settle-IsUnset,
  deliver-IsUnset,
}

module _ {D R : Type 0} ⦃d : Double D⦄ (random : R → D × R) (table : RoutingTable)
    (sim : Simulator D) (id : ℕ) (b : BuildsUnset sim id) where
  Reaches-IsUnset :
      (net net' : Network D R)
      → IsUnset random table sim id b net
      → Reaches random table sim net net'
      → IsUnset random table sim id b net'
  Reaches-IsUnset net _ u here = u
  Reaches-IsUnset net _ u (next path (step before after m e ran)) =
      deliver-IsUnset random table sim id b _ _ before after m (Reaches-IsUnset net _ u path) e ran

  -- If the initializer of a service builds a master without a workload, and that master stands in the
  -- network and the start of its scheduler is pending, then after any deliveries in any order a message
  -- is pending whose delivery is undefined behaviour.
  pub Reaches-undefined :
      (net net' : Network D R)
      → IsUnset random table sim id b net
      → Reaches random table sim net net'
      → (before : List (Message D)) × (m : Message D) × (after : List (Message D)) × (net'.pending
          ≡ before ++ m ∷ after)
        × (deliver random table sim net' m (before ++ after) ≡ err undefined_behaviour)
  unfolding deliver
  Reaches-undefined net net' u path =
      let v = Reaches-IsUnset net net' u path in
      let (before, m, after, e, start) = sum_by_positive (starts id) net'.pending v.awaited in
      let (receiver, event_type) = starts-start random table sim id b m start in
      let fails =
        dispatch-start random table sim id b (net'.services id) m.time m.event_type m.event net'.rng
          v.lacks event_type in
      (before, m, after, e, rw (receiver, fails) refl)

  boot-IsUnset :
      (k : ℕ) (r : R) (net : Network D R)
      → id < k
      → boot random table sim k r ≡ ok net
      → IsUnset random table sim id b net
  unfolding boot dispatch
  boot-IsUnset zero r net lt ran = absurd (omega (arith, lt))
  boot-IsUnset (suc k) r net lt ran =
      let (net0, started, ran0) = >>=-inverts (boot random table sim k r) _ ran in
      let (out, settled, handled) =
        >>=-inverts (dispatch random table sim k d.nought lp_init none none net0.rng) _ started in
      elim (ℕ_discrete k id) [
        | yes e ↦
            let (state, sent) =
              on_init-lacks random table sim id b net0.rng out (rw e at handled) in
            settle-IsUnset random table sim id b net0 net k net0.pending out settled
              (λ _. (b.service, state, b.lacks)) (λ away. absurd (away e))
              (rw sent (omega (arith, b.awaited)))
        | no ne ↦
            let u = boot-IsUnset k r net0 (omega (arith, lt, ne)) ran0 in
            settle-IsUnset random table sim id b net0 net k net0.pending out settled
              (λ e. absurd (ne e)) (λ _. u.lacks) (omega (arith, u.awaited))
      ]

module _ {D R : Type 0} ⦃d : Double D⦄ (random : R → D × R) (table : RoutingTable)
    (sim : Simulator D) (pick : List (Message D) → ℕ) (id : ℕ) (b : BuildsUnset sim id) where
  run_unended :
      (fuel : ℕ) (net last : Network D R)
      → IsUnset random table sim id b net
      → run random table sim pick fuel net ≢ ok (some last)
  unfolding run
  run_unended zero net last u ends = elim (List-cases net.pending) [
    | inl nothing ↦ omega (arith, u.awaited, ap (sum_by (starts id)) nothing)
    | inr (m, ms, e) ↦ cc (rw (run, e) at ends)
  ]
  run_unended (suc fuel) net last u ends = elim (List-cases net.pending) [
    | inl nothing ↦ omega (arith, u.awaited, ap (sum_by (starts id)) nothing)
    | inr (m, ms, e) ↦
        let t = take_out (pick (m ∷ ms)) m ms in
        let (net', later, ran) =
          >>=-inverts (deliver random table sim net t.chosen (t.before ++ t.after)) _
            (sym (run-picks random table sim pick fuel net m ms e) ∙ ends) in
        run_unended fuel net' last
          (deliver-IsUnset random table sim id b net net' t.before t.after t.chosen u
            (e ∙ take_out_whole (pick (m ∷ ms)) m ms) ran)
          later
  ]

  finished-some :
      (state : Option (Network D R)) (last : Network D R)
      → finished random table sim state ≡ ok (some last)
      → state ≡ some last
  unfolding finished
  finished-some none last e = cc
  finished-some (some net) last e =
      let (done, same, _) =
        >>=-inverts (finish random table sim (length sim.service_initializers) net)
          (λ _. ok (some net)) e in
      ok_injective same

  -- If an initializer below the number of all builds a master without a workload and schedules the
  -- start of its scheduler, no simulation comes to an end, in whatever order the messages are
  -- delivered.
  pub simulate_unended :
      id < length sim.service_initializers
      → (fuel : ℕ) (r : R) (last : Network D R)
      → simulate random table sim pick fuel r ≢ ok (some last)
  unfolding simulate
  simulate_unended lt fuel r last ends =
      let n = length sim.service_initializers in
      let (net, ran, booted) = >>=-inverts (boot random table sim n r) _ ends in
      let (state, ended, result) = >>=-inverts (run random table sim pick fuel net) _ ran in
      run_unended fuel net last (boot-IsUnset random table sim id b n r net lt booted)
        (result ∙ ap ok (finished-some state last ended))
