-- ===== src/TopologyRing/SetUp.antt =====
-- What test/topology_ring/main.cpp registers.
use ispd_exa_engine.Base.{
  Option, ℕ, suc, ◌+◌, ◌-◌, ◌*◌, ◌≤◌, ◌<◌, ◌≡◌, ◌≢◌, ◌∙◌, ◌⊎◌, refl, sym, ap, subst, some, none, ok,
  arith, inl, inr, false, u32_mod, ==-true, ==-false,
}
use native.Mathlib.Decide.{ℕ_discrete}
use ispd_exa_engine.Double.{Double}
use ispd_exa_engine.UnorderedMap.{find}
use ispd_exa_engine.Simulator.{Simulator}
use ispd_exa_engine.Model.{is_out_of_unit}
use ispd_exa_engine.Network.Placement.{at_link, at_machine}
use ispd_exa_engine.TestProgram.RouteFile.{odd_or_even}
use ispd_exa_engine.TestProgram.Registration.{test_machine, test_link, register_test_link-Registers}
use ispd_exa_engine.TestProgram.Pairs.{every_other-RegistersPairs, machine_and_link-RegistersPair}
use ispd_exa_engine.TestProgram.Finalizers.{two_finalizers-Print}
use ispd_exa_engine.TestProgram.Boss.{has_boss}
use ispd_exa_engine.TestProgram.Memory.{new_machine-HasFreeCore}
use ispd_exa_engine.TestProgram.Start.{IsSetUp, IsIdle}
use ispd_exa_engine.TopologyRing.{ring_simulator, register_ring_pair}
use ispd_exa_engine.TopologyRing.Places.{
  ring_place, machine_at, link_at, last_at, nothing_at, master_at, ring_line,
}
use ispd_exa_engine.TopologyRing.RouteFile.{ring_table, ring_table-HasRoutes}

-- The last link, an inner link, a machine or the master.
ring_cases :
    (machines id : ℕ)
    → id < 2 * machines + 2
    → (id ≡ 2 * machines + 1)
      ⊎ (((i : ℕ) × (i < machines) × (1 + 2 * i ≡ id))
          ⊎ (((i : ℕ) × (i < machines) × (2 + 2 * i ≡ id)) ⊎ (id ≡ 0)))
ring_cases machines id lt = elim (ℕ_discrete id (2 * machines + 1)) [
  | yes last ↦ inl last
  | no inner ↦ elim (odd_or_even id) [
    | inl (i, odd) ↦ inr (inl (i, omega (arith, inner, odd), odd))
    | inr (inl (i, even)) ↦ inr (inr (inl (i, omega (arith, even), even)))
    | inr (inr is_zero) ↦ inr (inr (inr is_zero))
  ]
]

module _ {D : Type 0} ⦃d : Double D⦄ (memory : ℕ → Option D) (tasks machines : ℕ) where
  -- The initializers of all services but the master.
  record HasRing (sim : Simulator D) : Type 0 where
    at_machines :
        (i : ℕ)
        → i < machines
        → find (2 + 2 * i) sim.service_initializers ≡ some (test_machine memory (2 + 2 * i))
    at_links :
        (i : ℕ)
        → i < machines
        → find (1 + 2 * i) sim.service_initializers
          ≡ some (test_link (1 + 2 * i - 1) (1 + 2 * i + 1) (1 + 2 * i))
    at_last :
        find (2 * machines + 1) sim.service_initializers
        ≡ some (test_link (2 * machines) 0 (2 * machines + 1))

  HasRing-IsIdle :
      (sim : Simulator D)
      → HasRing sim
      → (id : ℕ) → id ≢ 0
      → id < suc (2 * machines + 1)
      → IsIdle memory (ring_place machines) sim id
  HasRing-IsIdle sim h id other lt = elim (ring_cases machines id (omega (arith, lt))) [
    | inl last ↦ subst (IsIdle memory (ring_place machines) sim) (sym last) (record {
      service = _;
      registered = h.at_last;
      stands = at_link _ (last_at machines) refl refl;
      idle = refl;
      free = λ cores. tt;
    })
    | inr (inl (i, less, odd)) ↦ subst (IsIdle memory (ring_place machines) sim) odd (record {
      service = _;
      registered = h.at_links i less;
      stands = at_link _ (link_at machines i less) refl refl;
      idle = refl;
      free = λ cores. tt;
    })
    | inr (inr (inl (i, less, even))) ↦
        subst (IsIdle memory (ring_place machines) sim) even (record {
          service = _;
          registered = h.at_machines i less;
          stands = at_machine _ (machine_at machines i less) refl refl;
          idle = refl;
          free = new_machine-HasFreeCore memory (2 + 2 * i) (d.of_nat 2) d.nought;
        })
    | inr (inr (inr is_zero)) ↦ absurd (other is_zero)
  ]

  pub ring_simulator-IsSetUp :
      d.le (d.of_nat 2) d.nought ≡ false
      → is_out_of_unit d.nought ≡ false
      → 1 ≤ machines
      → 2 * machines + 2 < u32_mod
      → (sim : Simulator D) × (ring_simulator memory tasks machines ≡ ok sim)
        × IsSetUp memory
            (ring_place machines)
            (ring_table machines)
            sim
            2
            tasks
            machines
            (2 * machines + 1)
  unfolding ring_simulator register_ring_pair
  ring_simulator-IsSetUp strong inside positive small =
      let b = has_boss D 2 tasks machines in
      let ps =
        every_other-RegistersPairs (register_ring_pair memory) (test_machine memory)
          (λ id. test_link (id - 1 - 1) (id - 1 + 1) (id - 1))
          (machine_and_link-RegistersPair memory strong inside (λ id. id - 1 - 1)
            (λ id. id - 1 + 1))
          machines 2 b.sim (omega arith) (λ j h. b.alone j (omega (arith, h))) in
      let end = 2 * machines + 1 in
      let fresh : find end ps.after.service_initializers ≡ none =
        ps.keeps end (λ i lt. (λ e. omega (arith, e, lt), λ e. omega (arith, e, lt)))
        ∙ b.alone end (omega arith) in
      let l = register_test_link-Registers inside (2 * machines) 0 end ps.after fresh in
      let kept_by : (j : ℕ)
          → end ≢ j
          → find j l.after.service_initializers ≡ find j ps.after.service_initializers =
        λ j ne. l.finds j ∙ rw (==-false end j ne) refl in
      let (p, q) = two_finalizers-Print l.after 0 2 (l.same ∙ ps.same ∙ b.same) (omega arith) in
      let kept = q.kept ∙ p.kept in
      (
        q.after,
        rw (b.ran, ps.ran, l.ran, p.ran) q.ran,
        record {
          positive = positive;
          size = rw kept (omega (arith, b.size, ps.size, l.size));
          printers = q.printers;
          at_boss =
              ap (find 0) kept
              ∙ kept_by 0 (omega arith)
              ∙ ps.keeps 0 (λ i lt. (λ e. omega (arith, e), λ e. omega (arith, e)))
              ∙ b.found;
          place = refl;
          only = master_at machines;
          beyond = nothing_at machines;
          lines =
              ring_line machines (ring_table machines) (omega (arith, small))
                (ring_table-HasRoutes machines small);
          idle = HasRing-IsIdle q.after (record {
            at_machines = λ i lt.
                ap (find (2 + 2 * i)) kept
                ∙ kept_by (2 + 2 * i) (omega (arith, lt))
                ∙ ps.finds i lt;
            at_links = λ i lt.
                let before : 2 + 2 * i - 1 ≡ 1 + 2 * i = omega arith in
                ap (find (1 + 2 * i)) kept
                ∙ kept_by (1 + 2 * i) (omega (arith, lt))
                ∙ subst
                    (λ j. find j ps.after.service_initializers ≡ some (test_link (j - 1) (j + 1) j))
                    before (ps.finds_before i lt);
            at_last = ap (find end) kept ∙ l.finds end ∙ rw (==-true end end refl) refl;
          });
        },
      )
