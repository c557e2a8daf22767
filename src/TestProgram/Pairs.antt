-- ===== src/TestProgram/Pairs.antt =====
-- A loop of a program of test that registers a machine and the link before it in each round.
use ispd_exa_engine.Base.{
  Option, ℕ, zero, suc, ◌+◌, ◌-◌, ◌*◌, ◌≤◌, ◌<◌, ◌≡◌, ◌≢◌, ◌∙◌, refl, sym, subst, none, some,
  Result, ok, arith, length, false, ◌>>=◌, ==-true, ==-false,
}
use ispd_exa_engine.UnorderedMap.{find}
use ispd_exa_engine.Simulator.{Simulator, ServiceInitializer}
use ispd_exa_engine.TestProgram.{every_other}
use ispd_exa_engine.TestProgram.RouteFile.{shifted}
use ispd_exa_engine.Double.{Double}
use ispd_exa_engine.Model.{is_out_of_unit}
use ispd_exa_engine.TestProgram.{register_test_machine, register_test_link}
use ispd_exa_engine.TestProgram.Registration.{
  Registers, from_first, test_machine, test_link, register_test_machine-Registers,
  register_test_link-Registers,
}

module _ {D : Type 0} where
  -- Two initializers have been added, one at an identifier and one before it.
  pub record RegistersPair (sim : Simulator D) (id : ℕ) (init before : ServiceInitializer D)
      (res : Result (Simulator D)) : Type 0 where
    pub after : Simulator D
    pub ran : res ≡ ok after
    pub finds : find id after.service_initializers ≡ some init
    pub finds_before : find (id - 1) after.service_initializers ≡ some before
    pub keeps :
        (j : ℕ)
        → id ≢ j
        → id - 1 ≢ j
        → find j after.service_initializers ≡ find j sim.service_initializers
    pub size : length after.service_initializers ≡ length sim.service_initializers + 2
    pub same : after.service_finalizers ≡ sim.service_finalizers

  -- The second registration is made in the state after the first.
  pub RegistersPair-of_two :
      (sim : Simulator D) (id : ℕ) (init before : ServiceInitializer D)
      (res1 res : Result (Simulator D))
      → 1 ≤ id
      → (r : Registers sim id init res1) → Registers r.after (id - 1) before res
      → RegistersPair sim id init before res
  RegistersPair-of_two sim id init before res1 res positive r q = record {
    after = q.after;
    ran = q.ran;
    finds =
        q.finds id
        ∙ rw (==-false (id - 1) id (λ e. omega (arith, e)), r.finds id, ==-true id id refl) refl;
    finds_before = q.finds (id - 1) ∙ rw (==-true (id - 1) (id - 1) refl) refl;
    keeps = λ j ne ne'. q.finds j ∙ rw (==-false (id - 1) j ne', r.finds j, ==-false id j ne) refl;
    size = omega (arith, q.size, r.size);
    same = q.same ∙ r.same;
  }

  -- The identifiers of the rounds and those before them have been registered.
  pub record RegistersPairs (sim : Simulator D) (first rounds : ℕ)
      (init before : ℕ → ServiceInitializer D) (res : Result (Simulator D)) : Type 0 where
    pub after : Simulator D
    pub ran : res ≡ ok after
    pub finds :
        (i : ℕ)
        → i < rounds
        → find (first + 2 * i) after.service_initializers ≡ some (init (first + 2 * i))
    pub finds_before :
        (i : ℕ)
        → i < rounds
        → find (first + 2 * i - 1) after.service_initializers ≡ some (before (first + 2 * i))
    pub keeps :
        (j : ℕ)
        → ((i : ℕ) → i < rounds → (first + 2 * i ≢ j) × (first + 2 * i - 1 ≢ j))
        → find j after.service_initializers ≡ find j sim.service_initializers
    pub size : length after.service_initializers ≡ length sim.service_initializers + 2 * rounds
    pub same : after.service_finalizers ≡ sim.service_finalizers

  pub every_other-RegistersPairs :
      (body : ℕ → Simulator D → Result (Simulator D)) (init before : ℕ → ServiceInitializer D)
      → ((id : ℕ) (sim : Simulator D)
          → 1 ≤ id
          → find id sim.service_initializers ≡ none
          → find (id - 1) sim.service_initializers ≡ none
          → RegistersPair sim id (init id) (before id) (body id sim))
      → (rounds first : ℕ) (sim : Simulator D) → 1 ≤ first
      → ((j : ℕ) → first ≤ j + 1 → find j sim.service_initializers ≡ none)
      → RegistersPairs sim first rounds init before (every_other body rounds first sim)
  unfolding every_other
  every_other-RegistersPairs body init before one zero first sim positive free = record {
    after = sim;
    ran = refl;
    finds = λ i lt. elim lt [ ];
    finds_before = λ i lt. elim lt [ ];
    keeps = λ j out. refl;
    size = omega arith;
    same = refl;
  }
  every_other-RegistersPairs body init before one (suc rounds) first sim positive free =
      let r = one first sim positive (free first (omega arith)) (free (first - 1) (omega arith)) in
      let rest =
        every_other-RegistersPairs body init before one rounds (first + 2) r.after (omega arith)
          (λ j h.
            r.keeps j (λ e. omega (arith, h, e)) (λ e. omega (arith, h, e, positive))
            ∙ free j (omega (arith, h))) in
      let found : find first rest.after.service_initializers ≡ some (init first) =
        rest.keeps first (λ i lt. (λ e. omega (arith, e), λ e. omega (arith, e))) ∙ r.finds in
      let found_before : find (first - 1) rest.after.service_initializers ≡ some (before first) =
        rest.keeps (first - 1) (λ i lt. (λ e. omega (arith, e), λ e. omega (arith, e, positive)))
        ∙ r.finds_before in
      record {
        after = rest.after;
        ran = rw r.ran rest.ran;
        finds =
            from_first (λ k. find k rest.after.service_initializers ≡ some (init k)) first rounds
              found rest.finds;
        finds_before =
            from_first (λ k. find (k - 1) rest.after.service_initializers ≡ some (before k)) first
              rounds found_before rest.finds_before;
        keeps = λ j out.
            rest.keeps j (λ i lt.
              subst (λ k. (k ≢ j) × (k - 1 ≢ j)) (sym (shifted first i))
                (out (suc i) (omega arith)))
            ∙ r.keeps j (λ e. (out 0 (omega arith)).0 (omega (arith, e)))
                (λ e. (out 0 (omega arith)).1 (omega (arith, e)));
        size = omega (arith, r.size, rest.size);
        same = rest.same ∙ r.same;
      }

module _ {D : Type 0} ⦃d : Double D⦄ where
  -- A machine, and before it a link whose ends depend on the machine.
  pub machine_and_link-RegistersPair :
      (memory : ℕ → Option D)
      → d.le (d.of_nat 2) d.nought ≡ false
      → is_out_of_unit d.nought ≡ false
      → (from to : ℕ → ℕ) (id : ℕ) (sim : Simulator D) → 1 ≤ id
      → find id sim.service_initializers ≡ none
      → find (id - 1) sim.service_initializers ≡ none
      → RegistersPair sim id (test_machine memory id) (test_link (from id) (to id) (id - 1)) (
          register_test_machine memory id sim >>= λ sim'.
          register_test_link (from id) (to id) (id - 1) sim')
  machine_and_link-RegistersPair memory strong inside from to id sim positive fresh fresh' =
      let r = register_test_machine-Registers memory strong inside id sim fresh in
      let other : find (id - 1) r.after.service_initializers ≡ none =
        r.finds (id - 1) ∙ rw (==-false id (id - 1) (λ e. omega (arith, e, positive))) fresh' in
      let q = register_test_link-Registers inside (from id) (to id) (id - 1) r.after other in
      RegistersPair-of_two sim id _ _ _ _ positive r (rw r.ran q)
