-- ===== src/TestProgram/Registration.antt =====
-- What the loops of the programs of test register: include/simulator/simulator.hpp and
-- src/model/builder.cpp.
use ispd_exa_engine.Base.{
  Option, ℕ, zero, suc, ◌+◌, ◌*◌, ◌<◌, ◌≡◌, ◌≢◌, ◌∙◌, refl, sym, ap, subst, [], none, some, Result,
  ok, arith, ◌==◌, if◌then◌else◌, length, ==-true, ==-false, false,
}
use ispd_exa_engine.Double.{Double}
use ispd_exa_engine.UnorderedMap.{find, insert, length-insert}
use ispd_exa_engine.Simulator.{Simulator, ServiceInitializer, register_service, machine, link}
use ispd_exa_engine.Simulator.Registry.{find-insert}
use ispd_exa_engine.Service.Machine.{new_machine}
use ispd_exa_engine.Service.Link.{new_link}
use ispd_exa_engine.Model.{register_machine, register_link, is_out_of_unit}
use ispd_exa_engine.TestProgram.{every_other, register_test_machine, register_test_link}
use ispd_exa_engine.TestProgram.RouteFile.{shifted}

pub from_first :
    (P : ℕ → Type 0) (first rounds : ℕ)
    → P first
    → ((i : ℕ) → i < rounds → P (first + 2 + 2 * i))
    → (i : ℕ) → i < suc rounds
    → P (first + 2 * i)
from_first P first rounds p ps zero lt =
    let at_first : first ≡ first + 2 * 0 = omega arith in subst P at_first p
from_first P first rounds p ps (suc i) lt = subst P (shifted first i) (ps i (omega arith))

module _ {D : Type 0} where
  -- One initializer has been added.
  pub record Registers (sim : Simulator D) (id : ℕ) (init : ServiceInitializer D)
      (res : Result (Simulator D)) : Type 0 where
    pub after : Simulator D
    pub ran : res ≡ ok after
    pub finds :
        (j : ℕ)
        → find j after.service_initializers
          ≡ (if id == j then some init else find j sim.service_initializers)
    pub size : length after.service_initializers ≡ length sim.service_initializers + 1
    pub same : after.service_finalizers ≡ sim.service_finalizers

  pub register_service-Registers :
      (sim : Simulator D) (id : ℕ) (init : ServiceInitializer D)
      → find id sim.service_initializers ≡ none
      → Registers sim id init (register_service sim id init)
  unfolding register_service
  register_service-Registers sim id init fresh = record {
    after = record sim { service_initializers = insert id init sim.service_initializers };
    ran = rw (register_service, fresh) refl;
    finds = λ j. find-insert id j init sim.service_initializers fresh;
    size = length-insert id init sim.service_initializers ∙ rw fresh (omega arith);
    same = refl;
  }

  -- Every other identifier from `first` on has been registered.
  pub record RegistersAll (sim : Simulator D) (first rounds : ℕ) (init : ℕ → ServiceInitializer D)
      (res : Result (Simulator D)) : Type 0 where
    pub after : Simulator D
    pub ran : res ≡ ok after
    pub finds :
        (i : ℕ)
        → i < rounds
        → find (first + 2 * i) after.service_initializers ≡ some (init (first + 2 * i))
    pub keeps :
        (j : ℕ)
        → ((i : ℕ) → i < rounds → first + 2 * i ≢ j)
        → find j after.service_initializers ≡ find j sim.service_initializers
    pub size : length after.service_initializers ≡ length sim.service_initializers + rounds
    pub same : after.service_finalizers ≡ sim.service_finalizers

  pub every_other-RegistersAll :
      (body : ℕ → Simulator D → Result (Simulator D)) (init : ℕ → ServiceInitializer D)
      → ((id : ℕ) (sim : Simulator D)
          → find id sim.service_initializers ≡ none
          → Registers sim id (init id) (body id sim))
      → (rounds first : ℕ) (sim : Simulator D)
      → ((i : ℕ) → i < rounds → find (first + 2 * i) sim.service_initializers ≡ none)
      → RegistersAll sim first rounds init (every_other body rounds first sim)
  unfolding every_other
  every_other-RegistersAll body init one zero first sim free = record {
    after = sim;
    ran = refl;
    finds = λ i lt. elim lt [ ];
    keeps = λ j out. refl;
    size = omega arith;
    same = refl;
  }
  every_other-RegistersAll body init one (suc rounds) first sim free =
      let at_first : first + 2 * 0 ≡ first = omega arith in
      let fresh : find first sim.service_initializers ≡ none =
        subst (λ k. find k sim.service_initializers ≡ none) at_first (free 0 (omega arith)) in
      let r = one first sim fresh in
      let others : (j : ℕ)
          → first ≢ j
          → find j r.after.service_initializers ≡ find j sim.service_initializers =
        λ j ne. r.finds j ∙ rw (==-false first j ne) refl in
      let rest = every_other-RegistersAll body init one rounds (first + 2) r.after (λ i lt.
        others (first + 2 + 2 * i) (omega arith)
        ∙ ap (λ k. find k sim.service_initializers) (shifted first i)
        ∙ free (suc i) (omega arith)) in
      let found : find first rest.after.service_initializers ≡ some (init first) =
        rest.keeps first (λ i lt. omega arith)
        ∙ r.finds first
        ∙ rw (==-true first first refl) refl in
      record {
        after = rest.after;
        ran = rw r.ran rest.ran;
        finds =
            from_first (λ k. find k rest.after.service_initializers ≡ some (init k)) first rounds
              found rest.finds;
        keeps = λ j out.
            rest.keeps j (λ i lt e. out (suc i) (omega arith) (sym (shifted first i) ∙ e))
            ∙ others j (λ e. out 0 (omega arith) (at_first ∙ e));
        size = omega (arith, r.size, rest.size);
        same = rest.same ∙ r.same;
      }

module _ {D : Type 0} ⦃d : Double D⦄ where
  abbrev pub test_machine : (memory : ℕ → Option D) → ℕ → ServiceInitializer D
  test_machine memory id = ok (machine (new_machine memory id (d.of_nat 2) d.nought 2), [])

  abbrev pub test_link : (from to id : ℕ) → ServiceInitializer D
  test_link from to id = ok (link (new_link id from to (d.of_nat 5) d.nought d.one), [])

  pub register_test_machine-Registers :
      (memory : ℕ → Option D)
      → d.le (d.of_nat 2) d.nought ≡ false
      → is_out_of_unit d.nought ≡ false
      → (id : ℕ) (sim : Simulator D) → find id sim.service_initializers ≡ none
      → Registers sim id (test_machine memory id) (register_test_machine memory id sim)
  unfolding register_test_machine register_machine
  register_test_machine-Registers memory strong inside id sim fresh =
      rw (strong, inside) (register_service-Registers sim id _ fresh)

  pub register_test_link-Registers :
      is_out_of_unit d.nought ≡ false
      → (from to id : ℕ) (sim : Simulator D) → find id sim.service_initializers ≡ none
      → Registers sim id (test_link from to id) (register_test_link from to id sim)
  unfolding register_test_link register_link
  register_test_link-Registers inside from to id sim fresh =
      rw inside (register_service-Registers sim id _ fresh)
