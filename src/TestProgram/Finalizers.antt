-- ===== src/TestProgram/Finalizers.antt =====
-- The finalizers that the programs of test register: test/include/test.hpp.
use ispd_exa_engine.Base.{
  ℕ, ◌≡◌, ◌≢◌, ◌∙◌, refl, sym, ap, [], none, some, Result, ok, ◌==◌, ==-false, Bool-cases, inl, inr,
}
use mathlib.Core.Option.{some-injective}
use ispd_exa_engine.UnorderedMap.{find, insert}
use ispd_exa_engine.Simulator.{Simulator, ServiceFinalizer, Service, register_service_finalizer}
use ispd_exa_engine.Simulator.Registry.{find-insert}
use ispd_exa_engine.TestProgram.{print_metrics}

module _ {D : Type 0} where
  -- The finalizers only print.
  abbrev pub ArePrinters : Simulator D → Type 0
  ArePrinters sim =
      (id : ℕ) (finalizer : ServiceFinalizer D)
      → find id sim.service_finalizers ≡ some finalizer
      → (s : Service D) → finalizer s ≡ ok tt

  pub ArePrinters-none : (sim : Simulator D) → sim.service_finalizers ≡ [] → ArePrinters sim
  unfolding find
  ArePrinters-none sim e id finalizer found s = let listed = ap (find id) (sym e) ∙ found in cc

  -- One more finalizer that prints.
  pub record Prints (sim : Simulator D) (id : ℕ) (res : Result (Simulator D)) : Type 0 where
    pub after : Simulator D
    pub ran : res ≡ ok after
    pub kept : after.service_initializers ≡ sim.service_initializers
    pub printers : ArePrinters after
    pub others : (j : ℕ) → id ≢ j → find j after.service_finalizers ≡ find j sim.service_finalizers

  pub register_service_finalizer-Prints :
      (sim : Simulator D) (id : ℕ)
      → find id sim.service_finalizers ≡ none
      → ArePrinters sim
      → Prints sim id (register_service_finalizer sim id print_metrics)
  unfolding register_service_finalizer
  register_service_finalizer-Prints sim id fresh printers = record {
    after = record sim { service_finalizers = insert id print_metrics sim.service_finalizers };
    ran = rw (register_service_finalizer, fresh) refl;
    kept = refl;
    printers = λ j finalizer found s.
        let same = sym (find-insert id j print_metrics sim.service_finalizers fresh) ∙ found in
        elim (Bool-cases (id == j)) [
          | inl here ↦ let is = some-injective _ _ (rw here at same) in ap (λ f. f s) (sym is)
          | inr other ↦ printers j finalizer (rw other at same) s
        ];
    others = λ j ne.
        find-insert id j print_metrics sim.service_finalizers fresh ∙ rw (==-false id j ne) refl;
  }

  -- Two finalizers are the first that are registered.
  pub two_finalizers-Print :
      (sim : Simulator D) (id id' : ℕ)
      → sim.service_finalizers ≡ []
      → id ≢ id'
      → (r : Prints sim id (register_service_finalizer sim id print_metrics)) × Prints r.after id'
          (register_service_finalizer r.after id' print_metrics)
  unfolding find
  two_finalizers-Print sim id id' none_yet ne =
      let r =
        register_service_finalizer-Prints sim id (ap (find id) none_yet)
          (ArePrinters-none sim none_yet) in
      (
        r,
        register_service_finalizer-Prints r.after id' (r.others id' ne ∙ ap (find id') none_yet)
            r.printers,
      )
