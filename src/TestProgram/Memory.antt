-- ===== src/TestProgram/Memory.antt =====
-- The free times of the two cores of a machine in the programs of test, which include/service/machine.hpp
-- never writes: what the block of `rs_malloc` holds.
use ispd_exa_engine.Base.{
  ℕ, ◌≡◌, refl, sym, ◌∙◌, true, [], ◌∷◌, Option, some, ◌⊎◌, inl, inr, Option-cases, Bool-cases,
}
use mathlib.Core.Option.{some-injective}
use ispd_exa_engine.Double.{Double}
use ispd_exa_engine.Service.Machine.{new_machine}
use ispd_exa_engine.Service.Machine.Process.{HasFreeCore}

module _ {D : Type 0} ⦃d : Double D⦄ (memory : ℕ → Option D) where
  -- The block has a number for each of two cores, and one of them is before the largest finite time.
  abbrev pub CoresAreFree : Type 0
  CoresAreFree =
      (t : D) × (u : D) × (memory 0 ≡ some t)
      × (memory 1 ≡ some u)
      × ((d.lt t d.max_value ≡ true) ⊎ (d.lt u d.max_value ≡ true))

  pub CoresAreFree-decided : CoresAreFree ⊎ ¬ CoresAreFree
  CoresAreFree-decided = elim (Option-cases (memory 0)) [
    | inl unwritten ↦ inr (λ free. let (t, u, e, _, _) = free in cc (sym unwritten ∙ e))
    | inr (t, e) ↦ elim (Option-cases (memory 1)) [
      | inl unwritten ↦ inr (λ free. let (t', u, _, f, _) = free in cc (sym unwritten ∙ f))
      | inr (u, f) ↦ elim (Bool-cases (d.lt t d.max_value)) [
        | inl early ↦ inl (t, u, e, f, inl early)
        | inr late ↦ elim (Bool-cases (d.lt u d.max_value)) [
          | inl early ↦ inl (t, u, e, f, inr early)
          | inr late' ↦ inr (λ free.
              let (t', u', e', f', one) = free in
              let first : t ≡ t' = some-injective _ _ (sym e ∙ e') in
              let second : u ≡ u' = some-injective _ _ (sym f ∙ f') in
              elim one [ inl h ↦ cc (late, first, h) | inr h ↦ cc (late', second, h) ])
        ]
      ]
    ]
  ]

  pub new_machine-HasFreeCore :
      (id : ℕ) (power load_factor : D)
      → CoresAreFree
      → HasFreeCore (new_machine memory id power load_factor 2)
  new_machine-HasFreeCore id power load_factor (t, u, e, f, inl early) =
      (t ∷ u ∷ [], rw (e, f) refl, 0, t, refl, early)
  new_machine-HasFreeCore id power load_factor (t, u, e, f, inr early) =
      (t ∷ u ∷ [], rw (e, f) refl, 1, u, refl, early)
