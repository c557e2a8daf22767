-- ===== src/Distribution.antt =====
-- include/math/distribution/distribution.hpp: `TwoStageUniformDistribution`.
use ispd_exa_engine.Base.{if◌then◌else◌}
use ispd_exa_engine.Double.{Double, ◌⊕◌, ◌⊖◌, ◌⊗◌, ◌⊴◌}

-- One draw decides between the stages from `low` to `med` and from `med` to `hi`, and a second one is
-- scaled to the stage. `uniform` takes the random engine's state to a value and the next state.
unfoldable pub two_stage_uniform :
    {D R : Type 0}
    → ⦃d : Double D⦄ → (uniform : R → D × R) (low med hi prob : D) (engine : R) → D × R
two_stage_uniform uniform low med hi prob engine =
    let (u, engine') = uniform engine in
    let a = if u ⊴ prob then low else med in
    let b = if u ⊴ prob then med else hi in
    let (v, engine'') = uniform engine' in (v ⊗ (b ⊖ a) ⊕ a, engine'')
