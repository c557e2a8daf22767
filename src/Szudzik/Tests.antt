-- ===== src/Szudzik/Tests.antt =====
-- include/math/utility.hpp on concrete identifiers.
use ispd_exa_engine.Base.{ℕ, ◌≡◌, refl, arith}
use ispd_exa_engine.Szudzik.{szudzik}
use ispd_exa_engine.Szudzik.Pairing.{szudzik_injective}

szudzik_values :
    (szudzik 3 5 ≡ 28) × (szudzik 5 3 ≡ 33) × (szudzik 4294967295 4294967295 ≡ 18446744073709551615)
unfolding szudzik
szudzik_values = (refl, refl, refl)

szudzik_injective_example : (◌≡◌ {A = ℕ} 3 3) × (◌≡◌ {A = ℕ} 5 5)
unfolding szudzik
szudzik_injective_example =
    szudzik_injective 3 5 3 5 (omega arith) (omega arith) (omega arith) (omega arith) refl
