-- ===== src/Szudzik.antt =====
-- include/math/utility.hpp: Szudzik's pairing function on 32-bit arguments.
pub mod Pairing
pub mod Tests
use ispd_exa_engine.Base.{ℕ, ◌+◌, ◌*◌, ◌%◌, leb, u32, u64, if◌then◌else◌}

-- The arguments are converted to `uint32_t` and then widened; the sums and products wrap at 64 bits.
unfoldable pub szudzik : ℕ → ℕ → ℕ
szudzik a b =
    let a64 = u32 a in
    let b64 = u32 b in if leb b64 a64 then u64 (a64 * a64 + a64 + b64) else u64 (a64 + b64 * b64)
