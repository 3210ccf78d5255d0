-- ===== src/Vm/Random.antt =====
-- The generator of Virtual_Memory/simulator-src/util.c.
use Prim.Native.Nat.{bit_xor, bit_or}
use ece.Prelude.{ℕ, ◌+◌, ◌-◌, ◌*◌, ◌/◌, ◌%◌, ◌^◌, u64_mod}

-- The constant `rstate.inc`, with its lowest bit set.
abbrev pub increment : ℕ
increment = 0x28bf_cf2f_5a7c_dfa3

-- The new state, and the 32 bits that are drawn.
unfoldable pub pcg32_random_r : ℕ → ℕ × ℕ
pcg32_random_r oldstate =
    let xorshifted = bit_xor (oldstate / 2 ^ 18) oldstate / 2 ^ 27 % 2 ^ 32 in
    let rot = oldstate / 2 ^ 59 in
    (
      (oldstate * 6364136223846793005 + increment) % u64_mod,
      bit_or (xorshifted / 2 ^ rot) (xorshifted * 2 ^ ((32 - rot) % 32) % 2 ^ 32),
    )

abbrev pub initial_rng : ℕ
initial_rng = 0x5742_4aae_4a20_24be
