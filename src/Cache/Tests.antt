-- ===== src/Cache/Tests.antt =====
-- Runs of the simulator of Multi_Level_Cache/cachesim.c on small inputs.
use ece.Prelude.{
  ℕ, zero, suc, ◌/◌, ◌^◌, ◌≤◌, ◌<◌, ◌≡◌, refl, ltb, if◌then◌else◌, arith, ◌>>=◌, Returns, ◌↔◌, pos,
  List, [], ◌∷◌, Bool-cases, inl, inr,
}
use native.Mathlib.Nat.{pow-suc}
use ece.Cache.Types.{CacheSim, zero_counters}
use ece.Cache.LevelTwo.{l2_tag, l2_index, access_set}
use ece.Cache.LevelOne.{l1_tag, l1_index, l1_cachesim_access, run_trace}
use ece.Cache.Init.{init_set, init_config, initial_state, cachesim_init}
use ece.Cache.Address.{
  IsLog2, IsConfig, init_config-IsConfig, l1_tag-l1_index_iff, l2_tag-l2_index_iff,
}
use ece.Cache.Lru.Choice.{IsCacheSet}
use ece.Cache.Lru.Invariant.{init_set-IsCacheSet, access_set-IsCacheSet}
use ece.Cache.Lru.Order.{InOrder, IsLruAccess, access_set-IsLruAccess}
use ece.Cache.Invariant.{IsWellFormed, initial_state-IsWellFormed, run_trace-IsWellFormed}
use ece.Cache.Stats.{Tally, all_lines, data_lines, fetch_lines, run_trace-Tally}
use ece.Cache.FirstLevel.{IsDataHit, l1_cachesim_access_again, cold_line_hits}

-- A logarithm, by halving.
halvings : ℕ → ℕ → ℕ
halvings zero n = 0
halvings (suc fuel) n = let rest = halvings fuel (n / 2) in if ltb n 2 then 0 else suc rest

halvings_lem :
    (fuel n : ℕ) → n ≤ fuel → 0 < n → (2 ^ halvings fuel n ≤ n) × (n < 2 ^ suc (halvings fuel n))
unfolding halvings
halvings_lem zero n h p = absurd (omega arith)
halvings_lem (suc fuel) n h p = elim (Bool-cases (ltb n 2)) [
  | inl small ↦ rw small (ground arith)
  | inr large ↦
      let big : 2 ≤ n = ground arith in
      let (lo, hi) = halvings_lem fuel (n / 2) (omega arith) (omega arith) in
      let k = halvings fuel (n / 2) in
      rw large (
        omega (arith, pow-suc 2 k, pow-suc 2 (suc k)),
        omega (arith, pow-suc 2 k, pow-suc 2 (suc k)),
      )
]

abbrev floor_log2 : ℕ → ℕ
floor_log2 n = halvings n n

floor_log2-IsLog2 : IsLog2 floor_log2
floor_log2-IsLog2 n p = halvings_lem n n (omega arith) p

-- 64 KiB in sets of 8 blocks of 64 bytes.
abbrev small : CacheSim
small = initial_state floor_log2 64 65536 8

small-IsWellFormed : IsWellFormed small
small-IsWellFormed =
    initial_state-IsWellFormed floor_log2 floor_log2-IsLog2 64 65536 8 (omega arith) (omega arith)
      (omega arith) (omega arith) (omega arith)

abbrev lines : List (ℕ × ℕ)
lines = (b'w', 0x12345) ∷ (b'r', 0x12346) ∷ (b'i', 0x400) ∷ []

two_ways : InOrder 2 (init_set 2).lru_counter (λ i. i) 2
unfolding init_set
two_ways = record { past = λ i p. p; agrees = λ i j p q e. ground arith }

access_set-IsLruAccess_example :
    Returns
      (λ (t, d). IsLruAccess 2 5 (init_set 2) (λ i. i) 2 t)
      (access_set 2 5 b'r' (init_set 2) zero_counters)
access_set-IsLruAccess_example =
    access_set-IsLruAccess 5 b'r' zero_counters (init_set-IsCacheSet 2 (omega arith)) two_ways
      (omega arith) (omega arith)

access_set-IsCacheSet_example :
    Returns (λ (t, d). IsCacheSet 2 t) (access_set 2 5 b'w' (init_set 2) zero_counters)
access_set-IsCacheSet_example =
    access_set-IsCacheSet 5 b'w' zero_counters (init_set-IsCacheSet 2 (omega arith)) (omega arith)
      (omega arith)

run_trace-IsWellFormed_example :
    Returns IsWellFormed (cachesim_init floor_log2 64 65536 8 >>= λ s. run_trace s lines)
run_trace-IsWellFormed_example =
    run_trace-IsWellFormed floor_log2 floor_log2-IsLog2 64 65536 8 (omega arith) (omega arith)
      (omega arith) (omega arith) (omega arith) lines

run_trace-Tally_example :
    Returns
      (λ t. Tally (all_lines lines) (data_lines lines) (fetch_lines lines) t.counters)
      (cachesim_init floor_log2 64 65536 8 >>= λ s. run_trace s lines)
run_trace-Tally_example =
    run_trace-Tally floor_log2 floor_log2-IsLog2 64 65536 8 (omega arith) (omega arith)
      (omega arith) (omega arith) (omega arith) lines

init_config-IsConfig_example : IsConfig (init_config floor_log2 64 65536 8)
init_config-IsConfig_example =
    init_config-IsConfig floor_log2 floor_log2-IsLog2 64 65536 8 (omega arith) (omega arith)
      (omega arith) (omega arith) (omega arith)

l2_tag-l2_index_iff_example :
    ((l2_tag small.config 0x12345 ≡ l2_tag small.config 0x12350)
      × (l2_index small.config 0x12345 ≡ l2_index small.config 0x12350))
    ↔ (0x12345 / 2 ^ small.config.l2_offset_size ≡ 0x12350 / 2 ^ small.config.l2_offset_size)
l2_tag-l2_index_iff_example =
    l2_tag-l2_index_iff small.config small-IsWellFormed.config 0x12345 0x12350

l1_tag-l1_index_iff_example :
    ((l1_tag small.config 0x12345 ≡ l1_tag small.config 0x22345)
      × (l1_index small.config 0x12345 ≡ l1_index small.config 0x22345))
    ↔ (0x12345 / 2 ^ small.config.l1_offset_size ≡ 0x22345 / 2 ^ small.config.l1_offset_size)
l1_tag-l1_index_iff_example =
    l1_tag-l1_index_iff small.config small-IsWellFormed.config 0x12345 0x22345

neighbours : 0x12345 / 2 ^ small.config.l1_offset_size ≡ 0x12350 / 2 ^ small.config.l1_offset_size
unfolding initial_state init_config halvings
neighbours = refl

l1_cachesim_access_again_example :
    Returns
      (λ t. Returns (IsDataHit t) (l1_cachesim_access t 0x12350 b'r'))
      (l1_cachesim_access small 0x12345 b'w')
l1_cachesim_access_again_example =
    l1_cachesim_access_again 0x12345 0x12350 b'w' b'r' small small-IsWellFormed refl refl neighbours

cold_line_hits_example :
    ((small.d_cache (l1_index small.config 0x123)).valid_bit ≡ pos 0)
    × Returns (IsDataHit small) (l1_cachesim_access small 0x123 b'r')
cold_line_hits_example =
    cold_line_hits floor_log2 floor_log2-IsLog2 64 65536 8 (omega arith) (omega arith) (omega arith)
      (omega arith) (omega arith) 0x123 b'r' refl (omega arith)
