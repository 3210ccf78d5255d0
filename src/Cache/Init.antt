-- ===== src/Cache/Init.antt =====
-- `cachesim_init` of Multi_Level_Cache/cachesim.c. The `log2` of the C library, with the
-- truncation of its result to an integer, is a parameter.
use ece.Prelude.{
  ℕ, ◌+◌, ◌-◌, ◌*◌, ◌/◌, ◌%◌, ◌||◌, Option, none, some, ltb, leb, ◌==◌, if◌then◌else◌, pos, negsuc,
  u64_mod,
}
use ece.Cache.Types.{L2CacheStruct, L1CacheStruct, Config, CacheSim, zero_counters}

-- The ways below `l2_ways` are empty, with the counters 0, 1, ..., the others are marked by -1.
unfoldable pub init_set : ℕ → L2CacheStruct
init_set l2_ways = record {
  tag = λ j. if ltb j l2_ways then 0 else u64_mod - 1;
  valid_bit = λ j. if ltb j l2_ways then pos 0 else negsuc 0;
  dirty_bit = λ j. if ltb j l2_ways then pos 0 else negsuc 0;
  lru_counter = λ j. if ltb j l2_ways then pos j else negsuc 0;
}

unfoldable pub init_line : L1CacheStruct
init_line = record { tag = 0; valid_bit = pos 0; dirty_bit = pos 0 }

module _ (log2 : ℕ → ℕ) where
  -- `unsigned int` subtraction wraps.
  unfoldable pub init_config : ℕ → ℕ → ℕ → Config
  init_config l2_blocksize l2_cachesize l2_ways =
      let l2_index_max = l2_cachesize / (l2_blocksize * l2_ways) in
      let l2_index_size = log2 l2_index_max in
      let l2_offset_size = log2 l2_blocksize in
      record {
        l2_offset_size = l2_offset_size;
        l2_index_size = l2_index_size;
        l2_tag_size = (0x1_0000_0000 + 64 - l2_index_size - l2_offset_size) % 0x1_0000_0000;
        l2_index_max = l2_index_max;
        max_lru = l2_ways;
        l1_offset_size = log2 64;
        l1_index_size = log2 256;
        l1_tag_size = (0x1_0000_0000 + 64 - log2 256 - log2 64) % 0x1_0000_0000;
        l1_index_max = 256;
      }

  -- What the loops of `cachesim_init` leave in the arrays and the counters.
  unfoldable pub initial_state : ℕ → ℕ → ℕ → CacheSim
  initial_state l2_blocksize l2_cachesize l2_ways = record {
    config = init_config l2_blocksize l2_cachesize l2_ways;
    counters = zero_counters;
    l2_cache = λ i. init_set l2_ways;
    i_cache = λ i. init_line;
    d_cache = λ i. init_line;
  }

  -- The product of two `int`s must not overflow, and nothing is divided by 0; `log2` of 0 is
  -- -infinity, which no integer stands for.
  unfoldable pub cachesim_init : ℕ → ℕ → ℕ → Option CacheSim
  cachesim_init l2_blocksize l2_cachesize l2_ways =
      if (l2_blocksize * l2_ways == 0)
        || leb 0x8000_0000 (l2_blocksize * l2_ways)
        || ltb l2_cachesize (l2_blocksize * l2_ways)
      then none
      else some (initial_state l2_blocksize l2_cachesize l2_ways)
