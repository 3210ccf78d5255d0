-- ===== src/Cache/Types.antt =====
-- The data of Multi_Level_Cache/cachesim.h and the globals of Multi_Level_Cache/cachesim.c.
-- `none` of an operation stands for undefined behaviour of the source: an index out of an array,
-- a shift by the word's width, a division by zero.
use ece.Prelude.{ℕ, ℤ}

-- One set of the second level: 128 ways, of which the first `max_lru` are in use.
pub record L2CacheStruct : Type 0 where
  pub tag : ℕ → ℕ
  pub valid_bit : ℕ → ℤ
  pub dirty_bit : ℕ → ℤ
  pub lru_counter : ℕ → ℤ

-- One line of a direct-mapped first-level cache.
pub record L1CacheStruct : Type 0 where
  pub tag : ℕ
  pub valid_bit : ℤ
  pub dirty_bit : ℤ

-- The sizes that `cachesim_init` computes.
pub record Config : Type 0 where
  pub l2_offset_size : ℕ
  pub l2_index_size : ℕ
  pub l2_tag_size : ℕ
  pub l2_index_max : ℕ
  pub max_lru : ℕ
  pub l1_offset_size : ℕ
  pub l1_index_size : ℕ
  pub l1_tag_size : ℕ
  pub l1_index_max : ℕ

pub record Counters : Type 0 where
  pub accesses : ℕ
  pub hits : ℕ
  pub misses : ℕ
  pub writebacks : ℕ
  pub d_hit : ℕ
  pub d_miss : ℕ
  pub i_hit : ℕ
  pub i_miss : ℕ
  pub l2_hit : ℕ
  pub l2_miss : ℕ
  pub write_miss : ℕ
  pub write_count : ℕ
  pub read_count : ℕ
  pub fetch_count : ℕ

pub record CacheSim : Type 0 where
  pub config : Config
  pub counters : Counters
  pub l2_cache : ℕ → L2CacheStruct
  pub i_cache : ℕ → L1CacheStruct
  pub d_cache : ℕ → L1CacheStruct

abbrev pub zero_counters : Counters
zero_counters = record {
  accesses = 0;
  hits = 0;
  misses = 0;
  writebacks = 0;
  d_hit = 0;
  d_miss = 0;
  i_hit = 0;
  i_miss = 0;
  l2_hit = 0;
  l2_miss = 0;
  write_miss = 0;
  write_count = 0;
  read_count = 0;
  fetch_count = 0;
}
