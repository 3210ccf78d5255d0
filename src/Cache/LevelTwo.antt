-- ===== src/Cache/LevelTwo.antt =====
-- The second level of Multi_Level_Cache/cachesim.c: set-associative, with an LRU counter per way.
use ece.Prelude.{
  ℕ, ◌+◌, ◌-◌, ◌%◌, Bool, not, ◌&&◌, ◌||◌, Option, none, some, leb, ◌==◌, if◌then◌else◌, ◌>>=◌, ℤ,
  pos, negsuc, ltb_ℤ, eqb_ℤ, pred_ℤ, int_of_u32, update, for_loop, find_first, u64_mod, shl64,
  shr64, inc64,
}
use ece.Cache.Types.{L2CacheStruct, Config, Counters, CacheSim}

abbrev pub ways : ℕ
ways = 128

-- The test of `check_tag_and_validBit`; the -1 there becomes an `addr_t`.
unfoldable pub holds_tag : L2CacheStruct → ℕ → ℕ → Bool
holds_tag cache tag i =
    not (cache.tag i == u64_mod - 1)
    && (not (eqb_ℤ (cache.valid_bit i) (pos 0)) && (cache.tag i == tag))

-- `none` is the -1 of the source, here and in `get_lru_index`.
unfoldable pub check_tag_and_valid_bit : L2CacheStruct → ℕ → Option ℕ
unfolding holds_tag
check_tag_and_valid_bit cache tag = find_first (holds_tag cache tag) ways 0

unfoldable pub get_lru_index : L2CacheStruct → Option ℕ
get_lru_index cache = find_first (λ i. eqb_ℤ (cache.lru_counter i) (pos 0)) ways 0

-- One round of the loop that ages the ways used after `block_index`.
unfoldable pub age_step : ℕ → ℕ → (ℕ → ℤ) → ℕ → ℤ
age_step block_index i counter =
    if not (eqb_ℤ (counter i) (negsuc 0)) && ltb_ℤ (counter block_index) (counter i)
    then update counter i (pred_ℤ (counter i))
    else counter

-- The block becomes the most recently used one. `max_LRU - 1` is unsigned, the counter an `int`.
unfoldable pub set_lru_counter : ℕ → ℕ → L2CacheStruct → L2CacheStruct
unfolding age_step
set_lru_counter max_lru block_index cache =
    let counter = for_loop ways 0 (age_step block_index) cache.lru_counter in
    record cache {
      lru_counter =
          update counter block_index (int_of_u32 ((max_lru + 0xffff_ffff) % 0x1_0000_0000));
    }

unfoldable pub hit_block : ℕ → ℕ → L2CacheStruct → L2CacheStruct
hit_block block_index input cache =
    if input == b'w'
    then record cache { dirty_bit = update cache.dirty_bit block_index (pos 1) }
    else cache

unfoldable pub fill_block : ℕ → ℕ → ℕ → L2CacheStruct → L2CacheStruct
fill_block block_index tag input cache =
    let cleaned =
      if eqb_ℤ (cache.dirty_bit block_index) (pos 1)
      then update cache.dirty_bit block_index (pos 0)
      else cache.dirty_bit in
    record cache {
      tag = update cache.tag block_index tag;
      valid_bit = update cache.valid_bit block_index (pos 1);
      dirty_bit = if input == b'w' then update cleaned block_index (pos 1) else cleaned;
    }

unfoldable pub count_access : ℕ → Counters → Counters
count_access input c = record c {
  accesses = inc64 c.accesses;
  write_count = if input == b'w' then inc64 c.write_count else c.write_count;
}

unfoldable pub count_hit : Counters → Counters
count_hit c = record c { l2_hit = inc64 c.l2_hit }

unfoldable pub count_miss : Bool → ℕ → Counters → Counters
count_miss dirty input c = record c {
  l2_miss = inc64 c.l2_miss;
  writebacks = if dirty then inc64 c.writebacks else c.writebacks;
  write_miss = if input == b'w' then inc64 c.write_miss else c.write_miss;
}

-- The part of an access behind the choice of the set.
unfoldable pub access_set : ℕ → ℕ → ℕ → L2CacheStruct → Counters → Option (L2CacheStruct × Counters)
access_set max_lru tag input cache c = elim (check_tag_and_valid_bit cache tag) [
  | some b ↦ some (set_lru_counter max_lru b (hit_block b input cache), count_hit c)
  | none ↦ do
    b ← get_lru_index cache
    some (
      set_lru_counter max_lru b (fill_block b tag input cache),
      count_miss (eqb_ℤ (cache.dirty_bit b) (pos 1)) input c,
    )
]

unfoldable pub l2_tag : Config → ℕ → ℕ
l2_tag g physical_addr = shr64 physical_addr (g.l2_index_size + g.l2_offset_size)

unfoldable pub l2_index : Config → ℕ → ℕ
l2_index g physical_addr =
    shr64 (shr64 (shl64 physical_addr g.l2_tag_size) g.l2_tag_size) g.l2_offset_size

-- A shift by 64 or more and an index past the array are undefined.
unfoldable pub l2_cachesim_access : CacheSim → ℕ → ℕ → Option CacheSim
l2_cachesim_access s physical_addr input =
    let index = l2_index s.config physical_addr in
    if leb 64 s.config.l2_tag_size
      || leb 64 (s.config.l2_index_size + s.config.l2_offset_size)
      || leb s.config.l2_index_max index
    then none
    else do
      (cache, c) ←
          access_set s.config.max_lru (l2_tag s.config physical_addr) input (s.l2_cache index)
            (count_access input s.counters)
      some (record s { counters = c; l2_cache = update s.l2_cache index cache })
