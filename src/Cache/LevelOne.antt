-- ===== src/Cache/LevelOne.antt =====
-- The first level of Multi_Level_Cache/cachesim.c: direct-mapped instruction and data caches.
use ece.Prelude.{
  ℕ, ◌+◌, ◌||◌, Option, none, some, leb, ◌==◌, if◌then◌else◌, ◌>>=◌, pos, eqb_ℤ, update, shl64,
  shr64, inc64, List, [], ◌∷◌,
}
use ece.Cache.Types.{L1CacheStruct, Config, CacheSim}
use ece.Cache.LevelTwo.{l2_cachesim_access}

unfoldable pub l1_tag : Config → ℕ → ℕ
l1_tag g physical_addr = shr64 physical_addr (g.l1_index_size + g.l1_offset_size)

unfoldable pub l1_index : Config → ℕ → ℕ
l1_index g physical_addr =
    shr64 (shr64 (shl64 physical_addr g.l1_tag_size) g.l1_tag_size) g.l1_offset_size

-- What a miss does to the line: the old dirty bit is dropped, the tag taken over.
unfoldable pub fill_line : ℕ → ℕ → L1CacheStruct → L1CacheStruct
fill_line tag input line =
    let cleaned = if eqb_ℤ line.dirty_bit (pos 1) then pos 0 else line.dirty_bit in
    record { tag = tag; valid_bit = pos 1; dirty_bit = if input == b'w' then pos 1 else cleaned }

unfoldable pub d_access : ℕ → ℕ → ℕ → ℕ → CacheSim → Option CacheSim
d_access physical_addr tag index input s =
    if (s.d_cache index).tag == tag
    then some (record s {
      counters = record (s.counters) { d_hit = inc64 s.counters.d_hit };
      d_cache =
          if input == b'w'
          then update s.d_cache index (record (s.d_cache index) { dirty_bit = pos 1 })
          else s.d_cache;
    })
    else do
      t ←
          l2_cachesim_access
            (record s { counters = record (s.counters) { d_miss = inc64 s.counters.d_miss } })
            physical_addr input
      some (record t { d_cache = update t.d_cache index (fill_line tag input (t.d_cache index)) })

unfoldable pub i_access : ℕ → ℕ → ℕ → ℕ → CacheSim → Option CacheSim
i_access physical_addr tag index input s =
    if (s.i_cache index).tag == tag
    then some (record s { counters = record (s.counters) { i_hit = inc64 s.counters.i_hit } })
    else do
      t ←
          l2_cachesim_access
            (record s { counters = record (s.counters) { i_miss = inc64 s.counters.i_miss } })
            physical_addr input
      some (record t { i_cache = update t.i_cache index (fill_line tag input (t.i_cache index)) })

unfoldable pub l1_cachesim_access : CacheSim → ℕ → ℕ → Option CacheSim
l1_cachesim_access s physical_addr input =
    let tag = l1_tag s.config physical_addr in
    let index = l1_index s.config physical_addr in
    let counted = record s {
      counters = record (s.counters) { accesses = inc64 s.counters.accesses };
    } in
    if leb 64 s.config.l1_tag_size
      || leb 64 (s.config.l1_index_size + s.config.l1_offset_size)
      || leb s.config.l1_index_max index
    then none
    else if (input == b'w') || (input == b'r')
    then d_access physical_addr tag index input counted
    else if input == b'i'
    then i_access physical_addr tag index input counted
    else some counted

-- `while (next_line(input));` of main.c, over the lines of the trace.
unfoldable pub run_trace : CacheSim → List (ℕ × ℕ) → Option CacheSim
run_trace s [] = some s
run_trace s ((c, pa) ∷ lines) = do t ← l1_cachesim_access s pa c; run_trace t lines
