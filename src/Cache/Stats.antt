-- ===== src/Cache/Stats.antt =====
-- What the counters of Multi_Level_Cache/cachesim.c count. They are 64 bits wide and wrap.
use ece.Prelude.{
  ℕ, suc, ◌+◌, ◌*◌, ◌%◌, ◌≤◌, ◌<◌, ◌≡◌, Bool, ◌||◌, Option, some, ◌==◌, if◌then◌else◌, arith,
  Returns, Returns-bind, Returns-mono, Returns-both, ◌>>=◌, update, inc64, u64_mod, Bool-cases, inl,
  inr, List, [], ◌∷◌,
}
use ece.Cache.Types.{CacheSim, L2CacheStruct, Counters}
use ece.Cache.LevelTwo.{
  ways, l2_tag, l2_index, access_set, count_access, count_hit, count_miss, l2_cachesim_access,
}
use ece.Cache.LevelOne.{d_access, i_access, l1_cachesim_access, run_trace}
use ece.Cache.Init.{initial_state, cachesim_init}
use ece.Cache.Address.{IsLog2, l2_index-lt}
use ece.Cache.Lru.Choice.{Uses, hit, miss, access_set-Uses}
use ece.Cache.Invariant.{
  IsWellFormed, Keeps, count_l1, l2_cachesim_access_lem, l1_cachesim_access_lem,
  l1_cachesim_access-Keeps, cachesim_init_lem, initial_state-IsWellFormed,
}

-- After `lines` lines of a trace, `reads` of them for the data cache and `fetches` for the
-- instruction cache: each such line is a hit or a miss of its cache, each miss is an access to the
-- second level, and `accesses` counts the lines and those accesses.
pub record Tally (lines reads fetches : ℕ) (c : Counters) : Type 0 where
  pub data_cache : (c.d_hit + c.d_miss) % u64_mod ≡ reads % u64_mod
  pub instruction_cache : (c.i_hit + c.i_miss) % u64_mod ≡ fetches % u64_mod
  pub second_level : (c.l2_hit + c.l2_miss) % u64_mod ≡ (c.d_miss + c.i_miss) % u64_mod
  pub total : c.accesses % u64_mod ≡ (lines + c.d_miss + c.i_miss) % u64_mod

-- What one access to the second level adds.
record Adds (c d : Counters) : Type 0 where
  d_hit : d.d_hit ≡ c.d_hit
  d_miss : d.d_miss ≡ c.d_miss
  i_hit : d.i_hit ≡ c.i_hit
  i_miss : d.i_miss ≡ c.i_miss
  second_level : (d.l2_hit + d.l2_miss) % u64_mod ≡ (c.l2_hit + c.l2_miss + 1) % u64_mod
  accesses : d.accesses ≡ (c.accesses + 1) % u64_mod

Uses-Adds :
    {w tag input : ℕ} {s : L2CacheStruct} (c : Counters) {r : Option (L2CacheStruct × Counters)}
    → Uses w tag input s (count_access input c) r
    → Returns (λ (t, d). Adds c d) r
unfolding count_access count_hit count_miss inc64
Uses-Adds c (hit b used e) = ground arith
Uses-Adds c (miss b used e absent) = ground arith

l2_cachesim_access-Adds :
    (s : CacheSim) (a input : ℕ)
    → IsWellFormed s
    → Returns (λ t. Adds s.counters t.counters) (l2_cachesim_access s a input)
l2_cachesim_access-Adds s a input v = rw (l2_cachesim_access_lem s a input v.config) (
    Returns-bind (λ (t, d). Adds s.counters d) (λ t. Adds s.counters t.counters)
      (access_set s.config.max_lru (l2_tag s.config a) input (s.l2_cache (l2_index s.config a))
        (count_access input s.counters))
      (λ (cache, c).
        some (record s { counters = c; l2_cache = update s.l2_cache (l2_index s.config a) cache }))
      (Uses-Adds s.counters (
        access_set-Uses (l2_tag s.config a) input _ (v.sets _ (l2_index-lt s.config v.config a))
          v.config.some_way v.config.few_ways))
      λ (cache, c) _ adds. adds)

module _ {n r f : ℕ} (a tag index input : ℕ) (s : CacheSim) (v : IsWellFormed s)
    (k : Tally n r f s.counters) where
  d_access-Tally :
      Returns
        (λ t. Tally (n + 1) (r + 1) (f + 0) t.counters)
        (d_access a tag index input (count_l1 s))
  unfolding d_access inc64
  d_access-Tally = elim (Bool-cases ((s.d_cache index).tag == tag)) [
    | inl e ↦ rw e (omega arith)
    | inr e ↦
        let counted = count_l1 s in
        let missed = record counted {
          counters = record (counted.counters) { d_miss = inc64 s.counters.d_miss };
        } in
        rw e (
          Returns-bind (λ t. Adds missed.counters t.counters)
            (λ t. Tally (n + 1) (r + 1) (f + 0) t.counters) (l2_cachesim_access missed a input) _
            (l2_cachesim_access-Adds missed a input (record { config = v.config; sets = v.sets }))
            λ t _ adds. omega arith)
  ]

  i_access-Tally :
      Returns
        (λ t. Tally (n + 1) (r + 0) (f + 1) t.counters)
        (i_access a tag index input (count_l1 s))
  unfolding i_access inc64
  i_access-Tally = elim (Bool-cases ((s.i_cache index).tag == tag)) [
    | inl e ↦ rw e (omega arith)
    | inr e ↦
        let counted = count_l1 s in
        let missed = record counted {
          counters = record (counted.counters) { i_miss = inc64 s.counters.i_miss };
        } in
        rw e (
          Returns-bind (λ t. Adds missed.counters t.counters)
            (λ t. Tally (n + 1) (r + 0) (f + 1) t.counters) (l2_cachesim_access missed a input) _
            (l2_cachesim_access-Adds missed a input (record { config = v.config; sets = v.sets }))
            λ t _ adds. omega arith)
  ]

abbrev pub is_data : ℕ → Bool
is_data c = (c == b'w') || (c == b'r')

abbrev pub data_line : ℕ → ℕ
data_line c = if is_data c then 1 else 0

abbrev pub fetch_line : ℕ → ℕ
fetch_line c = if is_data c then 0 else if c == b'i' then 1 else 0

-- The lines of a trace that go to the data cache, those that go to the instruction cache, and all.
abbrev pub data_lines : List (ℕ × ℕ) → ℕ
data_lines [] = 0
data_lines ((c, pa) ∷ lines) = data_line c + data_lines lines

abbrev pub fetch_lines : List (ℕ × ℕ) → ℕ
fetch_lines [] = 0
fetch_lines ((c, pa) ∷ lines) = fetch_line c + fetch_lines lines

abbrev pub all_lines : List (ℕ × ℕ) → ℕ
all_lines [] = 0
all_lines (line ∷ lines) = suc (all_lines lines)

l1_cachesim_access-Tally :
    {n r f : ℕ} (s : CacheSim) (a input : ℕ)
    → IsWellFormed s
    → Tally n r f s.counters
    → Returns
        (λ t. Tally (n + 1) (r + data_line input) (f + fetch_line input) t.counters)
        (l1_cachesim_access s a input)
unfolding inc64
l1_cachesim_access-Tally s a input v k =
    rw (l1_cachesim_access_lem s a input v.config) (elim (Bool-cases (is_data input)) [
      | inl e ↦ rw e (d_access-Tally a _ _ input s v k)
      | inr e ↦ rw e (elim (Bool-cases (input == b'i')) [
        | inl e' ↦ rw e' (i_access-Tally a _ _ input s v k)
        | inr e' ↦ rw e' (omega arith)
      ])
    ])

run_trace-Tally_from :
    (lines : List (ℕ × ℕ)) (s : CacheSim) {n r f : ℕ}
    → IsWellFormed s
    → Tally n r f s.counters
    → Returns
        (λ t. Tally (n + all_lines lines) (r + data_lines lines) (f + fetch_lines lines) t.counters)
        (run_trace s lines)
unfolding run_trace
run_trace-Tally_from [] s {n} {r} {f} v k = omega arith
run_trace-Tally_from ((c, pa) ∷ lines) s {n} {r} {f} v k =
    let P : CacheSim → Type 0 =
      λ t. Tally (n + 1) (r + data_line c) (f + fetch_line c) t.counters in
    let Q : CacheSim → Type 0 = λ t.
      Tally (n + 1 + all_lines lines) (r + data_line c + data_lines lines)
        (f + fetch_line c + fetch_lines lines) t.counters in
    let R : CacheSim → Type 0 = λ t.
      Tally (n + suc (all_lines lines)) (r + (data_line c + data_lines lines))
        (f + (fetch_line c + fetch_lines lines)) t.counters in
    Returns-bind (λ t. Keeps s t × P t) R (l1_cachesim_access s pa c) (λ t. run_trace t lines)
      (Returns-both (Keeps s) P _ (l1_cachesim_access-Keeps s pa c v)
        (l1_cachesim_access-Tally s pa c v k))
      λ t _ ((u, _), k').
        Returns-mono Q R _ (run_trace-Tally_from lines t u k') λ t' k''. omega arith

-- From a block size above 1, 1 to 128 ways, and a cache size below 2 GiB that holds a set, every
-- trace is run to its end, and the counters are its tally modulo 2 ^ 64: hits and misses of the
-- data and of the instruction cache add up to the data and to the instruction lines, those of the
-- second level to the misses of the first, and the accesses to all lines and those misses.
pub run_trace-Tally :
    (log2 : ℕ → ℕ)
    → IsLog2 log2
    → (blocksize cachesize w : ℕ) → 1 < blocksize
    → 0 < w
    → w ≤ ways
    → blocksize * w ≤ cachesize
    → cachesize < 0x8000_0000
    → (lines : List (ℕ × ℕ))
    → Returns
        (λ t. Tally (all_lines lines) (data_lines lines) (fetch_lines lines) t.counters)
        (cachesim_init log2 blocksize cachesize w >>= λ s. run_trace s lines)
unfolding initial_state
run_trace-Tally log2 h blocksize cachesize w p q few one small lines =
    let s = initial_state log2 blocksize cachesize w in
    rw (cachesim_init_lem log2 h blocksize cachesize w p q few one small) (
      Returns-mono
        (λ t. Tally (0 + all_lines lines) (0 + data_lines lines) (0 + fetch_lines lines) t.counters)
        (λ t. Tally (all_lines lines) (data_lines lines) (fetch_lines lines) t.counters)
        (run_trace s lines)
        (run_trace-Tally_from lines s {n = 0} {r = 0} {f = 0}
          (initial_state-IsWellFormed log2 h blocksize cachesize w p q few one small) (omega arith))
        λ t k. omega arith)
