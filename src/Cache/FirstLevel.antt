-- ===== src/Cache/FirstLevel.antt =====
-- Hits and misses of the direct-mapped caches (`l1_cachesim_access` of
-- Multi_Level_Cache/cachesim.c).
use ece.Prelude.{
  ℕ, ◌+◌, ◌*◌, ◌/◌, ◌^◌, ◌≤◌, ◌<◌, ◌≡◌, refl, sym, true, ◌==◌, arith, Returns, Returns-bind,
  Returns-mono, Returns-both, inc64, Bool-cases, inl, inr, pos, shr64,
}
use native.Mathlib.Nat.{div-eq_of_lt}
use ece.Cache.Types.{CacheSim}
use ece.Cache.LevelTwo.{ways, l2_cachesim_access}
use ece.Cache.LevelOne.{l1_tag, l1_index, fill_line, d_access, l1_cachesim_access}
use ece.Cache.Init.{init_config, init_line, initial_state}
use ece.Cache.Address.{IsLog2, IsConfig, l1_tag-l1_index_iff, log2_pow}
use ece.Cache.Invariant.{
  IsWellFormed, Keeps, count_l1, l1_cachesim_access_lem, l2_cachesim_access-IsWellFormed,
  l1_cachesim_access-Keeps, initial_state-IsWellFormed,
}
use ece.Cache.Stats.{is_data}

-- The line `index` of the data cache has the tag.
abbrev pub Cached : ℕ → ℕ → CacheSim → Type 0
Cached tag index t = (t.d_cache index).tag ≡ tag

-- After a data access the line has the tag, whether the access hit or missed.
d_access-Cached :
    (a tag index input : ℕ) (s : CacheSim)
    → IsWellFormed s
    → Returns (Cached tag index) (d_access a tag index input s)
unfolding d_access fill_line
d_access-Cached a tag index input s v = elim (Bool-cases ((s.d_cache index).tag == tag)) [
  | inl e ↦ rw e (ground arith)
  | inr e ↦
      let missed = record s {
        counters = record (s.counters) { d_miss = inc64 s.counters.d_miss };
      } in
      rw e (
        Returns-bind (Keeps s) (Cached tag index) (l2_cachesim_access missed a input) _
          (l2_cachesim_access-IsWellFormed missed a input
            (record { config = v.config; sets = v.sets }))
          λ t _ u. ground arith)
]

-- The access is a hit of the data cache: it counts as one, and the second level is not asked.
pub record IsDataHit (s t : CacheSim) : Type 0 where
  pub hit : t.counters.d_hit ≡ inc64 s.counters.d_hit
  pub no_miss : t.counters.d_miss ≡ s.counters.d_miss
  pub l2_hit : t.counters.l2_hit ≡ s.counters.l2_hit
  pub l2_miss : t.counters.l2_miss ≡ s.counters.l2_miss
  pub l2_cache : t.l2_cache ≡ s.l2_cache

data_hit :
    (a input : ℕ) (s : CacheSim)
    → IsConfig s.config
    → is_data input ≡ true
    → Cached (l1_tag s.config a) (l1_index s.config a) s
    → Returns (IsDataHit s) (l1_cachesim_access s a input)
unfolding d_access
data_hit a input s v e cached =
    let same : ((s.d_cache (l1_index s.config a)).tag == l1_tag s.config a) ≡ true = ground arith in
    rw (l1_cachesim_access_lem s a input v, e, same)
      (record { hit = refl; no_miss = refl; l2_hit = refl; l2_miss = refl; l2_cache = refl })

l1_cachesim_access-Cached :
    (a input : ℕ) (s : CacheSim)
    → IsWellFormed s
    → is_data input ≡ true
    → Returns (Cached (l1_tag s.config a) (l1_index s.config a)) (l1_cachesim_access s a input)
l1_cachesim_access-Cached a input s v e =
    rw (l1_cachesim_access_lem s a input v.config, e)
      (d_access-Cached a _ _ input (count_l1 s) (record { config = v.config; sets = v.sets }))

-- In a well-formed simulator, a data access does not fail, and a data access to the same block
-- right after it is a hit, which does not ask the second level.
pub l1_cachesim_access_again :
    (a b input input' : ℕ) (s : CacheSim)
    → IsWellFormed s
    → is_data input ≡ true
    → is_data input' ≡ true
    → a / 2 ^ s.config.l1_offset_size ≡ b / 2 ^ s.config.l1_offset_size
    → Returns
        (λ t. Returns (IsDataHit t) (l1_cachesim_access t b input'))
        (l1_cachesim_access s a input)
l1_cachesim_access_again a b input input' s v e e' block =
    let (tags, indices) = (l1_tag-l1_index_iff s.config v.config a b).1 block in
    let P = Cached (l1_tag s.config a) (l1_index s.config a) in
    Returns-mono (λ t. Keeps s t × P t) (λ t. Returns (IsDataHit t) (l1_cachesim_access t b input'))
      (l1_cachesim_access s a input)
      (Returns-both (Keeps s) P _ (l1_cachesim_access-Keeps s a input v)
        (l1_cachesim_access-Cached a input s v e))
      λ t ((u, same), cached).
        data_hit b input' t u.config e' (rw same (rw (← tags, ← indices) cached))

-- The first level compares tags and not valid bits. In a fresh simulator (of a block size above 1,
-- 1 to 128 ways, and a cache size below 2 GiB that holds a set) a data access to an address below
-- 2 ^ 14 counts as a hit, although the valid bit of its line is 0.
pub cold_line_hits :
    (log2 : ℕ → ℕ)
    → IsLog2 log2
    → (blocksize cachesize w : ℕ) → 1 < blocksize
    → 0 < w
    → w ≤ ways
    → blocksize * w ≤ cachesize
    → cachesize < 0x8000_0000
    → (a input : ℕ) → is_data input ≡ true
    → a < 0x4000
    → let s = initial_state log2 blocksize cachesize w in
      ((s.d_cache (l1_index s.config a)).valid_bit ≡ pos 0)
      × Returns (IsDataHit s) (l1_cachesim_access s a input)
unfolding initial_state init_line
cold_line_hits log2 h blocksize cachesize w p q few one small a input e below =
    let v = initial_state-IsWellFormed log2 h blocksize cachesize w p q few one small in
    let s = initial_state log2 blocksize cachesize w in
    let bits : log2 256 + log2 64 ≡ 14 = omega (arith, log2_pow log2 h 8, log2_pow log2 h 6) in
    let zero_tag : l1_tag s.config a ≡ 0 =
      unfold l1_tag shr64 init_config in rw bits (div-eq_of_lt below) in
    (refl, data_hit a input s v.config e (sym zero_tag))
