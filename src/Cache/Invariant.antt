-- ===== src/Cache/Invariant.antt =====
-- The whole simulator of Multi_Level_Cache/cachesim.c never leaves its arrays, and keeps its sets
-- valid.
use ece.Prelude.{
  ℕ, ◌≤◌, ◌<◌, ◌*◌, ◌≡◌, refl, ◌||◌, some, ◌==◌, if◌then◌else◌, arith, Returns, Returns-bind,
  Returns-mono, ◌>>=◌, update, inc64, Bool-cases, inl, inr, ◌∙◌, List, [], ◌∷◌,
}
use native.Mathlib.Decide.{ℕ_discrete}
use ece.Cache.Types.{CacheSim}
use ece.Cache.LevelTwo.{ways, l2_tag, l2_index, access_set, count_access, l2_cachesim_access}
use ece.Cache.LevelOne.{l1_tag, l1_index, d_access, i_access, l1_cachesim_access, run_trace}
use ece.Cache.Init.{init_config, initial_state, cachesim_init}
use ece.Cache.Address.{IsConfig, IsLog2, l2_index-lt, l1_index-lt, init_config-IsConfig}
use ece.Cache.Lru.Choice.{IsCacheSet}
use ece.Cache.Lru.Invariant.{init_set-IsCacheSet, access_set-IsCacheSet}

pub record IsWellFormed (s : CacheSim) : Type 0 where
  pub config : IsConfig s.config
  pub sets : (i : ℕ) → i < s.config.l2_index_max → IsCacheSet s.config.max_lru (s.l2_cache i)

-- On a valid configuration no guard of the second level strikes.
pub l2_cachesim_access_lem :
    (s : CacheSim) (a input : ℕ)
    → IsConfig s.config
    → l2_cachesim_access s a input ≡ (do
      (cache, c) ←
          access_set s.config.max_lru
            (l2_tag s.config a)
            input
            (s.l2_cache (l2_index s.config a))
            (count_access input s.counters)
      some (record s { counters = c; l2_cache = update s.l2_cache (l2_index s.config a) cache }))
unfolding l2_cachesim_access
l2_cachesim_access_lem s a input v = ground (arith, l2_index-lt s.config v a)

-- The simulator is well formed, and its sizes are those of `s`.
abbrev pub Keeps : CacheSim → CacheSim → Type 0
Keeps s t = IsWellFormed t × (t.config ≡ s.config)

pub l2_cachesim_access-IsWellFormed :
    (s : CacheSim) (a input : ℕ) → IsWellFormed s → Returns (Keeps s) (l2_cachesim_access s a input)
l2_cachesim_access-IsWellFormed s a input v = rw (l2_cachesim_access_lem s a input v.config) (
    Returns-bind (λ (cache, c). IsCacheSet s.config.max_lru cache) (Keeps s)
      (access_set s.config.max_lru (l2_tag s.config a) input (s.l2_cache (l2_index s.config a))
        (count_access input s.counters))
      (λ (cache, c).
        some (record s { counters = c; l2_cache = update s.l2_cache (l2_index s.config a) cache }))
      (access_set-IsCacheSet _ input _ (v.sets _ (l2_index-lt s.config v.config a))
        v.config.some_way v.config.few_ways)
      λ (cache, c) e u. (
        record {
          config = v.config;
          sets = λ i p. elim (ℕ_discrete i (l2_index s.config a)) [
            | yes same ↦ ground arith
            | no other ↦ ground (arith, v.sets i p)
          ];
        },
        refl,
      ))

module _ (a tag index input : ℕ) (s : CacheSim) (v : IsWellFormed s) where
  d_access-Keeps : Returns (Keeps s) (d_access a tag index input s)
  unfolding d_access
  d_access-Keeps = elim (Bool-cases ((s.d_cache index).tag == tag)) [
    | inl e ↦ rw e (record { config = v.config; sets = v.sets }, refl)
    | inr e ↦
        let missed = record s {
          counters = record (s.counters) { d_miss = inc64 s.counters.d_miss };
        } in
        rw e (
          Returns-bind (Keeps s) (Keeps s) _ _
            (l2_cachesim_access-IsWellFormed missed a input
              (record { config = v.config; sets = v.sets }))
            λ t _ (u, same). (record { config = u.config; sets = u.sets }, same))
  ]

  i_access-Keeps : Returns (Keeps s) (i_access a tag index input s)
  unfolding i_access
  i_access-Keeps = elim (Bool-cases ((s.i_cache index).tag == tag)) [
    | inl e ↦ rw e (record { config = v.config; sets = v.sets }, refl)
    | inr e ↦
        let missed = record s {
          counters = record (s.counters) { i_miss = inc64 s.counters.i_miss };
        } in
        rw e (
          Returns-bind (Keeps s) (Keeps s) _ _
            (l2_cachesim_access-IsWellFormed missed a input
              (record { config = v.config; sets = v.sets }))
            λ t _ (u, same). (record { config = u.config; sets = u.sets }, same))
  ]

abbrev pub count_l1 : CacheSim → CacheSim
count_l1 s = record s { counters = record (s.counters) { accesses = inc64 s.counters.accesses } }

-- On a valid configuration no guard of the first level strikes.
pub l1_cachesim_access_lem :
    (s : CacheSim) (a input : ℕ)
    → IsConfig s.config
    → l1_cachesim_access s a input ≡ (
        if (input == b'w') || (input == b'r')
        then d_access a (l1_tag s.config a) (l1_index s.config a) input (count_l1 s)
        else if input == b'i'
        then i_access a (l1_tag s.config a) (l1_index s.config a) input (count_l1 s)
        else some (count_l1 s))
unfolding l1_cachesim_access
l1_cachesim_access_lem s a input v = ground (arith, l1_index-lt s.config v a)

pub l1_cachesim_access-Keeps :
    (s : CacheSim) (a input : ℕ) → IsWellFormed s → Returns (Keeps s) (l1_cachesim_access s a input)
l1_cachesim_access-Keeps s a input v =
    let w : IsWellFormed (count_l1 s) = record { config = v.config; sets = v.sets } in
    rw (l1_cachesim_access_lem s a input v.config)
      (elim (Bool-cases ((input == b'w') || (input == b'r'))) [
        | inl e ↦ rw e (d_access-Keeps a _ _ input (count_l1 s) w)
        | inr e ↦ rw e (elim (Bool-cases (input == b'i')) [
          | inl e' ↦ rw e' (i_access-Keeps a _ _ input (count_l1 s) w)
          | inr e' ↦ rw e' (w, refl)
        ])
      ])

run_trace-Keeps :
    (lines : List (ℕ × ℕ)) (s : CacheSim) → IsWellFormed s → Returns (Keeps s) (run_trace s lines)
unfolding run_trace
run_trace-Keeps [] s v = (v, refl)
run_trace-Keeps ((c, pa) ∷ lines) s v =
    Returns-bind (Keeps s) (Keeps s) _ _ (l1_cachesim_access-Keeps s pa c v) λ t _ (u, same).
      Returns-mono (Keeps t) (Keeps s) _ (run_trace-Keeps lines t u)
        λ r (x, same'). (x, same' ∙ same)

module _ (log2 : ℕ → ℕ) (h : IsLog2 log2) (blocksize cachesize w : ℕ) (p : 1 < blocksize)
    (some_way : 0 < w) (few_ways : w ≤ ways) (one_set : blocksize * w ≤ cachesize)
    (small : cachesize < 0x8000_0000) where
  -- On sizes in range `cachesim_init` succeeds.
  pub cachesim_init_lem :
      cachesim_init log2 blocksize cachesize w ≡ some (initial_state log2 blocksize cachesize w)
  unfolding cachesim_init
  cachesim_init_lem = let positive : 0 < blocksize * w = grind arith in ground arith

  pub initial_state-IsWellFormed : IsWellFormed (initial_state log2 blocksize cachesize w)
  unfolding initial_state
  initial_state-IsWellFormed = record {
    config = init_config-IsConfig log2 h blocksize cachesize w p some_way few_ways one_set small;
    sets = λ i q. unfold init_config in init_set-IsCacheSet w few_ways;
  }

  -- From a block size above 1, 1 to 128 ways, and a cache size below 2 GiB that holds a set, the
  -- simulator is initialised and runs every trace to its end without undefined behaviour, and is
  -- well formed then.
  pub run_trace-IsWellFormed :
      (lines : List (ℕ × ℕ))
      → Returns IsWellFormed (cachesim_init log2 blocksize cachesize w >>= λ s. run_trace s lines)
  run_trace-IsWellFormed lines = rw cachesim_init_lem (
      Returns-mono (Keeps (initial_state log2 blocksize cachesize w)) IsWellFormed _
        (run_trace-Keeps lines _ initial_state-IsWellFormed) λ t (u, _). u)
