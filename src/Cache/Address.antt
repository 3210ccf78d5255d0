-- ===== src/Cache/Address.antt =====
-- How an address is split: `cachesim_init` (the sizes), and the shifts of `l1_cachesim_access` and
-- `l2_cachesim_access` of Multi_Level_Cache/cachesim.c.
use ece.Prelude.{
  ℕ, suc, ◌+◌, ◌*◌, ◌/◌, ◌%◌, ◌^◌, ◌≤◌, ◌<◌, ◌≡◌, ◌↔◌, sym, ap, ◌∙◌, arith, pow_pos, pow-add, shl64,
  shr64, shr64-shl64, shr64_mod, shr64_add,
}
use native.Mathlib.Nat.{
  mod-lt, div-add-mod, pow-le-pow_right, pow-suc, mul-div-le, le-div_iff_mul-le,
}
use native.Mathlib.Decide.{dec_lt}
use ece.Cache.Types.{Config}
use ece.Cache.LevelTwo.{ways, l2_tag, l2_index}
use ece.Cache.LevelOne.{l1_tag, l1_index}
use ece.Cache.Init.{init_config}

-- The sizes split a 64-bit address, with at least one bit below the tag and at least one in it, and
-- the index reaches no further than the array.
pub record Splits (offset_size index_size tag_size index_max : ℕ) : Type 0 where
  pub low : 0 < index_size + offset_size
  pub total : tag_size + (offset_size + index_size) ≡ 64
  pub tagged : 0 < tag_size
  pub reach : 2 ^ index_size ≤ index_max

pub record IsConfig (g : Config) : Type 0 where
  pub l2_splits : Splits g.l2_offset_size g.l2_index_size g.l2_tag_size g.l2_index_max
  pub l1_splits : Splits g.l1_offset_size g.l1_index_size g.l1_tag_size g.l1_index_max
  pub some_way : 0 < g.max_lru
  pub few_ways : g.max_lru ≤ ways

module _ {o i t m : ℕ} (a : ℕ) (h : Splits o i t m) where
  split_index : shr64 (shr64 (shl64 a t) t) o ≡ a / 2 ^ o % 2 ^ i
  split_index = rw (shr64-shl64 a t (o + i) h.total) (shr64_mod a o i)

  split_index-lt : shr64 (shr64 (shl64 a t) t) o < m
  split_index-lt = rw split_index (omega (arith, mod-lt (a / 2 ^ o) (pow_pos i), h.reach))

module _ (g : Config) (v : IsConfig g) (a : ℕ) where
  pub l2_index-lt : l2_index g a < g.l2_index_max
  unfolding l2_index
  l2_index-lt = split_index-lt a v.l2_splits

  pub l1_index-lt : l1_index g a < g.l1_index_max
  unfolding l1_index
  l1_index-lt = split_index-lt a v.l1_splits

-- A quotient and a rest determine the number.
same_block : (x y m : ℕ) → x / m ≡ y / m → x % m ≡ y % m → x ≡ y
same_block x y m p q =
    sym (div-add-mod x m)
    ∙ ap (λ (d : ℕ). m * d + x % m) p
    ∙ ap (λ (r : ℕ). m * (y / m) + r) q
    ∙ div-add-mod y m

module _ {o i t m : ℕ} (a b : ℕ) (h : Splits o i t m) where
  split_iff :
      ((shr64 a (i + o) ≡ shr64 b (i + o))
        × (shr64 (shr64 (shl64 a t) t) o ≡ shr64 (shr64 (shl64 b t) t) o))
      ↔ (a / 2 ^ o ≡ b / 2 ^ o)
  split_iff =
      rw (shr64_add a o i, shr64_add b o i, split_index a h, split_index b h)
        (
          λ (p, q). same_block (a / 2 ^ o) (b / 2 ^ o) (2 ^ i) p q,
          λ e. (ap (λ (n : ℕ). n / 2 ^ i) e, ap (λ (n : ℕ). n % 2 ^ i) e),
        )

module _ (g : Config) (v : IsConfig g) (a b : ℕ) where
  -- With sizes that split an address, two addresses have the same tag and index of the second
  -- level exactly when they lie in the same block.
  pub l2_tag-l2_index_iff :
      ((l2_tag g a ≡ l2_tag g b) × (l2_index g a ≡ l2_index g b))
      ↔ (a / 2 ^ g.l2_offset_size ≡ b / 2 ^ g.l2_offset_size)
  unfolding l2_tag l2_index
  l2_tag-l2_index_iff = split_iff a b v.l2_splits

  -- With sizes that split an address, two addresses have the same tag and index of the first level
  -- exactly when they lie in the same block.
  pub l1_tag-l1_index_iff :
      ((l1_tag g a ≡ l1_tag g b) × (l1_index g a ≡ l1_index g b))
      ↔ (a / 2 ^ g.l1_offset_size ≡ b / 2 ^ g.l1_offset_size)
  unfolding l1_tag l1_index
  l1_tag-l1_index_iff = split_iff a b v.l1_splits

-- What C promises of `log2`, its result truncated.
abbrev pub IsLog2 : (ℕ → ℕ) → Type 0
IsLog2 log2 = (n : ℕ) → 0 < n → (2 ^ log2 n ≤ n) × (n < 2 ^ suc (log2 n))

pow-lt_inv : (a b : ℕ) → 2 ^ a < 2 ^ b → a < b
pow-lt_inv a b h = elim (dec_lt a b) [
  | yes p ↦ p
  | no p ↦
      absurd (omega (arith, pow-le-pow_right {n = 2} (omega arith) {i = b} {j = a} (omega arith)))
]

module _ (log2 : ℕ → ℕ) (h : IsLog2 log2) where
  pub log2_pow : (k : ℕ) → log2 (2 ^ k) ≡ k
  log2_pow k =
      let (lo, hi) = h (2 ^ k) (pow_pos k) in
      let below = pow-lt_inv k (suc (log2 (2 ^ k))) hi in
      let above = pow-lt_inv (log2 (2 ^ k)) (suc k) (omega (arith, lo, pow-suc 2 k, pow_pos k)) in
      omega arith

  -- A cache of `sets` sets of `w` blocks takes more bytes than its index and offset address.
  sizes-lt :
      (blocksize sets w cachesize : ℕ)
      → 0 < blocksize
      → 0 < sets
      → 0 < w
      → blocksize * w * sets ≤ cachesize
      → cachesize < 0x8000_0000
      → log2 sets + log2 blocksize < 31
  sizes-lt blocksize sets w cachesize p q r fits small =
      let lo = (h sets q).0 in
      let lo' = (h blocksize p).0 in
      let product : 2 ^ log2 sets * 2 ^ log2 blocksize ≤ sets * blocksize = grind arith in
      let wider : sets * blocksize ≤ sets * blocksize * w = grind arith in
      pow-lt_inv (log2 sets + log2 blocksize) 31
        (rw (pow-add (log2 sets) (log2 blocksize)) (omega arith))

  log2_pos : (n : ℕ) → 1 < n → 0 < log2 n
  log2_pos n p =
      let hi = (h n (omega arith)).1 in
      let below = pow-lt_inv 1 (suc (log2 n)) (omega arith) in omega arith

  -- For every block size above 1, every number of ways from 1 to 128 and every cache size below 2
  -- GiB that holds a set, the sizes that `cachesim_init` computes split an address, with an index
  -- within the array.
  pub init_config-IsConfig :
      (blocksize cachesize w : ℕ)
      → 1 < blocksize
      → 0 < w
      → w ≤ ways
      → blocksize * w ≤ cachesize
      → cachesize < 0x8000_0000
      → IsConfig (init_config log2 blocksize cachesize w)
  unfolding init_config
  init_config-IsConfig blocksize cachesize w p q few one small =
      let sets : ℕ = cachesize / (blocksize * w) in
      let positive : 0 < blocksize * w = grind arith in
      let some_set : 0 < sets = (le-div_iff_mul-le positive).1 (omega arith) in
      let used : blocksize * w * sets ≤ cachesize = mul-div-le cachesize (blocksize * w) in
      let bits = sizes-lt blocksize sets w cachesize (omega arith) some_set q used small in
      let offset = log2_pos blocksize p in
      let e8 : log2 256 ≡ 8 = log2_pow 8 in
      let e6 : log2 64 ≡ 6 = log2_pow 6 in
      record {
        l2_splits = record {
          low = omega arith;
          total = omega arith;
          tagged = omega arith;
          reach = (h sets some_set).0;
        };
        l1_splits = record {
          low = omega arith;
          total = omega arith;
          tagged = omega arith;
          reach = rw e8 (omega arith);
        };
        some_way = q;
        few_ways = few;
      }
