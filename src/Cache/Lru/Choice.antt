-- ===== src/Cache/Lru/Choice.antt =====
-- Which way of a set an access uses.
use ece.Prelude.{
  ℕ, ◌+◌, ◌-◌, ◌≤◌, ◌<◌, ◌≡◌, refl, true, false, Option, none, some, pos, negsuc, eqb_ℤ, u64_mod,
  find_first, Finds, found, missing, find_first-Finds, arith,
}
use ece.Cache.Types.{L2CacheStruct, Counters}
use ece.Cache.LevelTwo.{
  ways, holds_tag, check_tag_and_valid_bit, get_lru_index, set_lru_counter, hit_block, fill_block,
  count_hit, count_miss, access_set,
}
use ece.Cache.Lru.Ranking.{IsRanking}

-- The counters of the ways in use are a permutation, the other ways are marked by -1, and at most
-- one way answers to a tag.
pub record IsCacheSet (w : ℕ) (s : L2CacheStruct) : Type 0 where
  pub ranking : IsRanking w s.lru_counter
  pub unused_tag : (i : ℕ) → w ≤ i → i < ways → s.tag i ≡ u64_mod - 1
  pub unused_counter : (i : ℕ) → w ≤ i → i < ways → s.lru_counter i ≡ negsuc 0
  pub unique : (t i j : ℕ) → i < w → j < w → holds_tag s t i ≡ true → holds_tag s t j ≡ true → i ≡ j

module _ (w tag input : ℕ) (s : L2CacheStruct) (c : Counters) where
  -- The way that holds the tag; if there is none, the way with counter 0.
  pub data Uses : Option (L2CacheStruct × Counters) → Type 0 where
    hit :
        (b : ℕ)
        → b < w
        → holds_tag s tag b ≡ true
        → Uses (some (set_lru_counter w b (hit_block b input s), count_hit c))
    miss :
        (b : ℕ)
        → b < w
        → s.lru_counter b ≡ pos 0
        → ((j : ℕ) → j < ways → holds_tag s tag j ≡ false)
        → Uses (
            some (
              set_lru_counter w b (fill_block b tag input s),
              count_miss (eqb_ℤ (s.dirty_bit b) (pos 1)) input c,
            ))

module _ {w : ℕ} (tag input : ℕ) {s : L2CacheStruct} (c : Counters) (v : IsCacheSet w s)
    (some_way : 0 < w) (fits : w ≤ ways) where
  holds_tag-lt : (b : ℕ) → b < ways → holds_tag s tag b ≡ true → b < w
  unfolding holds_tag
  holds_tag-lt b p e = ground (arith, v.unused_tag b)

  zero_counter-lt : (b : ℕ) → b < ways → eqb_ℤ (s.lru_counter b) (pos 0) ≡ true → b < w
  zero_counter-lt b p e = ground (arith, v.unused_counter b)

  zero_counter_exists : ¬ ((j : ℕ) → 0 ≤ j → j < 0 + ways → eqb_ℤ (s.lru_counter j) (pos 0) ≡ false)
  zero_counter_exists none_zero =
      let (i, p, e) = v.ranking.covers 0 some_way in ground (arith, none_zero i)

  choose_victim :
      {r : Option ℕ}
      → Finds (λ i. eqb_ℤ (s.lru_counter i) (pos 0)) ways 0 r
      → get_lru_index s ≡ r
      → check_tag_and_valid_bit s tag ≡ none
      → ((j : ℕ) → j < ways → holds_tag s tag j ≡ false)
      → Uses w tag input s c (access_set w tag input s c)
  unfolding access_set
  choose_victim (found b lo hi zero_at before) e e' absent =
      rw (e', e, access_set)
        (miss b (zero_counter-lt b (omega arith) zero_at) (ground arith) absent)
  choose_victim (missing none_zero) e e' absent = absurd (zero_counter_exists none_zero)

  choose :
      {r : Option ℕ}
      → Finds (holds_tag s tag) ways 0 r
      → check_tag_and_valid_bit s tag ≡ r
      → Uses w tag input s c (access_set w tag input s c)
  unfolding access_set find_first get_lru_index
  choose (found b lo hi holds before) e =
      rw (e, access_set) (hit b (holds_tag-lt b (omega arith) holds) holds)
  choose (missing absent) e =
      choose_victim (find_first-Finds _ ways 0) refl e (λ j p. absent j (omega arith) (omega arith))

  -- An access of a valid set never fails, and uses the way that holds the tag or else the way
  -- whose counter is 0.
  pub access_set-Uses : Uses w tag input s c (access_set w tag input s c)
  unfolding check_tag_and_valid_bit find_first
  access_set-Uses = choose (find_first-Finds _ ways 0) refl
