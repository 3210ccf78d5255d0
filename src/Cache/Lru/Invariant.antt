-- ===== src/Cache/Lru/Invariant.antt =====
-- A set stays valid, and what an access leaves in it.
use ece.Prelude.{
  ℕ, ◌-◌, ◌≤◌, ◌<◌, ◌≡◌, ◌≢◌, false, not, ◌&&◌, Option, ◌==◌, if◌then◌else◌, u64_mod, arith,
  Returns,
}
use ece.Cache.Types.{L2CacheStruct, Counters}
use ece.Cache.LevelTwo.{ways, holds_tag, set_lru_counter, hit_block, fill_block, access_set}
use ece.Cache.Init.{init_set}
use ece.Cache.Lru.Ranking.{set_lru_counter-IsRanking, set_lru_counter_unused}
use ece.Cache.Lru.Choice.{IsCacheSet, Uses, hit, miss, access_set-Uses}

pub init_set-IsCacheSet : (w : ℕ) → w ≤ ways → IsCacheSet w (init_set w)
unfolding init_set holds_tag
init_set-IsCacheSet w fits = record {
  ranking = record {
    bounded = λ i p. (i, ground arith, p);
    distinct = λ i j p q e. ground arith;
    covers = λ k p. (k, p, ground arith);
  };
  unused_tag = λ i p q. ground arith;
  unused_counter = λ i p q. ground arith;
  unique = λ t i j p q e e'. ground arith;
}

-- What the tags of a set answer is not changed by a hit.
pub holds_tag_hit :
    (w b input : ℕ) (s : L2CacheStruct) (t i : ℕ)
    → holds_tag (set_lru_counter w b (hit_block b input s)) t i ≡ holds_tag s t i
unfolding set_lru_counter hit_block holds_tag
holds_tag_hit w b input s t i = ground arith

-- A filled way answers to its new tag, the others as before.
pub holds_tag_fill :
    (w b tag input : ℕ) (s : L2CacheStruct) (t i : ℕ)
    → holds_tag (set_lru_counter w b (fill_block b tag input s)) t i
      ≡ (if i == b then not (tag == u64_mod - 1) && (tag == t) else holds_tag s t i)
unfolding set_lru_counter fill_block holds_tag
holds_tag_fill w b tag input s t i = ground arith

pub hit_counter :
    (b input : ℕ) (s : L2CacheStruct) → (hit_block b input s).lru_counter ≡ s.lru_counter
unfolding hit_block
hit_counter b input s = ground arith

hit_tag :
    (w b input : ℕ) (s : L2CacheStruct) → (set_lru_counter w b (hit_block b input s)).tag ≡ s.tag
unfolding hit_block set_lru_counter
hit_tag w b input s = ground arith

fill_tag :
    (w b tag input : ℕ) (s : L2CacheStruct) (i : ℕ)
    → i ≢ b
    → (set_lru_counter w b (fill_block b tag input s)).tag i ≡ s.tag i
unfolding fill_block set_lru_counter
fill_tag w b tag input s i h = ground arith

module _ {w : ℕ} (b tag input : ℕ) {s : L2CacheStruct} (v : IsCacheSet w s) (fits : w ≤ ways)
    (used : b < w) where
  hit-IsCacheSet : IsCacheSet w (set_lru_counter w b (hit_block b input s))
  hit-IsCacheSet = record {
    ranking = set_lru_counter-IsRanking _ (rw (hit_counter b input s) v.ranking) fits used;
    unused_tag = λ i p q. rw (hit_tag w b input s) (v.unused_tag i p q);
    unused_counter = λ i p q.
        set_lru_counter_unused w b _ i (omega arith) fits used p q
          (rw (hit_counter b input s) (v.unused_counter i p q));
    unique = λ t i j p q e e'.
        ground
          (arith, v.unique t i j p q, holds_tag_hit w b input s t i, holds_tag_hit w b input s t j);
  }

  fill-IsCacheSet :
      ((j : ℕ) → j < ways → holds_tag s tag j ≡ false)
      → IsCacheSet w (set_lru_counter w b (fill_block b tag input s))
  unfolding fill_block
  fill-IsCacheSet absent = record {
    ranking = set_lru_counter-IsRanking _ v.ranking fits used;
    unused_tag = λ i p q. ground (arith, fill_tag w b tag input s i, v.unused_tag i p q);
    unused_counter = λ i p q.
        set_lru_counter_unused w b _ i (omega arith) fits used p q (v.unused_counter i p q);
    unique = λ t i j p q e e'. ground (
      arith,
      v.unique t i j p q,
      absent i (omega arith),
      absent j (omega arith),
      holds_tag_fill w b tag input s t i,
      holds_tag_fill w b tag input s t j,
    );
  }

module _ {w : ℕ} (tag input : ℕ) {s : L2CacheStruct} (c : Counters) (v : IsCacheSet w s)
    (some_way : 0 < w) (fits : w ≤ ways) where
  Uses-IsCacheSet :
      {r : Option (L2CacheStruct × Counters)}
      → Uses w tag input s c r
      → Returns (λ (t, d). IsCacheSet w t) r
  Uses-IsCacheSet (hit b used e) = hit-IsCacheSet b tag input v fits used
  Uses-IsCacheSet (miss b used e absent) = fill-IsCacheSet b tag input v fits used absent

  -- An access of a valid set of at least one and at most 128 ways does not fail, and leaves a
  -- valid set.
  pub access_set-IsCacheSet : Returns (λ (t, d). IsCacheSet w t) (access_set w tag input s c)
  access_set-IsCacheSet = Uses-IsCacheSet (access_set-Uses tag input c v some_way fits)
