-- ===== src/Cache/Lru/Order.antt =====
-- The replacement policy of a set: what a miss drops is the way whose last use is oldest.
use ece.Prelude.{
  ℕ, suc, ◌-◌, ◌≤◌, ◌<◌, ◌≡◌, ◌≢◌, ◌⊎◌, inl, inr, true, false, Option, ℤ, pos, ltb_ℤ, u64_mod,
  arith, update, Returns,
}
use ece.Cache.Types.{L2CacheStruct, Counters}
use ece.Cache.LevelTwo.{ways, holds_tag, set_lru_counter, hit_block, fill_block, access_set}
use ece.Cache.Lru.Ranking.{IsRanking, aged, set_lru_counter_at}
use ece.Cache.Lru.Invariant.{holds_tag_hit, holds_tag_fill, hit_counter}
use ece.Cache.Lru.Choice.{IsCacheSet, Uses, hit, miss, access_set-Uses}

-- `stamp i` is the time of the last use of way `i`, before `now`; the counters order the ways by it.
pub record InOrder (w : ℕ) (counter : ℕ → ℤ) (stamp : ℕ → ℕ) (now : ℕ) : Type 0 where
  pub past : (i : ℕ) → i < w → stamp i < now
  pub agrees : (i j : ℕ) → i < w → j < w → ltb_ℤ (counter i) (counter j) ≡ true → stamp i < stamp j

module _ {w b now : ℕ} (s : L2CacheStruct) {stamp : ℕ → ℕ} (h : IsRanking w s.lru_counter)
    (o : InOrder w s.lru_counter stamp now) (fits : w ≤ ways) (used : b < w) where
  agrees_after :
      (i j : ℕ)
      → i < w
      → j < w
      → ltb_ℤ ((set_lru_counter w b s).lru_counter i) ((set_lru_counter w b s).lru_counter j) ≡ true
      → update stamp b now i < update stamp b now j
  unfolding aged
  agrees_after i j p q e =
      let (n, en, ln) = h.bounded i p in
      let (m, em, lm) = h.bounded j q in
      let (r, er, lr) = h.bounded b used in
      ground (
        arith,
        set_lru_counter_at w b s i (omega arith) fits (omega arith),
        set_lru_counter_at w b s j (omega arith) fits (omega arith),
        o.agrees i j p q,
        o.past i p,
        h.distinct i b p used,
        h.distinct j b q used,
      )

  pub set_lru_counter-InOrder :
      InOrder w (set_lru_counter w b s).lru_counter (update stamp b now) (suc now)
  set_lru_counter-InOrder = record {
    past = λ i p. ground (arith, o.past i p);
    agrees = agrees_after;
  }

-- What an access to `tag` at time `now` makes of the set `s`.
pub record IsLruAccess (w tag : ℕ) (s : L2CacheStruct) (stamp : ℕ → ℕ) (now : ℕ) (t : L2CacheStruct)
    : Type 0 where
  pub way : ℕ
  pub in_use : way < w
  pub choice :
      (holds_tag s tag way ≡ true)
      ⊎ (((j : ℕ) → j < ways → holds_tag s tag j ≡ false)
          × ((j : ℕ) → j < w → j ≢ way → stamp way < stamp j))
  pub kept : (u i : ℕ) → i ≢ way → holds_tag t u i ≡ holds_tag s u i
  pub present : tag ≢ u64_mod - 1 → holds_tag t tag way ≡ true
  pub order : InOrder w t.lru_counter (update stamp way now) (suc now)

module _ {w now : ℕ} (tag input : ℕ) {s : L2CacheStruct} {stamp : ℕ → ℕ} (c : Counters)
    (v : IsCacheSet w s) (o : InOrder w s.lru_counter stamp now) (some_way : 0 < w)
    (fits : w ≤ ways) where
  oldest : (b j : ℕ) → b < w → s.lru_counter b ≡ pos 0 → j < w → j ≢ b → stamp b < stamp j
  oldest b j p e q ne =
      let (n, en, ln) = v.ranking.bounded j q in
      ground (arith, o.agrees b j p q, v.ranking.distinct j b q p)

  Uses-IsLruAccess :
      {r : Option (L2CacheStruct × Counters)}
      → Uses w tag input s c r
      → Returns (λ (t, d). IsLruAccess w tag s stamp now t) r
  unfolding fill_block
  Uses-IsLruAccess (hit b used e) = record {
    way = b;
    in_use = used;
    choice = inl e;
    kept = λ u i ne. holds_tag_hit w b input s u i;
    present = λ ne. ground (arith, holds_tag_hit w b input s tag b);
    order =
        set_lru_counter-InOrder (hit_block b input s) (rw (hit_counter b input s) v.ranking)
          (rw (hit_counter b input s) o) fits used;
  }
  Uses-IsLruAccess (miss b used e absent) = record {
    way = b;
    in_use = used;
    choice = inr (absent, λ j p ne. oldest b j used e p ne);
    kept = λ u i ne. ground (arith, holds_tag_fill w b tag input s u i);
    present = λ ne. ground (arith, holds_tag_fill w b tag input s tag b);
    order = set_lru_counter-InOrder _ v.ranking o fits used;
  }

  -- In a valid set of at least one and at most 128 ways, whose counters order the ways by the time
  -- of their last use, an access does not fail. It uses a way that holds the tag or, if no way
  -- holds it, the way whose last use is oldest; the other ways answer to the same tags as before,
  -- the tag (unless it is the mark 2 ^ 64 - 1) is in the set afterwards, and the counters order
  -- the ways by their last use again, with this access as the latest.
  pub access_set-IsLruAccess :
      Returns (λ (t, d). IsLruAccess w tag s stamp now t) (access_set w tag input s c)
  access_set-IsLruAccess = Uses-IsLruAccess (access_set-Uses tag input c v some_way fits)
