-- ===== src/Cache/Lru/Ranking.antt =====
-- The LRU counters of the ways in use are a permutation of 0, 1, ..., and stay one.
use ece.Prelude.{
  ℕ, zero, suc, ◌+◌, ◌-◌, ◌≤◌, ◌<◌, ◌≡◌, not, ◌&&◌, leb, ltb, ◌==◌, if◌then◌else◌, ℤ, pos, negsuc,
  ltb_ℤ, eqb_ℤ, pred_ℤ, for_loop, arith,
}
use native.Mathlib.Decide.{ℕ_discrete, dec_lt}
use ece.Cache.Types.{L2CacheStruct}
use ece.Cache.LevelTwo.{ways, age_step, set_lru_counter}

-- What becomes of a counter when a way whose counter is `pivot` is used.
unfoldable pub aged : ℤ → ℤ → ℤ
aged pivot v = if not (eqb_ℤ v (negsuc 0)) && ltb_ℤ pivot v then pred_ℤ v else v

aged_self : (v : ℤ) → aged v v ≡ v
unfolding aged
aged_self (pos n) = ground arith
aged_self (negsuc n) = ground arith

age_step_at :
    (b i : ℕ) (counter : ℕ → ℤ) (j : ℕ)
    → age_step b i counter j ≡ (if j == i then aged (counter b) (counter j) else counter j)
unfolding age_step aged
age_step_at b i counter j = ground arith

age_step_pivot : (b i : ℕ) (counter : ℕ → ℤ) → age_step b i counter b ≡ counter b
age_step_pivot b i counter = ground (arith, age_step_at b i counter b, aged_self (counter b))

-- The whole loop ages each way once, by the counter that the used way had before it.
age_loop_at :
    (b rounds from : ℕ) (counter : ℕ → ℤ) (j : ℕ)
    → for_loop rounds from (age_step b) counter j
      ≡ (if leb from j && ltb j (from + rounds) then aged (counter b) (counter j) else counter j)
unfolding for_loop
age_loop_at b zero from counter j = ground arith
age_loop_at b (suc rounds) from counter j = ground (
  arith,
  age_loop_at b rounds (suc from) (age_step b from counter) j,
  age_step_at b from counter j,
  age_step_pivot b from counter,
)

-- The counters after `block_index` is used.
pub set_lru_counter_at :
    (w b : ℕ) (s : L2CacheStruct) (j : ℕ)
    → 0 < w
    → w ≤ ways
    → j < ways
    → (set_lru_counter w b s).lru_counter j
      ≡ (if j == b then pos (w - 1) else aged (s.lru_counter b) (s.lru_counter j))
unfolding set_lru_counter
set_lru_counter_at w b s j p q r = ground (arith, age_loop_at b ways 0 s.lru_counter j)

-- The first `w` counters are a permutation of 0, ..., w - 1.
pub record IsRanking (w : ℕ) (counter : ℕ → ℤ) : Type 0 where
  pub bounded : (i : ℕ) → i < w → (n : ℕ) × (counter i ≡ pos n) × (n < w)
  pub distinct : (i j : ℕ) → i < w → j < w → counter i ≡ counter j → i ≡ j
  pub covers : (k : ℕ) → k < w → (i : ℕ) × (i < w) × (counter i ≡ pos k)

module _ {w b : ℕ} (s : L2CacheStruct) (h : IsRanking w s.lru_counter) (q : w ≤ ways)
    (used : b < w) where
  bounded_after :
      (i : ℕ) → i < w → (n : ℕ) × ((set_lru_counter w b s).lru_counter i ≡ pos n) × (n < w)
  unfolding aged
  bounded_after i p =
      let (n, en, ln) = h.bounded i p in
      let (r, er, lr) = h.bounded b used in
      let now = set_lru_counter_at w b s i (omega arith) q (omega arith) in
      let m : ℕ = if i == b then w - 1 else if ltb r n then n - 1 else n in
      (m, ground (arith, now, h.distinct i b p used), ground (arith, h.distinct i b p used))

  distinct_after :
      (i j : ℕ)
      → i < w
      → j < w
      → (set_lru_counter w b s).lru_counter i ≡ (set_lru_counter w b s).lru_counter j
      → i ≡ j
  unfolding aged
  distinct_after i j p p' e =
      let (n, en, ln) = h.bounded i p in
      let (m, em, lm) = h.bounded j p' in
      let (r, er, lr) = h.bounded b used in
      ground (
        arith,
        set_lru_counter_at w b s i (omega arith) q (omega arith),
        set_lru_counter_at w b s j (omega arith) q (omega arith),
        h.distinct i j p p',
        h.distinct i b p used,
        h.distinct j b p' used,
      )

  covers_after :
      (k : ℕ) → k < w → (i : ℕ) × (i < w) × ((set_lru_counter w b s).lru_counter i ≡ pos k)
  unfolding aged
  covers_after k p = elim (dec_lt k (h.bounded b used).0) [
    | yes below ↦
        let (i, li, ei) = h.covers k p in
        (
          i,
          li,
          ground
              (arith, set_lru_counter_at w b s i (omega arith) q (omega arith), h.bounded b used),
        )
    | no above ↦ elim (ℕ_discrete (suc k) w) [
      | yes last ↦
          (b, used, ground (arith, set_lru_counter_at w b s b (omega arith) q (omega arith)))
      | no inner ↦
          let (i, li, ei) = h.covers (suc k) (omega arith) in
          (
            i,
            li,
            ground
                (arith, set_lru_counter_at w b s i (omega arith) q (omega arith), h.bounded b used),
          )
    ]
  ]

  -- Using any way in use keeps the counters a permutation.
  pub set_lru_counter-IsRanking : IsRanking w (set_lru_counter w b s).lru_counter
  set_lru_counter-IsRanking = record {
    bounded = bounded_after;
    distinct = distinct_after;
    covers = covers_after;
  }

-- The ways that are not in use keep their mark.
pub set_lru_counter_unused :
    (w b : ℕ) (s : L2CacheStruct) (i : ℕ)
    → 0 < w
    → w ≤ ways
    → b < w
    → w ≤ i
    → i < ways
    → s.lru_counter i ≡ negsuc 0
    → (set_lru_counter w b s).lru_counter i ≡ negsuc 0
unfolding aged
set_lru_counter_unused w b s i p q used lo hi e = ground (arith, set_lru_counter_at w b s i p q hi)
