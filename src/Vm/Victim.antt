-- ===== src/Vm/Victim.antt =====
-- Which frame `select_victim_frame` of Virtual_Memory/student-src/page_replacement.c gives.
use ece.Prelude.{
  ℕ, zero, suc, ◌+◌, ◌%◌, ◌≤◌, ◌<◌, ◌≡◌, ◌≢◌, ◌⊎◌, inl, inr, refl, Bool, true, ◌&&◌, Option, none,
  some, ◌==◌, arith, subst, sym, Returns, Bool-cases, find_first, ◌↔◌, ◌∙◌, Finds, found, missing,
  find_first-Finds,
}
use native.Mathlib.Decide.{ℕ_discrete}
use ece.Vm.Types.{num_frames, random, Fte, Vm}
use ece.Vm.Paging.{prng_rand, roulette, select_victim_frame}

abbrev pub IsFree : (ℕ → Fte) → ℕ → Type 0
IsFree ft i = ((ft i).protected ≡ 0) × ((ft i).mapped ≡ 0)

abbrev is_free : (ℕ → Fte) → ℕ → Bool
is_free ft i = ((ft i).protected == 0) && ((ft i).mapped == 0)

-- A frame of memory that may be evicted.
abbrev pub IsEvictable : (ℕ → Fte) → ℕ → Type 0
IsEvictable ft i = (i < num_frames) × ((ft i).protected ≡ 0)

-- Where the search for a victim ends: on an unprotected frame, or nowhere if there is none.
data Ends (ft : ℕ → Fte) (from to : ℕ) (last : Option ℕ) : Option ℕ → Type 0 where
  victim : (i : ℕ) → from ≤ i → i < to → (ft i).protected ≡ 0 → Ends ft from to last (some i)
  left :
      {r : Option ℕ}
      → r ≡ last
      → ((j : ℕ) → from ≤ j → j < to → (ft j).protected ≢ 0)
      → Ends ft from to last r

Ends-skip :
    {ft : ℕ → Fte} (i rounds : ℕ) {last r : Option ℕ}
    → (ft i).protected ≢ 0
    → Ends ft (suc i) (suc i + rounds) last r
    → Ends ft i (i + suc rounds) last r
Ends-skip i rounds held (victim j lo hi e) = victim j (omega arith) (omega arith) e
Ends-skip {ft} i rounds held (left e all_held) = left e (λ j lo hi. elim (ℕ_discrete j i) [
  | yes same ↦ subst (λ (n : ℕ). (ft n).protected ≢ 0) (sym same) held
  | no other ↦ all_held j (omega arith) (omega arith)
])

Ends-next :
    {ft : ℕ → Fte} (i rounds : ℕ) {last r : Option ℕ}
    → (ft i).protected ≡ 0
    → Ends ft (suc i) (suc i + rounds) (some i) r
    → Ends ft i (i + suc rounds) last r
Ends-next i rounds open_frame (victim j lo hi e) = victim j (omega arith) (omega arith) e
Ends-next i rounds open_frame (left e all_held) =
    rw e (victim i (omega arith) (omega arith) open_frame)

roulette-Ends :
    (rounds i : ℕ) (ft : ℕ → Fte) (last : Option ℕ) (rng : ℕ)
    → Ends ft i (i + rounds) last (roulette rounds i ft last rng).0
unfolding roulette
roulette-Ends zero i ft last rng = left refl (λ j p q. absurd (omega arith))
roulette-Ends (suc rounds) i ft last rng = elim (Bool-cases ((ft i).protected == 0)) [
  | inr held ↦
      rw held (Ends-skip i rounds (ground arith) (roulette-Ends rounds (suc i) ft last rng))
  | inl open_frame ↦ rw open_frame (elim (Bool-cases ((prng_rand rng).1 % 2 == 0)) [
    | inl even ↦ rw even (
        Ends-next i rounds (ground arith)
          (roulette-Ends rounds (suc i) ft (some i) (prng_rand rng).0))
    | inr odd ↦ rw odd (victim i (omega arith) (omega arith) (ground arith))
  ])
]

-- What the choice of the frame `i` means, and what it changes.
pub record IsVictim (v : Vm) (i : ℕ) (t : Vm) : Type 0 where
  pub evictable : IsEvictable v.frame_table i
  pub choice :
      (IsFree v.frame_table i × ((j : ℕ) → j < i → ¬ IsFree v.frame_table j) × (t ≡ v))
      ⊎ (((j : ℕ) → j < num_frames → ¬ IsFree v.frame_table j) × (t ≡ record v { rng = t.rng }))

choose_at_random :
    {r : Option ℕ} (v : Vm) (f rng : ℕ)
    → IsEvictable v.frame_table f
    → ((j : ℕ) → j < num_frames → ¬ IsFree v.frame_table j)
    → Ends v.frame_table 0 (0 + num_frames) none r
    → Returns
        (λ (i, t). IsVictim v i t)
        (elim r [ none ↦ none | some i ↦ some (i, record v { rng = rng }) ])
choose_at_random v f rng open_frame full (victim i lo hi e) = record {
  evictable = (hi, e);
  choice = inr (full, refl);
}
choose_at_random v f rng open_frame full (left e all_held) =
    absurd (all_held f (omega arith) open_frame.0 open_frame.1)

none_left :
    {ft : ℕ → Fte} {r : Option ℕ}
    → ((j : ℕ) → j < num_frames → (ft j).protected ≢ 0)
    → Ends ft 0 (0 + num_frames) none r
    → r ≡ none
none_left held (victim i lo hi e) = absurd (held i hi e)
none_left held (left e all_held) = e

module _ (v : Vm) where
  select :
      {r : Option ℕ} (f : ℕ)
      → IsEvictable v.frame_table f
      → (v.replacement == random) ≡ true
      → Finds (is_free v.frame_table) num_frames 0 r
      → find_first (is_free v.frame_table) num_frames 0 ≡ r
      → Returns (λ (i, t). IsVictim v i t) (select_victim_frame v)
  unfolding select_victim_frame
  select f open_frame strategy (found i lo hi free before) e =
      rw (e, select_victim_frame)
        (record {
          evictable = (hi, ground arith);
          choice = inl (ground arith, λ j p q. ground (arith, before j), refl);
        })
  select f open_frame strategy (missing none_free) e =
      rw (e, select_victim_frame, strategy)
        (choose_at_random v f _ open_frame (λ j p q. ground (arith, none_free j))
          (roulette-Ends num_frames 0 v.frame_table none v.rng))

  -- Under the random strategy, and if some frame of memory is unprotected, a frame of memory that
  -- is unprotected is found, whatever the generator draws: the first free one, with nothing
  -- changed, or, if none is free, one with nothing but the generator changed.
  pub select_victim_frame-IsVictim :
      (f : ℕ)
      → IsEvictable v.frame_table f
      → v.replacement ≡ random
      → Returns (λ (i, t). IsVictim v i t) (select_victim_frame v)
  select_victim_frame-IsVictim f open_frame strategy =
      select f open_frame (ground arith) (find_first-Finds _ num_frames 0) refl

  unfree :
      {r : Option ℕ}
      → select_victim_frame v ≡ none
      → Finds (is_free v.frame_table) num_frames 0 r
      → find_first (is_free v.frame_table) num_frames 0 ≡ r
      → (j : ℕ) → j < num_frames
      → ¬ IsFree v.frame_table j
  unfolding select_victim_frame
  unfree panics (found i lo hi free before) e =
      let clash : ◌≡◌ {A = Option (ℕ × Vm)} (some (i, v)) none =
        sym (rw (e, select_victim_frame) refl) ∙ panics in
      absurd cc
  unfree panics (missing none_free) e = λ j lo free. ground (arith, none_free j)

  no_victim :
      {r : Option ℕ}
      → ((j : ℕ) → j < num_frames → ¬ IsFree v.frame_table j)
      → (v.replacement ≡ random → (j : ℕ) → j < num_frames → (v.frame_table j).protected ≢ 0)
      → Finds (is_free v.frame_table) num_frames 0 r
      → find_first (is_free v.frame_table) num_frames 0 ≡ r
      → select_victim_frame v ≡ none
  unfolding select_victim_frame
  no_victim full held (found i lo hi free before) e = absurd (full i hi (ground arith))
  no_victim full held (missing none_free) e = elim (Bool-cases (v.replacement == random)) [
    | inr other ↦ rw (e, select_victim_frame, other) refl
    | inl strategy ↦
        let nowhere =
          none_left (held (ground arith)) (roulette-Ends num_frames 0 v.frame_table none v.rng) in
        rw (e, select_victim_frame, strategy, nowhere) refl
  ]

  -- The search for a frame panics exactly if no frame of memory is free and, under the random
  -- strategy, every frame of memory is protected. Any other strategy, clock sweep among them, panics
  -- as soon as no frame is free.
  pub select_victim_frame-eq-none_iff : (select_victim_frame v ≡ none) ↔ (
      ((j : ℕ) → j < num_frames → ¬ IsFree v.frame_table j)
      × (v.replacement ≡ random → (j : ℕ) → j < num_frames → (v.frame_table j).protected ≢ 0))
  select_victim_frame-eq-none_iff = (
    λ panics. (
      unfree panics (find_first-Finds _ num_frames 0) refl,
      λ strategy j lo open_frame.
          rw panics at (select_victim_frame-IsVictim j (lo, open_frame) strategy),
    ),
    λ (full, held). no_victim full held (find_first-Finds _ num_frames 0) refl,
  )
