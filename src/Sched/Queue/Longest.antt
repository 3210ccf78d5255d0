-- ===== src/Sched/Queue/Longest.antt =====
-- The longest remaining time in the ready queue: the first loop of LRTF in `pop_from_queue` of
-- student.c.
use ece.Prelude.{
  ℕ, zero, suc, ◌≤◌, ◌<◌, ◌≡◌, ◌⊎◌, refl, inl, inr, Bool, Option, none, some, List, [], ◌∷◌, arith,
  ◌==◌, ◌∈◌, ◌∉◌, length, if◌then◌else◌, ltb, Bool-cases,
}
use native.Mathlib.Decide.{ℕ_discrete}
use ece.Sched.Types.{Pcb}
use ece.Sched.Queue.{find_high}
use ece.Sched.Queue.Chain.{Chain, nil, cons}

-- The first element that passes a test, and the list without it.
abbrev pub first_that : (ℕ → Bool) → List ℕ → Option ℕ
first_that test [] = none
first_that test (x ∷ xs) = if test x then some x else first_that test xs

abbrev pub erase_first : (ℕ → Bool) → List ℕ → List ℕ
erase_first test [] = []
erase_first test (x ∷ xs) = if test x then xs else x ∷ erase_first test xs

pub not-mem-erase_first : (a : ℕ) (test : ℕ → Bool) (xs : List ℕ) → a ∉ xs → a ∉ erase_first test xs
not-mem-erase_first a test [] out = refl
not-mem-erase_first a test (x ∷ xs) out = ground (arith, not-mem-erase_first a test xs)

-- The longest remaining time among `xs`, and `high`.
abbrev pub longest : (ℕ → Pcb) → ℕ → List ℕ → ℕ
longest procs high [] = high
longest procs high (x ∷ xs) =
    longest procs (if ltb high (procs x).time_remaining then (procs x).time_remaining else high) xs

pub le-longest : (procs : ℕ → Pcb) (high : ℕ) (xs : List ℕ) → high ≤ longest procs high xs
le-longest procs high [] = omega arith
le-longest procs high (x ∷ xs) =
    let next : ℕ = if ltb high (procs x).time_remaining then (procs x).time_remaining else high in
    let up : high ≤ next = ground arith in omega (arith, le-longest procs next xs)

pub time-le-longest :
    (procs : ℕ → Pcb) (high a : ℕ) (xs : List ℕ)
    → a ∈ xs
    → (procs a).time_remaining ≤ longest procs high xs
time-le-longest procs high a [] i = cc
time-le-longest procs high a (x ∷ xs) i =
    let next : ℕ = if ltb high (procs x).time_remaining then (procs x).time_remaining else high in
    let up = le-longest procs next xs in
    elim (ℕ_discrete a x) [
      | yes e ↦ ground (arith, up)
      | no ne ↦ time-le-longest procs next a xs (ground arith)
    ]

pub find_high-longest :
    (fuel : ℕ) {procs : ℕ → Pcb} {p : Option ℕ} {xs : List ℕ} (high : ℕ)
    → Chain procs p xs
    → length xs < fuel
    → find_high fuel procs p high ≡ some (longest procs high xs)
unfolding find_high
find_high-longest zero high c h = absurd (omega arith)
find_high-longest (suc fuel) high nil h = refl
find_high-longest (suc fuel) high (cons e out c) h = rw e (find_high-longest fuel _ c (omega arith))

-- Somebody has the longest time.
abbrev pub Has : (ℕ → Pcb) → ℕ → List ℕ → Type 0
Has procs high xs = (m : ℕ) × (first_that (λ a. (procs a).time_remaining == high) xs ≡ some m)

pub longest-Has :
    (procs : ℕ → Pcb) (high : ℕ) (xs : List ℕ)
    → (longest procs high xs ≡ high) ⊎ Has procs (longest procs high xs) xs
longest-Has procs high [] = inl refl
longest-Has procs high (x ∷ xs) =
    let next : ℕ = if ltb high (procs x).time_remaining then (procs x).time_remaining else high in
    elim (Bool-cases ((procs x).time_remaining == longest procs next xs)) [
      | inl e ↦ inr (x, rw e)
      | inr ne ↦ elim (longest-Has procs next xs) [
        | inl same ↦ inl (ground arith)
        | inr (m, e) ↦ inr (m, rw ne e)
      ]
    ]
