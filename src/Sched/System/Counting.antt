-- ===== src/Sched/System/Counting.antt =====
-- Counting processes, for the Gantt chart of os-sim.c.
use ece.Prelude.{
  ℕ, zero, suc, ◌+◌, ◌%◌, ◌<◌, ◌≡◌, inl, inr, refl, sym, ◌∙◌, Bool, true, false, List, [], ◌∷◌, ◌∈◌,
  has, length, arith, if◌then◌else◌, Bool-cases, Distinct,
}
use ece.Sched.Types.{ProcessState, ready, running, waiting, terminated, Pcb, process_count}
use ece.Sched.Simulator.{u32_mod}
use ece.Sched.Gantt.{Current, count_current}
use ece.Sched.System.Work.{total, total-same, total-moved}

abbrev pub one_if : Bool → ℕ
one_if b = if b then 1 else 0

total-none : (n : ℕ) → total n (λ a. 0) ≡ 0
unfolding total
total-none zero = refl
total-none (suc n) = omega (arith, total-none n)

-- The members of a list of distinct numbers, counted among the numbers below `n`.
total-members :
    (n : ℕ) (xs : List ℕ)
    → Distinct xs
    → ((a : ℕ) → a ∈ xs → a < n)
    → total n (λ a. one_if (has a xs)) ≡ length xs
total-members n [] d below = total-none n
total-members n (x ∷ xs) d below =
    let rest = total-members n xs d.1 λ a m. below a (ground (arith, m)) in
    let moved =
      total-moved n (λ a. one_if (has a xs)) (λ a. one_if (has a (x ∷ xs))) x
        (below x (ground arith)) λ a ne. ground (arith, ne) in
    let before : one_if (has x xs) ≡ 0 = rw (d.0) refl in
    let after : one_if (has x (x ∷ xs)) ≡ 1 = ground arith in
    omega (arith, rest, moved, before, after)

-- A test that the members pass, and only they.
pub total-length :
    (n : ℕ) (xs : List ℕ) (test : ℕ → Bool)
    → Distinct xs
    → ((a : ℕ) → a ∈ xs → (a < n) × (test a ≡ true))
    → ((a : ℕ) → a < n → test a ≡ true → a ∈ xs)
    → total n (λ a. one_if (test a)) ≡ length xs
total-length n xs test d member complete =
    total-same n (λ a. one_if (test a)) (λ a. one_if (has a xs))
      (λ a q. elim (Bool-cases (test a)) [
        | inl passes ↦ let m = complete a q passes in rw (passes, m) refl
        | inr fails ↦ elim (Bool-cases (has a xs)) [
          | inl m ↦ let bad : false ≡ true = sym fails ∙ (member a m).1 in cc
          | inr out ↦ rw (fails, out) refl
        ]
      ])
    ∙ total-members n xs d (λ a m. (member a m).0)

abbrev pub is_ready : ProcessState → Bool
is_ready ready = true
is_ready running = false
is_ready waiting = false
is_ready ProcessState.new = false
is_ready terminated = false

abbrev pub is_running : ProcessState → Bool
is_running running = true
is_running ready = false
is_running waiting = false
is_running ProcessState.new = false
is_running terminated = false

abbrev pub is_waiting : ProcessState → Bool
is_waiting waiting = true
is_waiting ready = false
is_waiting running = false
is_waiting ProcessState.new = false
is_waiting terminated = false

-- A sum in the order of a loop.
unfoldable pub span : ℕ → ℕ → (ℕ → ℕ) → ℕ
span zero n f = 0
span (suc rounds) n f = f n + span rounds (suc n) f

abbrev pub counted : (ProcessState → Bool) → (ℕ → Pcb) → ℕ → ℕ
counted test procs a = one_if (test (procs a).state)

pub record Counts (rounds n : ℕ) (procs : ℕ → Pcb) (t u : Current) : Type 0 where
  pub ready_too : u.ready ≡ t.ready + span rounds n (counted is_ready procs)
  pub running_too : u.running ≡ t.running + span rounds n (counted is_running procs)
  pub waiting_too : u.waiting ≡ t.waiting + span rounds n (counted is_waiting procs)

pub count_current-Counts :
    (rounds n : ℕ) (procs : ℕ → Pcb) (t : Current)
    → t.ready + rounds < u32_mod
    → t.running + rounds < u32_mod
    → t.waiting + rounds < u32_mod
    → Counts rounds n procs t (count_current rounds n procs t)
unfolding count_current span
count_current-Counts zero n procs t r y w = record {
  ready_too = omega arith;
  running_too = omega arith;
  waiting_too = omega arith;
}
count_current-Counts (suc rounds) n procs t r y w =
    let t' : Current = elim (procs n).state [
      | ProcessState.ready ↦ record t { ready = (t.ready + 1) % u32_mod }
      | ProcessState.running ↦ record t { running = (t.running + 1) % u32_mod }
      | ProcessState.waiting ↦ record t { waiting = (t.waiting + 1) % u32_mod }
      | _ ↦ t
    ] in
    let h =
      count_current-Counts rounds (suc n) procs t' (ground (arith, r)) (ground (arith, y))
        (ground (arith, w)) in
    record {
      ready_too = ground (arith, h.ready_too, r);
      running_too = ground (arith, h.running_too, y);
      waiting_too = ground (arith, h.waiting_too, w);
    }

pub span-total : (f : ℕ → ℕ) → 0 + span process_count 0 f ≡ total process_count f
unfolding span total
span-total f = omega arith
