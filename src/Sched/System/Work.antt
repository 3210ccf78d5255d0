-- ===== src/Sched/System/Work.antt =====
-- What the programs of process.c and the I/O queue of os-sim.c still have to do, and how many
-- processes have terminated.
use mathlib.Core.List.{tail}
use ece.Prelude.{ℕ, zero, suc, ◌+◌, ◌≤◌, ◌<◌, ◌≡◌, ◌≢◌, refl, ap, List, [], ◌∷◌, ◌++◌, arith}
use native.Mathlib.Decide.{ℕ_discrete}
use ece.Sched.Types.{
  ProcessState, ready, running, waiting, terminated, Op, Pcb, IoRequest, World, process_count,
}

unfoldable pub total : ℕ → (ℕ → ℕ) → ℕ
total zero f = 0
total (suc n) f = f n + total n f

pub total-same : (n : ℕ) (f g : ℕ → ℕ) → ((a : ℕ) → a < n → f a ≡ g a) → total n f ≡ total n g
unfolding total
total-same zero f g h = refl
total-same (suc n) f g h =
    omega (arith, h n (omega arith), total-same n f g λ a q. h a (omega arith))

-- Two sums that differ at one place.
pub total-moved :
    (n : ℕ) (f g : ℕ → ℕ) (p : ℕ)
    → p < n
    → ((a : ℕ) → a ≢ p → g a ≡ f a)
    → total n g + f p ≡ total n f + g p
unfolding total
total-moved zero f g p q h = absurd (omega arith)
total-moved (suc n) f g p q h = elim (ℕ_discrete n p) [
  | yes same ↦
      let rest = total-same n g f λ a below. h a (omega (arith, same)) in
      omega (arith, rest, ap f same, ap g same)
  | no other ↦ omega (arith, total-moved n f g p (omega (arith, other)) h, h n other)
]

pub total-le : (n : ℕ) (f : ℕ → ℕ) → ((a : ℕ) → f a ≤ 1) → total n f ≤ n
unfolding total
total-le zero f h = omega arith
total-le (suc n) f h = omega (arith, h n, total-le n f h)

-- A sum of zeros and ones that is not full has a zero.
total-less : (n : ℕ) (f : ℕ → ℕ) → total n f < n → (a : ℕ) × (a < n) × (f a ≡ 0)
unfolding total
total-less zero f less = absurd (omega arith)
total-less (suc n) f less = elim (ℕ_discrete (f n) 0) [
  | yes e ↦ (n, omega arith, e)
  | no ne ↦ let (a, below, e) = total-less n f (omega (arith, ne)) in (a, omega (arith, below), e)
]

-- Each operation counts its time, and two for its start and its end.
abbrev pub cost : List Op → ℕ
cost [] = 0
cost (op ∷ rest) = op.time + 2 + cost rest

-- A process that waits has handed its first operation to the I/O queue.
abbrev pub share : ProcessState → List Op → ℕ
share waiting pc = cost (tail pc)
share ProcessState.new pc = cost pc
share ready pc = cost pc
share running pc = cost pc
share terminated pc = cost pc

abbrev pub io_cost : List IoRequest → ℕ
io_cost [] = 0
io_cost (r ∷ queue) = r.execution_time + 1 + io_cost queue

unfoldable pub work_of : (ℕ → Pcb) → ℕ
work_of procs = total process_count (λ a. share (procs a).state (procs a).pc)

-- What is left to do, in all programs and in the I/O queue.
abbrev pub work : World → ℕ
work w = work_of w.student.processes + io_cost w.simulator.io_queue

abbrev pub flag : ProcessState → ℕ
flag terminated = 1
flag ProcessState.new = 0
flag ready = 0
flag running = 0
flag waiting = 0

unfoldable pub tally : (ℕ → Pcb) → ℕ
tally procs = total process_count (λ a. flag (procs a).state)

flag-le : (state : ProcessState) → flag state ≤ 1
flag-le terminated = omega arith
flag-le ProcessState.new = omega arith
flag-le ready = omega arith
flag-le running = omega arith
flag-le waiting = omega arith

pub tally-le : (procs : ℕ → Pcb) → tally procs ≤ process_count
unfolding tally
tally-le procs = total-le process_count _ λ a. flag-le (procs a).state

flag-terminated : (state : ProcessState) → flag state ≡ 0 → state ≢ terminated
flag-terminated state e same = ground arith

-- Where not all have terminated, one has not.
pub tally-less :
    (procs : ℕ → Pcb)
    → tally procs < process_count
    → (a : ℕ) × (a < process_count) × ((procs a).state ≢ terminated)
unfolding tally
tally-less procs less =
    let (a, below, e) = total-less process_count (λ a. flag (procs a).state) less in
    (a, below, flag-terminated ((procs a).state) e)

pub io_cost-append :
    (io : List IoRequest) (r : IoRequest)
    → io_cost (io ++ r ∷ []) ≡ io_cost io + r.execution_time + 1
io_cost-append [] r = omega arith
io_cost-append (x ∷ io) r = omega (arith, io_cost-append io r)

module _ (procs procs' : ℕ → Pcb) where
  pub work_of-same :
      ((a : ℕ)
        → a < process_count
        → share (procs' a).state (procs' a).pc ≡ share (procs a).state (procs a).pc)
      → work_of procs' ≡ work_of procs
  unfolding work_of
  work_of-same h = total-same process_count _ _ h

  pub tally-same :
      ((a : ℕ) → a < process_count → flag (procs' a).state ≡ flag (procs a).state)
      → tally procs' ≡ tally procs
  unfolding tally
  tally-same h = total-same process_count _ _ h

  module _ (p : ℕ) (below : p < process_count) where
    pub work_of-moved :
        ((a : ℕ)
          → a ≢ p
          → share (procs' a).state (procs' a).pc ≡ share (procs a).state (procs a).pc)
        → work_of procs' + share (procs p).state (procs p).pc
          ≡ work_of procs + share (procs' p).state (procs' p).pc
    unfolding work_of
    work_of-moved h = total-moved process_count _ _ p below h

    pub tally-moved :
        ((a : ℕ) → a ≢ p → flag (procs' a).state ≡ flag (procs a).state)
        → tally procs' + flag (procs p).state ≡ tally procs + flag (procs' p).state
    unfolding tally
    tally-moved h = total-moved process_count _ _ p below h
