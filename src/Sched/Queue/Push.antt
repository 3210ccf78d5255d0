-- ===== src/Sched/Queue/Push.antt =====
-- `push_to_queue` of student.c appends to the ready queue.
use ece.Prelude.{
  ℕ, zero, suc, ◌≤◌, ◌<◌, ◌≡◌, refl, Option, some, List, [], ◌∷◌, ◌++◌, arith, ◌∉◌, length, Returns,
}
use ece.Sched.Types.{Pcb, Student, process_count}
use ece.Sched.Queue.{walk, find_tail, push_behind, push_to_queue}
use ece.Sched.Queue.Chain.{Chain, nil, cons, last, last-mem, extend}

-- Nothing but `next` pointers differs, and the head of the queue.
pub record Relinks (s t : Student) : Type 0 where
  pub others : (a : ℕ) → t.processes a ≡ record (s.processes a) { next = (t.processes a).next }
  pub current : t.current ≡ s.current
  pub time_slice : t.time_slice ≡ s.time_slice
  pub cpu_count : t.cpu_count ≡ s.cpu_count
  pub scheduling_alg : t.scheduling_alg ≡ s.scheduling_alg

-- Another head of the queue.
pub Relinks-head : (s : Student) (h : Option ℕ) → Relinks s (record s { head = h })
Relinks-head s h = record {
  others = λ a. refl;
  current = refl;
  time_slice = refl;
  cpu_count = refl;
  scheduling_alg = refl;
}

find_tail-last :
    (fuel : ℕ) {procs : ℕ → Pcb} (p : ℕ) {q : Option ℕ} {xs : List ℕ}
    → (procs p).next ≡ q
    → Chain procs q xs
    → length xs < fuel
    → find_tail fuel procs p ≡ some (last p xs)
unfolding find_tail
find_tail-last zero p e c h = absurd (omega arith)
find_tail-last (suc fuel) p e nil h = rw (e, find_tail)
find_tail-last (suc fuel) p e (cons {p = p'} e' out c) h =
    rw (e, find_tail) (find_tail-last fuel p' e' c (omega arith))

module _ (pcb : ℕ) (s : Student) where
  -- The queue holds `xs` and then `pcb`, and nothing else has changed.
  abbrev pub Pushed : List ℕ → Student → Type 0
  Pushed xs t = Chain t.processes t.head (xs ++ pcb ∷ []) × Relinks s t

  push_behind-Pushed :
      {h : Option ℕ} {xs : List ℕ}
      → Chain s.processes h xs
      → s.head ≡ h
      → pcb ∉ xs
      → length xs ≤ process_count
      → Returns (Pushed xs) (push_behind h pcb s)
  unfolding push_behind
  push_behind-Pushed nil e new room = (
    cons (ground arith) refl nil,
    record {
      others = λ a. ground arith;
      current = refl;
      time_slice = refl;
      cpu_count = refl;
      scheduling_alg = refl;
    },
  )
  push_behind-Pushed (cons {p} {xs} e' out c) e new room =
      rw (find_tail-last walk p e' c (omega arith)) (
        rw e (
            extend e' out c new (ground (arith, last-mem p xs)) (ground arith)
              λ a i ne. ground arith),
        record {
          others = λ a. ground arith;
          current = refl;
          time_slice = refl;
          cpu_count = refl;
          scheduling_alg = refl;
        },
      )

  -- Pushing a process that is not in the ready queue, to a queue of at most PROCESS_COUNT
  -- processes, does not fail, appends it, and changes nothing else.
  pub push_to_queue-append :
      {xs : List ℕ}
      → Chain s.processes s.head xs
      → pcb ∉ xs
      → length xs ≤ process_count
      → Returns (Pushed xs) (push_to_queue pcb s)
  unfolding push_to_queue
  push_to_queue-append c new room = push_behind-Pushed c refl new room
