-- ===== src/Sched/Queue.antt =====
-- The ready queue of OS_Threaded_Scheduling/src/student.c: a linked list through the `next` fields
-- of the processes. Each function is one critical section under `ready_mutex`.
pub mod Chain
pub mod Push
pub mod Longest
pub mod Unlink
pub mod Pop
use ece.Prelude.{
  ℕ, zero, suc, ◌+◌, Bool, false, Option, none, some, ltb, ◌==◌, if◌then◌else◌, ◌>>=◌, update,
}
use ece.Sched.Types.{Pcb, Student, process_count}

-- The queue holds each process at most once, so that a walk of this many rounds meets its end.
abbrev pub walk : ℕ
walk = suc process_count

abbrev pub set_next : (ℕ → Pcb) → ℕ → Option ℕ → ℕ → Pcb
set_next procs p q = update procs p (record (procs p) { next = q })

-- `curr == head`.
abbrev pub points_to : Option ℕ → ℕ → Bool
points_to none curr = false
points_to (some h) curr = curr == h

-- `while (curr->next != NULL) curr = curr->next;`
unfoldable pub find_tail : ℕ → (ℕ → Pcb) → ℕ → Option ℕ
find_tail zero procs curr = none
find_tail (suc fuel) procs curr = elim ((procs curr).next) [
  | none ↦ some curr
  | some n ↦ find_tail fuel procs n
]

-- `push_to_queue` behind the read of `head`.
unfoldable pub push_behind : Option ℕ → ℕ → Student → Option Student
push_behind none pcb s =
    some (record s { head = some pcb; processes = set_next s.processes pcb none })
push_behind (some curr) pcb s = do
  tail ← find_tail walk s.processes curr
  some (record s { processes = set_next (set_next s.processes tail (some pcb)) pcb none })

unfoldable pub push_to_queue : ℕ → Student → Option Student
unfolding push_behind
push_to_queue pcb s = push_behind s.head pcb s

-- The first loop of LRTF: the longest remaining time in the queue.
unfoldable pub find_high : ℕ → (ℕ → Pcb) → Option ℕ → ℕ → Option ℕ
find_high zero procs curr high = none
find_high (suc fuel) procs none high = some high
find_high (suc fuel) procs (some curr) high =
    let time = (procs curr).time_remaining in
    find_high fuel procs ((procs curr).next) (if ltb high time then time else high)

-- The second loop: the first process with that time is taken out. Where none has it, `node` is
-- returned without a value.
unfoldable pub unlink : ℕ → ℕ → ℕ → Option ℕ → Student → Option (ℕ × Student)
unlink zero high prev curr s = none
unlink (suc fuel) high prev none s = none
unlink (suc fuel) high prev (some curr) s =
    let next = (s.processes curr).next in
    let rest = unlink fuel high curr next s in
    if (s.processes curr).time_remaining == high
    then some (
      curr,
      if points_to s.head curr
          then record s { head = next }
          else record s { processes = set_next s.processes prev next },
    )
    else rest

-- `pop_from_queue` behind the read of `head`, for LRTF and for the other algorithms.
unfoldable pub pop_lrtf : Option ℕ → Student → Option (Option ℕ × Student)
pop_lrtf none s = some (none, s)
pop_lrtf (some head) s = do
  high ← find_high walk s.processes (some head) 0
  (node, t) ← unlink walk high head (some head) s
  some (some node, t)

unfoldable pub pop_fifo : Option ℕ → Student → Option ℕ × Student
pop_fifo none s = (none, s)
pop_fifo (some node) s = (some node, record s { head = (s.processes node).next })

unfoldable pub pop_from_queue : Student → Option (Option ℕ × Student)
pop_from_queue s = if s.scheduling_alg == b'l' then pop_lrtf s.head s else some (pop_fifo s.head s)
