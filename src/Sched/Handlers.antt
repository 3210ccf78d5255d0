-- ===== src/Sched/Handlers.antt =====
-- What `schedule` of OS_Threaded_Scheduling/src/student.c and the handlers that end in it bring
-- about.
use mathlib.Core.List.{head?, tail}
use ece.Prelude.{
  ltb, leb, false, true, ℕ, ◌≤◌, ◌<◌, ◌≡◌, ◌≢◌, refl, sym, ◌∙◌, Bool, Option, none, some, ◌==◌,
  if◌then◌else◌, arith, update, Bool-cases, inl, inr, Returns, Returns-bind, Returns-mono, List, [],
  ◌∷◌, ◌++◌, ◌∈◌, ◌∉◌, length, length-append, ℤ, has-append,
}
use ece.Sched.Types.{
  ProcessState, ready, waiting, terminated, Student, Simulator, World, process_count,
}
use ece.Sched.Queue.{pop_from_queue}
use ece.Sched.Queue.Chain.{Chain, frame}
use ece.Sched.Queue.Push.{Relinks, Pushed, push_to_queue-append}
use ece.Sched.Queue.Longest.{first_that, erase_first}
use ece.Sched.Queue.Pop.{is_longest, IsLrtfPop, IsFifoPop, pop_from_queue_lem}
use ece.Sched.Student.{set_state, context_switch, install, schedule, preempt, yield, terminate}

-- The process that the algorithm takes from the ready queue `xs`, and the queue without it.
abbrev pub chosen : Student → List ℕ → Option ℕ
chosen s xs =
    if s.scheduling_alg == b'l' then first_that (is_longest s.processes xs) xs else head? xs

abbrev pub remaining : Student → List ℕ → List ℕ
remaining s xs =
    if s.scheduling_alg == b'l' then erase_first (is_longest s.processes xs) xs else tail xs

-- The CPU `cpu_id` runs the chosen process of the ready queue `xs`, or is idle; the others wait in
-- the queue.
pub record Schedules (cpu_id : ℕ) (w : World) (xs : List ℕ) (v : World) : Type 0 where
  pub current : v.student.current ≡ update w.student.current cpu_id (chosen w.student xs)
  pub queue : Chain v.student.processes v.student.head (remaining w.student xs)
  pub is_running :
      (p : ℕ) → chosen w.student xs ≡ some p → (v.student.processes p).state ≡ ProcessState.running
  pub others :
      (a : ℕ)
      → chosen w.student xs ≢ some a
      → (v.student.processes a).state ≡ (w.student.processes a).state
  pub dispatched : (v.simulator.cpu_data cpu_id).current ≡ chosen w.student xs
  pub timer : (v.simulator.cpu_data cpu_id).preemption_timer ≡ w.student.time_slice
  pub elsewhere : (c : ℕ) → c ≢ cpu_id → v.simulator.cpu_data c ≡ w.simulator.cpu_data c
  pub simulator : v.simulator ≡ record (w.simulator) {
    cpu_data = v.simulator.cpu_data;
    context_switches = v.simulator.context_switches;
  }
  pub programs : (a : ℕ) → (v.student.processes a).pc ≡ (w.student.processes a).pc
  pub cpu_count : v.student.cpu_count ≡ w.student.cpu_count

-- What popping has in common under all algorithms.
record Popped (s : Student) (xs : List ℕ) (r : Option ℕ × Student) : Type 0 where
  node : r.0 ≡ chosen s xs
  left : Chain r.1.processes r.1.head (remaining s xs)
  relinks : Relinks s r.1

pop-Popped :
    (s : Student) (xs : List ℕ)
    → Chain s.processes s.head xs
    → length xs ≤ process_count
    → Returns (Popped s xs) (pop_from_queue s)
pop-Popped s xs c room =
    Returns-mono (λ r. if s.scheduling_alg == b'l' then IsLrtfPop s xs r else IsFifoPop s xs r)
      (Popped s xs) (pop_from_queue s) (pop_from_queue_lem s xs c room)
      λ r popped. elim (Bool-cases (s.scheduling_alg == b'l')) [
        | inl e ↦
            let h : IsLrtfPop s xs r = rw e at popped in
            record { node = rw e h.node; left = rw e h.left; relinks = h.relinks }
        | inr e ↦
            let h : IsFifoPop s xs r = rw e at popped in
            record { node = rw e h.node; left = rw e h.left; relinks = h.relinks }
      ]

pub first_that-∈ : (test : ℕ → Bool) (xs : List ℕ) (p : ℕ) → first_that test xs ≡ some p → p ∈ xs
first_that-∈ test [] p h = cc
first_that-∈ test (x ∷ xs) p h = ground (arith, first_that-∈ test xs p)

head-∈ : (xs : List ℕ) (p : ℕ) → head? xs ≡ some p → p ∈ xs
head-∈ [] p h = cc
head-∈ (x ∷ xs) p h = ground arith

pub chosen-∈ : (s : Student) (xs : List ℕ) (p : ℕ) → chosen s xs ≡ some p → p ∈ xs
chosen-∈ s xs p h = elim (Bool-cases (s.scheduling_alg == b'l')) [
  | inl e ↦ first_that-∈ _ xs p (rw e at h)
  | inr e ↦ head-∈ xs p (rw e at h)
]

-- The simulator after the assertions of `context_switch` have held.
record Dispatched (cpu_id : ℕ) (node : Option ℕ) (time : ℤ) (m m' : Simulator) : Type 0 where
  current : (m'.cpu_data cpu_id).current ≡ node
  timer : (m'.cpu_data cpu_id).preemption_timer ≡ time
  elsewhere : (c : ℕ) → c ≢ cpu_id → m'.cpu_data c ≡ m.cpu_data c
  rest : m' ≡ record m { cpu_data = m'.cpu_data; context_switches = m'.context_switches }

dispatch :
    (cpu_id : ℕ) (node : Option ℕ) (time : ℤ) (m : Simulator)
    → cpu_id < m.cpu_count
    → ((p : ℕ) → node ≡ some p → p < process_count)
    → Returns (Dispatched cpu_id node time m) (context_switch cpu_id node time m)
unfolding context_switch
dispatch cpu_id none time m known h =
    let small : leb m.cpu_count cpu_id ≡ false = ground arith in
    rw small (record {
      current = ground arith;
      timer = ground arith;
      elsewhere = λ c ne. ground arith;
      rest = refl;
    })
dispatch cpu_id (some p) time m known h =
    let small : leb m.cpu_count cpu_id ≡ false = ground arith in
    let in_table : ltb p process_count ≡ true = ground (arith, h p refl) in
    rw (small, in_table)
      (record {
        current = ground arith;
        timer = ground arith;
        elsewhere = λ c ne. ground arith;
        rest = refl;
      })

module _ (cpu_id : ℕ) (w : World) (xs : List ℕ) where
  -- What `schedule` leaves after `pop_from_queue` and `context_switch`.
  installed :
      (r : Option ℕ × Student) (m : Simulator)
      → Popped w.student xs r
      → Dispatched cpu_id r.0 r.1.time_slice w.simulator m
      → Schedules cpu_id w xs (record { student = install cpu_id r.0 r.1; simulator = m })
  unfolding install set_state
  installed (none, s) m h d = record {
    current = ground (arith, h.node, h.relinks.current);
    queue = h.left;
    is_running = λ p e. absurd (cc (h.node, e));
    others = λ a ne. ground (arith, h.relinks.others a);
    dispatched = d.current ∙ h.node;
    timer = d.timer ∙ h.relinks.time_slice;
    elsewhere = d.elsewhere;
    simulator = d.rest;
    programs = λ a. ground (arith, h.relinks.others a);
    cpu_count = h.relinks.cpu_count;
  }
  installed (some p, s) m h d = record {
    current = ground (arith, h.node, h.relinks.current);
    queue = frame h.left λ a i. ground arith;
    is_running = λ q e. ground (arith, h.node);
    others = λ a ne. ground (arith, h.node, h.relinks.others a);
    dispatched = d.current ∙ h.node;
    timer = d.timer ∙ h.relinks.time_slice;
    elsewhere = d.elsewhere;
    simulator = d.rest;
    programs = λ a. ground (arith, h.relinks.others a);
    cpu_count = h.relinks.cpu_count;
  }

  -- On an existing CPU, and with a ready queue `xs` of at most PROCESS_COUNT processes of the table,
  -- `schedule` does not fail. The CPU gets the process that the algorithm chooses, marked running,
  -- in `current` and in the simulator, with the time slice; the other processes keep their states, the
  -- other CPUs what they run, every process its program, and the queue is what remains.
  pub schedule-Schedules :
      Chain w.student.processes w.student.head xs
      → length xs ≤ process_count
      → ((a : ℕ) → a ∈ xs → a < process_count)
      → cpu_id < w.simulator.cpu_count
      → Returns (Schedules cpu_id w xs) (schedule cpu_id w)
  unfolding schedule
  schedule-Schedules c room in_table known =
      Returns-bind (Popped w.student xs) (Schedules cpu_id w xs) (pop_from_queue w.student) _
        (pop-Popped w.student xs c room)
        λ r _ popped.
          Returns-bind _ (Schedules cpu_id w xs)
            (context_switch cpu_id r.0 r.1.time_slice w.simulator) _
            (dispatch cpu_id r.0 r.1.time_slice w.simulator known
              λ p e. in_table p (chosen-∈ w.student xs p (sym popped.node ∙ e)))
            λ m _ at. installed r m popped at

-- The process `p` of the CPU, ready, was appended to the queue `xs`, and the CPU was then given the
-- process that the algorithm chooses.
pub record Preempts (cpu_id p : ℕ) (w : World) (xs : List ℕ) (v : World) : Type 0 where
  pub between : Student
  pub pushed : Pushed p (set_state p ready w.student) xs between
  pub is_ready : (between.processes p).state ≡ ProcessState.ready
  pub scheduled : Schedules cpu_id (record w { student = between }) (xs ++ p ∷ []) v

module _ (cpu_id p : ℕ) (w : World) (xs : List ℕ) (runs : w.student.current cpu_id ≡ some p)
    (c : Chain w.student.processes w.student.head xs)
    (in_table : (a : ℕ) → a ∈ xs → a < process_count) (known : cpu_id < w.simulator.cpu_count) where
  -- A state of `p` does not matter to the queue.
  set_state-Chain :
      (state : ProcessState)
      → Chain (set_state p state w.student).processes (set_state p state w.student).head xs
  unfolding set_state
  set_state-Chain state = frame c λ a i. ground arith

  all_in_table : p < process_count → (a : ℕ) → a ∈ xs ++ p ∷ [] → a < process_count
  all_in_table mine a i = ground (arith, has-append a xs (p ∷ []), in_table a)

  -- Where the process of an existing CPU is not in the ready queue `xs`, the queue has fewer than
  -- PROCESS_COUNT processes, and all of them are processes of the table, `preempt` does not fail.
  -- It marks the process of the CPU ready, appends it to the queue, and only then has the
  -- algorithm choose from that queue what the CPU runs.
  pub preempt-Preempts :
      p ∉ xs
      → p < process_count
      → length xs < process_count
      → Returns (Preempts cpu_id p w xs) (preempt cpu_id w)
  unfolding preempt set_state
  preempt-Preempts out mine room = rw runs (
      Returns-bind (Pushed p (set_state p ready w.student) xs) (Preempts cpu_id p w xs) _ _
        (push_to_queue-append p (set_state p ready w.student) (set_state-Chain ready) out
          (omega arith))
        λ s _ pushed.
          Returns-mono (Schedules cpu_id (record w { student = s }) (xs ++ p ∷ []))
            (Preempts cpu_id p w xs) _
            (schedule-Schedules cpu_id (record w { student = s }) (xs ++ p ∷ []) pushed.0
              (omega (arith, length-append xs (p ∷ []))) (all_in_table mine) known)
            λ v scheduled. record {
              between = s;
              pushed = pushed;
              is_ready = ground (arith, pushed.1.others p);
              scheduled = scheduled;
            })

  -- With a ready queue `xs` of at most PROCESS_COUNT processes of the table, `yield` and
  -- `terminate` do not fail on an existing CPU with a process. They mark it waiting or terminated,
  -- do not queue it, and have the algorithm choose what the CPU runs.
  pub leave-Schedules :
      length xs ≤ process_count
      → Returns
          (Schedules cpu_id (record w { student = set_state p waiting w.student }) xs)
          (yield cpu_id w)
        × Returns
            (Schedules cpu_id (record w { student = set_state p terminated w.student }) xs)
            (terminate cpu_id w)
  unfolding yield terminate
  leave-Schedules room = rw runs (
    schedule-Schedules cpu_id (record w { student = set_state p waiting w.student }) xs
        (set_state-Chain waiting) room in_table known,
    schedule-Schedules cpu_id (record w { student = set_state p terminated w.student }) xs
        (set_state-Chain terminated) room in_table known,
  )
