-- ===== src/Sched/System/Leave.antt =====
-- `preempt`, `yield` and `terminate` of student.c keep the simulation of os-sim.c sound.
use ece.Prelude.{
  ℕ, ◌+◌, ◌%◌, ◌≤◌, ◌<◌, ◌≡◌, ◌≢◌, inl, inr, refl, ap, true, Option, none, some, List, [], ◌∷◌,
  ◌++◌, ◌∉◌, arith, has, length, Bool-cases, Distinct-append, Distinct-length-le, has-append,
  Returns, Returns-mono,
}
use ece.Sched.Types.{ProcessState, ready, waiting, terminated, Op, Student, World, process_count}
use ece.Sched.Queue.Chain.{Chain, frame}
use ece.Sched.Student.{set_state, preempt, yield, terminate}
use ece.Sched.Handlers.{Schedules, Preempts, preempt-Preempts, leave-Schedules}
use ece.Sched.System.Sound.{at_request, fits_state, requesters, IsQueue, IsServed, Sound}
use ece.Sched.System.Fill.{Chain-Distinct, Schedules-Sound}
use ece.Sched.System.Work.{work_of, io_cost, work, tally, tally-le}
use ece.Sched.System.Moves.{Moved, Moved-work_of, Moved-tally, tick, left-Sound, unqueued, unserved}

-- Some list is the ready queue of a sound simulation, with no more than `n` left to do.
abbrev pub IsSound : ℕ → World → Type 0
IsSound n w = (xs : List ℕ) × Sound n none w xs

-- A larger bound on what is left serves too.
pub relax : {n m : ℕ} {w : World} {xs : List ℕ} → n ≤ m → Sound n none w xs → Sound m none w xs
relax le h = record {
  queue = h.queue;
  cpus = h.cpus;
  io = h.io;
  programs = h.programs;
  few_created = h.few_created;
  created = h.created;
  to_come = h.to_come;
  uncounted = h.uncounted;
  budget = omega (arith, le, h.budget);
  finished = h.finished;
  some_cpu = h.some_cpu;
  unused = h.unused;
}

-- Less than `n` is left to do.
abbrev pub IsLess : ℕ → World → Type 0
IsLess n w = (m : ℕ) × (m < n) × IsSound m w

pub queue_room :
    {n : ℕ} {skip : Option ℕ} {w : World} {xs : List ℕ}
    → Sound n skip w xs
    → length xs ≤ process_count
queue_room {xs = xs} h =
    Distinct-length-le process_count xs (Chain-Distinct h.queue.chain) λ a m. (h.queue.queued a m).0

-- A process that is not ready is not in the queue.
pub not_queued :
    {n : ℕ} {skip : Option ℕ} {w : World} {xs : List ℕ} (p : ℕ)
    → Sound n skip w xs
    → (w.student.processes p).state ≢ ready
    → p ∉ xs
not_queued {xs = xs} p h ne = elim (Bool-cases (has p xs)) [
  | inl m ↦ absurd (ne (h.queue.queued p m).1)
  | inr out ↦ out
]

pub room_for :
    {n : ℕ} {skip : Option ℕ} {w : World} {xs : List ℕ} (p : ℕ)
    → Sound n skip w xs
    → p ∉ xs
    → p < process_count
    → length xs < process_count
room_for {xs = xs} p h out below =
    Distinct-length-le process_count (p ∷ xs) (out, Chain-Distinct h.queue.chain)
      λ a m. ground (arith, h.queue.queued a)

-- The process `p` becomes ready at the end of the queue.
pub queued_up :
    {n : ℕ} {skip : Option ℕ} {w v : World} {xs : List ℕ} {pc : List Op} (p : ℕ)
    → Sound n skip w xs
    → Moved p ready pc w v
    → p < process_count
    → Chain v.student.processes v.student.head (xs ++ p ∷ [])
    → IsQueue v.student (xs ++ p ∷ [])
queued_up {xs = xs} p h moved below chain = record {
  chain = chain;
  queued = λ a m. ground (arith, has-append a xs (p ∷ []), h.queue.queued a, moved.states a);
  complete =
      λ a q e. ground (arith, has-append a xs (p ∷ []), h.queue.complete a q, moved.states a);
}

module _ {n c p : ℕ} {w : World} {xs : List ℕ} (h : Sound n none w xs)
    (known : c < w.simulator.cpu_count) (at : (w.simulator.cpu_data c).current ≡ some p) where
  preempted : (v : World) → Preempts c p w xs v → IsSound n v
  unfolding set_state
  preempted v r =
      let (below, runs, _) = h.cpus.runs c p known (λ x. cc) at in
      let between = record w { student = r.between } in
      let moved : Moved p ready (w.student.processes p).pc w between = record {
        states = λ a. ground (arith, r.pushed.1.others a);
        pcs = λ a. ground (arith, r.pushed.1.others a);
        current = r.pushed.1.current;
        uncounted = r.pushed.1.cpu_count;
        cpu_count = refl;
        on_cpu = λ d. refl;
      } in
      let fits : fits_state ready (w.student.processes p).pc ≡ true =
        rw runs at (h.programs p below) in
      let queue = queued_up p h moved below r.pushed.0 in
      let io = unserved h known at moved fits refl (λ e. cc) refl in
      let count = Moved-tally p moved below in
      let left = Moved-work_of p moved below in
      let finished : w.simulator.processes_terminated ≡ tally r.between.processes =
        omega (arith, h.finished, rw runs at count) in
      let budget : work between ≤ n = omega (arith, h.budget, rw runs at left) in
      (
        _,
        Schedules-Sound known
            (left-Sound h known at moved fits refl (λ e. cc) (λ e. cc) queue io finished budget)
            r.scheduled,
      )

  pub preempt-IsSound : Returns (IsSound n) (preempt c w)
  preempt-IsSound =
      let (below, runs, current) = h.cpus.runs c p known (λ x. cc) at in
      let out = not_queued p h (λ e. cc (runs, e)) in
      Returns-mono (Preempts c p w xs) (IsSound n) (preempt c w)
        (preempt-Preempts c p w xs current h.queue.chain (λ a m. (h.queue.queued a m).0) known out
          below (room_for p h out below))
        preempted

-- `w` with process `p` in another state.
abbrev pub in_state : ℕ → ProcessState → World → World
in_state p state w = record w { student = set_state p state w.student }

-- The handler runs in the world `v`, where the simulator has moved the process on.
module _ {n c p : ℕ} {w : World} (v : World) {xs : List ℕ} (h : Sound n none w xs)
    (known : c < w.simulator.cpu_count) (at : (w.simulator.cpu_data c).current ≡ some p)
    (chain : Chain v.student.processes v.student.head xs)
    (same_created : v.simulator.processes_created ≡ w.simulator.processes_created) where
  stays_linked :
      (state : ProcessState)
      → Chain (in_state p state v).student.processes (in_state p state v).student.head xs
  unfolding set_state
  stays_linked state = frame chain λ a i. ground arith

  module _ {state : ProcessState} {pc : List Op}
      (moved : Moved p state pc w (in_state p state v)) where
    runs_there : v.student.current c ≡ some p
    unfolding set_state
    runs_there = ground (arith, moved.current, (h.cpus.runs c p known (λ e. cc) at).2)

    known_there : c < v.simulator.cpu_count
    known_there = rw moved.cpu_count known

    left :
        Returns (Schedules c (in_state p waiting v) xs) (yield c v)
        × Returns (Schedules c (in_state p terminated v) xs) (terminate c v)
    left =
        leave-Schedules c p v xs runs_there chain (λ a m. (h.queue.queued a m).0) known_there
          (queue_room h)

  pub yield-IsSound :
      {m : ℕ} {pc : List Op}
      → Moved p waiting pc w (in_state p waiting v)
      → at_request pc ≡ true
      → requesters v.simulator.io_queue ≡ requesters w.simulator.io_queue ++ p ∷ []
      → v.simulator.processes_terminated ≡ w.simulator.processes_terminated
      → work (in_state p waiting v) ≤ m
      → Returns (IsSound m) (yield c v)
  yield-IsSound {m} moved fits io same_terminated budget =
      let (below, runs, _) = h.cpus.runs c p known (λ e. cc) at in
      let out : p ∉ requesters w.simulator.io_queue =
        elim (Bool-cases (has p (requesters w.simulator.io_queue))) [
          | inl m ↦ absurd (cc (runs, (h.io.requested p m).1))
          | inr out ↦ out
        ] in
      let served : IsServed (in_state p waiting v).student v.simulator.io_queue = record {
        distinct = rw io (Distinct-append (requesters w.simulator.io_queue) p h.io.distinct out);
        requested = λ a m. ground (
          arith,
          io,
          has-append a (requesters w.simulator.io_queue) (p ∷ []),
          h.io.requested a,
          moved.states a,
        );
        complete = λ a q e. rw io (
            ground (
              arith,
              has-append a (requesters w.simulator.io_queue) (p ∷ []),
              h.io.complete a q,
              moved.states a,
            ));
      } in
      Returns-mono (Schedules c (in_state p waiting v) xs) (IsSound m) (yield c v) (left moved).0
        λ u r. (
          _,
          Schedules-Sound (known_there moved)
              (left-Sound h known at moved fits same_created (λ e. cc) (λ e. cc)
                (unqueued h known at moved fits same_created (λ e. cc) (stays_linked waiting))
                served
                (omega (arith, same_terminated, h.finished, rw runs at (Moved-tally p moved below)))
                budget)
              r,
        )

  pub terminate-IsSound :
      {m : ℕ} {pc : List Op}
      → Moved p terminated pc w (in_state p terminated v)
      → requesters v.simulator.io_queue ≡ requesters w.simulator.io_queue
      → v.simulator.processes_terminated ≡ (w.simulator.processes_terminated + 1) % 0x1_0000_0000
      → work (in_state p terminated v) ≤ m
      → Returns (IsSound m) (terminate c v)
  terminate-IsSound {m} moved io one_more budget =
      let (below, runs, _) = h.cpus.runs c p known (λ e. cc) at in
      let bound = tally-le (in_state p terminated v).student.processes in
      Returns-mono (Schedules c (in_state p terminated v) xs) (IsSound m) (terminate c v)
        (left moved).1
        λ u r. (
          _,
          Schedules-Sound (known_there moved)
              (left-Sound h known at moved refl same_created (λ e. cc) (λ e. cc)
                (unqueued h known at moved refl same_created (λ e. cc) (stays_linked terminated))
                (unserved h known at moved refl same_created (λ e. cc) io)
                (omega (arith, one_more, h.finished, rw runs at (Moved-tally p moved below), bound))
                budget)
              r,
        )

-- The state that a CPU thread shows does not matter.
pub quiet :
    {n : ℕ} {w v : World} {xs : List ℕ}
    → Sound n none w xs
    → v.student ≡ w.student
    → v.simulator.cpu_count ≡ w.simulator.cpu_count
    → ((c : ℕ) → (v.simulator.cpu_data c).current ≡ (w.simulator.cpu_data c).current)
    → v.simulator.io_queue ≡ w.simulator.io_queue
    → v.simulator.processes_created ≡ w.simulator.processes_created
    → v.simulator.processes_terminated ≡ w.simulator.processes_terminated
    → Sound n none v xs
quiet {w = w} {v = v} h student count on_cpu io created ended =
    let moved : Moved 0 (w.student.processes 0).state (w.student.processes 0).pc w v = record {
      states = λ a. ground (arith, student);
      pcs = λ a. ground (arith, student);
      current = ap (λ (s : Student). s.current) student;
      uncounted = ap (λ (s : Student). s.cpu_count) student;
      cpu_count = count;
      on_cpu = on_cpu;
    } in
    tick 0 (w.student.processes 0).pc h moved (rw student h.queue.chain) (λ q. h.programs 0 q)
      (ap requesters io) created ended
      (omega (arith, h.budget, ap (λ (s : Student). work_of s.processes) student, ap io_cost io))
