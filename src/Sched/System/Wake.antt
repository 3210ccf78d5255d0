-- ===== src/Sched/System/Wake.antt =====
-- A process of os-sim.c that was not ready becomes ready.
use mathlib.Core.List.{tail}
use ece.Prelude.{ℕ, ◌+◌, ◌≤◌, ◌<◌, ◌≡◌, ◌≢◌, sym, ap, ◌∙◌, true, none, List, [], ◌∷◌, ◌++◌, arith}
use native.Mathlib.Decide.{ℕ_discrete}
use ece.Sched.Types.{ProcessState, ready, running, waiting, Op, World, process_count}
use ece.Sched.Queue.Chain.{Chain}
use ece.Sched.System.Sound.{goes_on, IsPlaced, IsServed, Sound}
use ece.Sched.System.Work.{cost, share, work_of, work, flag, tally}
use ece.Sched.System.Moves.{Moved, Moved-work_of, Moved-tally}
use ece.Sched.System.Leave.{queued_up}

-- What becoming ready does to the sums.
module _ {w v : World} {pc : List Op} (p : ℕ) (moved : Moved p ready pc w v)
    (below : p < process_count) where
  pub waiting-tally :
      (w.student.processes p).state ≡ waiting
      → tally v.student.processes ≡ tally w.student.processes
  waiting-tally waits = omega (arith, Moved-tally p moved below, ap flag waits)

  pub waiting-work_of :
      (w.student.processes p).state ≡ waiting
      → work_of v.student.processes + cost (tail ((w.student.processes p).pc))
        ≡ work_of w.student.processes + cost pc
  waiting-work_of waits = omega (
    arith,
    Moved-work_of p moved below,
    ap (λ (s : ProcessState). share s ((w.student.processes p).pc)) waits,
  )

  pub new-tally :
      (w.student.processes p).state ≡ ProcessState.new
      → tally v.student.processes ≡ tally w.student.processes
  new-tally fresh = omega (arith, Moved-tally p moved below, ap flag fresh)

  pub new-work_of :
      (w.student.processes p).state ≡ ProcessState.new
      → work_of v.student.processes + cost ((w.student.processes p).pc)
        ≡ work_of w.student.processes + cost pc
  new-work_of fresh = omega (
    arith,
    Moved-work_of p moved below,
    ap (λ (s : ProcessState). share s ((w.student.processes p).pc)) fresh,
  )

-- The process `p` was neither running nor ready, and is ready now, at `pc`.
module _ {n : ℕ} {w v : World} {xs : List ℕ} {pc : List Op} (p : ℕ) (h : Sound n none w xs)
    (below : p < process_count) (off : (w.student.processes p).state ≢ running)
    (moved : Moved p ready pc w v) where
  woken-IsPlaced : IsPlaced none v.student v.simulator
  woken-IsPlaced = record {
    runs = λ d a q ne e.
        let (in_table, runs, current) =
          h.cpus.runs d a (rw (← moved.cpu_count) q) ne (sym (moved.on_cpu d) ∙ e) in
        (in_table, ground (arith, moved.states a), rw moved.current current);
    once = λ d d' a q q' ne ne' e e'.
        h.cpus.once d d' a (rw (← moved.cpu_count) q) (rw (← moved.cpu_count) q') ne ne'
          (sym (moved.on_cpu d) ∙ e) (sym (moved.on_cpu d') ∙ e');
    placed = λ a q e.
        let (d, known, ne, at) = h.cpus.placed a q (ground (arith, moved.states a)) in
        (d, rw moved.cpu_count known, ne, moved.on_cpu d ∙ at);
  }

  pub woken-Sound :
      {m : ℕ}
      → goes_on true pc ≡ true
      → Chain v.student.processes v.student.head (xs ++ p ∷ [])
      → IsServed v.student v.simulator.io_queue
      → v.simulator.processes_created ≤ process_count
      → ((a : ℕ)
          → a < v.simulator.processes_created
          → (v.student.processes a).state ≢ ProcessState.new)
      → ((a : ℕ)
          → a < process_count
          → v.simulator.processes_created ≤ a
          → (v.student.processes a).state ≡ ProcessState.new)
      → v.simulator.processes_terminated ≡ tally v.student.processes
      → work v ≤ m
      → Sound m none v (xs ++ p ∷ [])
  woken-Sound fits chain io few_created created to_come finished budget = record {
    queue = queued_up p h moved below chain;
    cpus = woken-IsPlaced;
    io = io;
    programs = λ a q. elim (ℕ_discrete a p) [
      | yes same ↦
          let state_now : (v.student.processes a).state ≡ ready = ground (arith, moved.states a) in
          let pc_now : (v.student.processes a).pc ≡ pc = ground (arith, moved.pcs a) in
          rw (state_now, pc_now) fits
      | no other ↦
          let state_now : (v.student.processes a).state ≡ (w.student.processes a).state =
            ground (arith, moved.states a) in
          let pc_now : (v.student.processes a).pc ≡ (w.student.processes a).pc =
            ground (arith, moved.pcs a) in
          rw (state_now, pc_now) (h.programs a q)
    ];
    few_created = few_created;
    created = created;
    to_come = to_come;
    budget = budget;
    finished = finished;
    uncounted = moved.uncounted ∙ h.uncounted;
    some_cpu = rw moved.cpu_count h.some_cpu;
    unused = λ d q. moved.on_cpu d ∙ h.unused d (rw (← moved.cpu_count) q);
  }
