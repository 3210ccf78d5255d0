-- ===== src/Sched/System/Moves.antt =====
-- A process of the simulation (os-sim.c and student.c) changes its state or its program counter.
use ece.Prelude.{
  ℕ, ◌+◌, ◌≤◌, ◌<◌, ◌≡◌, ◌≢◌, inl, inr, refl, sym, ap, ◌∙◌, true, Option, none, some, List, [], ◌∷◌,
  ◌++◌, arith, ◌==◌, if◌then◌else◌, Bool-cases, some-eq-some,
}
use native.Mathlib.Decide.{ℕ_discrete}
use ece.Sched.Types.{ProcessState, ready, running, waiting, Op, IoRequest, World, process_count}
use ece.Sched.Queue.Chain.{Chain}
use ece.Sched.System.Work.{
  cost, share, work_of, work, flag, tally, work_of-moved, tally-moved, tally-same,
}
use ece.Sched.System.Sound.{fits_state, requesters, IsQueue, IsPlaced, IsServed, Sound}

-- Process `p` is in `state` at `pc`; nothing else of the processes, and no CPU, has changed.
pub record Moved (p : ℕ) (state : ProcessState) (pc : List Op) (w v : World) : Type 0 where
  pub states :
      (a : ℕ)
      → (v.student.processes a).state ≡ (if a == p then state else (w.student.processes a).state)
  pub pcs :
      (a : ℕ) → (v.student.processes a).pc ≡ (if a == p then pc else (w.student.processes a).pc)
  pub current : v.student.current ≡ w.student.current
  pub uncounted : v.student.cpu_count ≡ w.student.cpu_count
  pub cpu_count : v.simulator.cpu_count ≡ w.simulator.cpu_count
  pub on_cpu : (c : ℕ) → (v.simulator.cpu_data c).current ≡ (w.simulator.cpu_data c).current

module _ {w v : World} {state : ProcessState} {pc : List Op} (p : ℕ) (moved : Moved p state pc w v)
    (below : p < process_count) where
  state_of : (a : ℕ) → a ≢ p → (v.student.processes a).state ≡ (w.student.processes a).state
  state_of a ne = ground (arith, moved.states a)

  pc_of : (a : ℕ) → a ≢ p → (v.student.processes a).pc ≡ (w.student.processes a).pc
  pc_of a ne = ground (arith, moved.pcs a)

  pub state_at : (v.student.processes p).state ≡ state
  state_at = ground (arith, moved.states p)

  pub pc_at : (v.student.processes p).pc ≡ pc
  pc_at = ground (arith, moved.pcs p)

  -- Only the part of `p` in what is left to do changes.
  pub Moved-work_of :
      work_of v.student.processes + share (w.student.processes p).state (w.student.processes p).pc
      ≡ work_of w.student.processes + share state pc
  Moved-work_of =
      rw (state_at, pc_at) at
        (work_of-moved w.student.processes v.student.processes p below
          λ a ne. rw (state_of a ne, pc_of a ne) refl)

  pub running-work_of :
      (w.student.processes p).state ≡ running
      → work_of v.student.processes + cost ((w.student.processes p).pc)
        ≡ work_of w.student.processes + share state pc
  running-work_of runs =
      omega
        (arith, Moved-work_of, ap (λ (s : ProcessState). share s ((w.student.processes p).pc)) runs)

  pub Moved-tally :
      tally v.student.processes + flag (w.student.processes p).state
      ≡ tally w.student.processes + flag state
  Moved-tally =
      rw state_at at (
        tally-moved w.student.processes v.student.processes p below λ a ne. rw (state_of a ne) refl)

pub requesters-append :
    (io : List IoRequest) (r : IoRequest) → requesters (io ++ r ∷ []) ≡ requesters io ++ r.pcb ∷ []
requesters-append [] r = refl
requesters-append (x ∷ io) r = ap (λ (l : List ℕ). x.pcb ∷ l) (requesters-append io r)

module _ {n : ℕ} {skip : Option ℕ} {w v : World} {xs : List ℕ} (p : ℕ) (pc : List Op)
    (h : Sound n skip w xs) (moved : Moved p (w.student.processes p).state pc w v) where
  same_state : (a : ℕ) → (v.student.processes a).state ≡ (w.student.processes a).state
  same_state a = elim (Bool-cases (a == p)) [
    | inl same ↦ ground (arith, moved.states a)
    | inr other ↦ ground (arith, moved.states a)
  ]

  -- A program counter moves on within the state of its process.
  pub tick :
      {m : ℕ}
      → Chain v.student.processes v.student.head xs
      → (p < process_count → fits_state (w.student.processes p).state pc ≡ true)
      → requesters v.simulator.io_queue ≡ requesters w.simulator.io_queue
      → v.simulator.processes_created ≡ w.simulator.processes_created
      → v.simulator.processes_terminated ≡ w.simulator.processes_terminated
      → work v ≤ m
      → Sound m skip v xs
  tick c fits same_io same_created same_terminated budget = record {
    queue = record {
      chain = c;
      queued = λ a m. rw (same_state a) (h.queue.queued a m);
      complete = λ a q e. h.queue.complete a q (sym (same_state a) ∙ e);
    };
    cpus = record {
      runs = λ d a q ne e.
          rw (same_state a, moved.current)
            (h.cpus.runs d a (rw (← moved.cpu_count) q) ne (sym (moved.on_cpu d) ∙ e));
      once = λ d d' a q q' ne ne' e e'.
          h.cpus.once d d' a (rw (← moved.cpu_count) q) (rw (← moved.cpu_count) q') ne ne'
            (sym (moved.on_cpu d) ∙ e) (sym (moved.on_cpu d') ∙ e');
      placed = λ a q e.
          let (d, below, ne, at) = h.cpus.placed a q (sym (same_state a) ∙ e) in
          (d, rw moved.cpu_count below, ne, moved.on_cpu d ∙ at);
    };
    io = record {
      distinct = rw same_io h.io.distinct;
      requested = λ a m. rw (same_state a) (h.io.requested a (rw same_io at m));
      complete = λ a q e. rw same_io (h.io.complete a q (sym (same_state a) ∙ e));
    };
    programs = λ a q. elim (Bool-cases (a == p)) [
      | inl same ↦
          let eq : a ≡ p = ground arith in
          let pc_now : (v.student.processes a).pc ≡ pc = ground (arith, moved.pcs a) in
          rw (same_state a, pc_now, eq) (fits (rw (← eq) q))
      | inr other ↦ ground (arith, h.programs a q, moved.pcs a, same_state a)
    ];
    few_created = rw same_created h.few_created;
    created = λ a q e. h.created a (rw same_created at q) (sym (same_state a) ∙ e);
    to_come = λ a q below. same_state a ∙ h.to_come a q (rw same_created at below);
    uncounted = moved.uncounted ∙ h.uncounted;
    budget = budget;
    finished =
        same_terminated
        ∙ h.finished
        ∙ sym (tally-same w.student.processes v.student.processes λ a q. rw (same_state a) refl);
    some_cpu = rw moved.cpu_count h.some_cpu;
    unused = λ d q. moved.on_cpu d ∙ h.unused d (rw (← moved.cpu_count) q);
  }

-- The process `p` of the CPU `c` leaves it, and is in `state` at `pc`.
module _ {n c p : ℕ} {w v : World} {xs : List ℕ} {state : ProcessState} {pc : List Op}
    (h : Sound n none w xs) (known : c < w.simulator.cpu_count)
    (at : (w.simulator.cpu_data c).current ≡ some p) (moved : Moved p state pc w v)
    (fits : fits_state state pc ≡ true)
    (same_created : v.simulator.processes_created ≡ w.simulator.processes_created) where
  was :
      (p < process_count)
      × ((w.student.processes p).state ≡ running)
      × (w.student.current c ≡ some p)
  was = h.cpus.runs c p known (λ e. cc) at

  left-IsPlaced : state ≢ running → IsPlaced (some c) v.student v.simulator
  left-IsPlaced stops = record {
    runs = λ d a q ne e.
        let q' : d < w.simulator.cpu_count = rw (← moved.cpu_count) q in
        let e' : (w.simulator.cpu_data d).current ≡ some a = sym (moved.on_cpu d) ∙ e in
        let (below, runs, current) = h.cpus.runs d a q' (λ x. cc) e' in
        elim (ℕ_discrete a p) [
          | yes same ↦
              let same_cpu = h.cpus.once c d p known q' (λ x. cc) (λ x. cc) at (rw same at e') in
              absurd (ne (ap (λ (n : ℕ). some n) same_cpu))
          | no other ↦ (below, ground (arith, moved.states a), rw moved.current current)
        ];
    once = λ d d' a q q' ne ne' e e'.
        h.cpus.once d d' a (rw (← moved.cpu_count) q) (rw (← moved.cpu_count) q') (λ x. cc)
          (λ x. cc) (sym (moved.on_cpu d) ∙ e) (sym (moved.on_cpu d') ∙ e');
    placed = λ a q e. elim (ℕ_discrete a p) [
      | yes same ↦ absurd (stops (ground (arith, moved.states a)))
      | no other ↦
          let (d, below, _, at_d) = h.cpus.placed a q (ground (arith, moved.states a)) in
          (
            d,
            rw moved.cpu_count below,
            (λ x. other (some-eq-some (sym at_d ∙ rw (some-eq-some x) at at))),
            moved.on_cpu d ∙ at_d,
          )
    ];
  }

  pub left-Sound :
      {m : ℕ} {ys : List ℕ}
      → state ≢ running
      → state ≢ ProcessState.new
      → IsQueue v.student ys
      → IsServed v.student v.simulator.io_queue
      → v.simulator.processes_terminated ≡ tally v.student.processes
      → work v ≤ m
      → Sound m (some c) v ys
  left-Sound stops old queue io finished budget = record {
    queue = queue;
    cpus = left-IsPlaced stops;
    io = io;
    programs = λ a q. elim (ℕ_discrete a p) [
      | yes same ↦
          let state_now : (v.student.processes a).state ≡ state = ground (arith, moved.states a) in
          let pc_now : (v.student.processes a).pc ≡ pc = ground (arith, moved.pcs a) in
          rw (state_now, pc_now) fits
      | no other ↦
          let state_now : (v.student.processes a).state ≡ (w.student.processes a).state =
            ground (arith, moved.states a) in
          let pc_now : (v.student.processes a).pc ≡ (w.student.processes a).pc =
            ground (arith, moved.pcs a) in
          rw (state_now, pc_now) (h.programs a q)
    ];
    few_created = rw same_created h.few_created;
    created = λ a q e. ground (arith, same_created, h.created a, moved.states a);
    to_come = λ a q below. ground (arith, same_created, h.to_come a q, moved.states a, was);
    uncounted = moved.uncounted ∙ h.uncounted;
    budget = budget;
    finished = finished;
    some_cpu = rw moved.cpu_count h.some_cpu;
    unused = λ d q. moved.on_cpu d ∙ h.unused d (rw (← moved.cpu_count) q);
  }

  -- The queue does not change for a process that does not become ready.
  pub unqueued : state ≢ ready → Chain v.student.processes v.student.head xs → IsQueue v.student xs
  unqueued busy chain = record {
    chain = chain;
    queued = λ a m. ground (arith, h.queue.queued a m, moved.states a, was);
    complete = λ a q e. ground (arith, h.queue.complete a q, moved.states a);
  }

  pub unserved :
      state ≢ waiting
      → requesters v.simulator.io_queue ≡ requesters w.simulator.io_queue
      → IsServed v.student v.simulator.io_queue
  unserved busy same_io = record {
    distinct = rw same_io h.io.distinct;
    requested = λ a m. ground (arith, h.io.requested a (rw same_io at m), moved.states a, was);
    complete = λ a q e. rw same_io (ground (arith, h.io.complete a q, moved.states a));
  }
