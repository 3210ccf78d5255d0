-- ===== src/Sched/System/Io.antt =====
-- `simulate_io` of os-sim.c: the requests are served in turn, and their processes woken.
use mathlib.Core.List.{tail}
use ece.Prelude.{
  ◌-◌, ℕ, ◌+◌, ◌%◌, ◌<◌, ◌≡◌, ◌≢◌, inl, inr, refl, ap, true, none, List, [], ◌∷◌, ◌∈◌, arith, ◌==◌,
  Bool-cases, Returns, Returns-mono,
}
use ece.Sched.Types.{ready, Op, IoRequest, Simulator, World}
use ece.Sched.Queue.Chain.{frame}
use ece.Sched.Student.{set_state, wake_up}
use ece.Sched.WakeUp.{Wakes, wake_up-Wakes}
use ece.Sched.Simulator.{u32_mod, set_pc, simulate_io}
use ece.Sched.System.Sound.{goes_on, at_request, requesters, IsServed, Sound}
use ece.Sched.System.Work.{cost, io_cost, work}
use ece.Sched.System.Moves.{Moved, tick}
use ece.Sched.System.Leave.{IsLess, queue_room, not_queued}
use ece.Sched.System.Wake.{waiting-tally, waiting-work_of, woken-Sound}

-- The request of `p` is served: it goes on with what follows its request.
module _ {n : ℕ} {w : World} {xs : List ℕ} (h : Sound n none w xs) where
  served-Sound :
      (p time execution_time : ℕ) (queue : List IoRequest) (pc : List Op) (v : World)
      → w.simulator.io_queue ≡ record { pcb = p; execution_time = execution_time } ∷ queue
      → goes_on true pc ≡ true
      → tail ((w.student.processes p).pc) ≡ pc
      → Wakes p
          (set_pc p pc time (record w { simulator = record (w.simulator) { io_queue = queue } }))
          xs
          v
      → IsLess n v
  unfolding set_state
  served-Sound p time execution_time queue pc v at fits rest woken =
      let (below, waits) = h.io.requested p (rw at (ground arith)) in
      let moved : Moved p ready pc w v = record {
        states = λ a. ground (arith, woken.pushed.1.others a);
        pcs = λ a. ground (arith, woken.pushed.1.others a);
        current = woken.pushed.1.current;
        uncounted = woken.pushed.1.cpu_count;
        cpu_count = ap (λ (m : Simulator). m.cpu_count) woken.simulator;
        on_cpu = λ d. rw woken.simulator refl;
      } in
      let created : v.simulator.processes_created ≡ w.simulator.processes_created =
        ap (λ (m : Simulator). m.processes_created) woken.simulator in
      let io : v.simulator.io_queue ≡ queue = ap (λ (m : Simulator). m.io_queue) woken.simulator in
      let distinct = h.io.distinct in
      let served : IsServed v.student v.simulator.io_queue = record {
        distinct = rw io ((rw at at distinct).1);
        requested = λ a m.
            let m' : a ∈ requesters queue = rw io at m in
            let old = h.io.requested a (rw at (ground arith)) in
            ground (arith, (rw at at distinct).0, moved.states a);
        complete = λ a q e.
            let ne : a ≢ p = λ same. ground (arith, moved.states a) in
            let old = h.io.complete a q (ground (arith, moved.states a)) in
            rw io (ground (arith, rw at at old));
      } in
      let ended : v.simulator.processes_terminated ≡ w.simulator.processes_terminated =
        ap (λ (m : Simulator). m.processes_terminated) woken.simulator in
      let count = waiting-tally p moved below waits in
      let left = waiting-work_of p moved below waits in
      let done : io_cost v.simulator.io_queue + 1 + execution_time ≡ io_cost w.simulator.io_queue =
        omega (arith, ap io_cost at, ap io_cost io) in
      let less : work v < work w = omega (arith, left, ap cost rest, done) in
      (
        n - 1,
        omega (arith, less, h.budget),
        (
          _,
          woken-Sound p h below (λ e. cc (waits, e)) moved fits woken.pushed.0 served
              (rw created h.few_created)
              (λ a q e. ground (arith, created, h.created a, moved.states a))
              (λ a q le. ground (arith, created, h.to_come a q, moved.states a, waits))
              (omega (arith, ended, h.finished, count)) (omega (arith, less, h.budget)),
        ),
      )

  -- A request that is not served yet loses a tick.
  waited-IsLess :
      (r : IoRequest) (queue : List IoRequest)
      → w.simulator.io_queue ≡ r ∷ queue
      → 0 < r.execution_time
      → IsLess n (record w {
        simulator = record (w.simulator) {
          io_queue = record r { execution_time = r.execution_time - 1 } ∷ queue;
        };
      })
  waited-IsLess r queue at more =
      let moved : Moved 0 (w.student.processes 0).state (w.student.processes 0).pc w (record w {
        simulator = record (w.simulator) {
          io_queue = record r { execution_time = r.execution_time - 1 } ∷ queue;
        };
      }) =
        record {
          states = λ a. ground arith;
          pcs = λ a. ground arith;
          current = refl;
          uncounted = refl;
          cpu_count = refl;
          on_cpu = λ d. refl;
        } in
      (
        n - 1,
        omega (arith, more, ap io_cost at, h.budget),
        (
          xs,
          tick 0 (w.student.processes 0).pc h moved h.queue.chain (h.programs 0) (rw at refl) refl
              refl (omega (arith, more, ap io_cost at, h.budget)),
        ),
      )

  served-IsLess :
      (p execution_time : ℕ) (queue : List IoRequest) (pc : List Op) (time : ℕ)
      → w.simulator.io_queue ≡ record { pcb = p; execution_time = execution_time } ∷ queue
      → goes_on true pc ≡ true
      → tail ((w.student.processes p).pc) ≡ pc
      → Returns (IsLess n) (
          wake_up p
            (set_pc p pc time (record w { simulator = record (w.simulator) { io_queue = queue } })))
  served-IsLess p execution_time queue pc time at fits rest =
      let (below, waits) = h.io.requested p (rw at (ground arith)) in
      let v =
        set_pc p pc time (record w { simulator = record (w.simulator) { io_queue = queue } }) in
      Returns-mono (Wakes p v xs) (IsLess n) (wake_up p v)
        (wake_up-Wakes p v xs (frame h.queue.chain λ a i. ground arith)
          (not_queued p h λ e. cc (waits, e)) (queue_room h) (inr h.uncounted))
        λ u woken. served-Sound p time execution_time queue pc u at fits rest woken

  -- The I/O queue has a request `r` at its head.
  pub simulate_io-IsLess :
      (r : IoRequest) (queue : List IoRequest)
      → w.simulator.io_queue ≡ r ∷ queue
      → Returns (IsLess n) (simulate_io (r ∷ queue) w)
  unfolding simulate_io
  simulate_io-IsLess r queue at = elim (Bool-cases (r.execution_time == 0)) [
    | inr more ↦ rw more (waited-IsLess r queue at (ground arith))
    | inl done ↦
        let (below, waits) = h.io.requested r.pcb (rw at (ground arith)) in
        let fits : at_request ((w.student.processes r.pcb).pc) ≡ true =
          rw waits at (h.programs r.pcb below) in
        rw done (go ((w.student.processes r.pcb).pc) refl fits)
  ]
    where
      go :
          (pc : List Op)
          → (w.student.processes r.pcb).pc ≡ pc
          → at_request pc ≡ true
          → Returns (IsLess n) (elim pc [
            | [] ↦ none
            | done ∷ [] ↦ none
            | done ∷ (op ∷ rest) ↦ wake_up r.pcb (
                set_pc r.pcb
                  (op ∷ rest)
                  ((op.time + 1) % u32_mod)
                  (record w { simulator = record (w.simulator) { io_queue = queue } }))
          ])
      go [] same fits = cc
      go (done ∷ []) same fits = ground arith
      go (done ∷ (op ∷ rest)) same fits =
          served-IsLess r.pcb r.execution_time queue (op ∷ rest) _ at (ground arith) (ap tail same)
