-- ===== src/Sched/System/Create.antt =====
-- `simulate_creat` of os-sim.c: the next process of the table becomes ready.
use ece.Prelude.{
  ℕ, ◌+◌, ◌%◌, ◌<◌, ◌≡◌, inl, inr, refl, ap, none, List, arith, ◌==◌, ltb, ◌&&◌, Bool-cases,
  Returns, Returns-bind,
}
use ece.Sched.Types.{ready, Simulator, World, process_count}
use ece.Sched.Student.{set_state, wake_up}
use ece.Sched.WakeUp.{Wakes, wake_up-Wakes}
use ece.Sched.Simulator.{create_process, simulate_creat}
use ece.Sched.System.Sound.{IsServed, Sound}
use ece.Sched.System.Work.{io_cost}
use ece.Sched.System.Moves.{Moved}
use ece.Sched.System.Leave.{IsSound, queue_room, not_queued}
use ece.Sched.System.Wake.{new-tally, new-work_of, woken-Sound}

module _ {n : ℕ} {w : World} {xs : List ℕ} (h : Sound n none w xs) where
  -- The next process of the table becomes ready for the first time.
  created-Sound :
      (v : World)
      → w.simulator.processes_created < process_count
      → Wakes w.simulator.processes_created w xs v
      → IsSound n (record v {
        simulator = record (v.simulator) { processes_created = v.simulator.processes_created + 1 };
      })
  unfolding set_state
  created-Sound v few woken =
      let p = w.simulator.processes_created in
      let fresh = h.to_come p few (omega arith) in
      let u = record v {
        simulator = record (v.simulator) { processes_created = v.simulator.processes_created + 1 };
      } in
      let created : v.simulator.processes_created ≡ p =
        ap (λ (m : Simulator). m.processes_created) woken.simulator in
      let moved : Moved p ready (w.student.processes p).pc w u = record {
        states = λ a. ground (arith, woken.pushed.1.others a);
        pcs = λ a. ground (arith, woken.pushed.1.others a);
        current = woken.pushed.1.current;
        uncounted = woken.pushed.1.cpu_count;
        cpu_count = ap (λ (m : Simulator). m.cpu_count) woken.simulator;
        on_cpu = λ d. rw woken.simulator refl;
      } in
      let io : v.simulator.io_queue ≡ w.simulator.io_queue =
        ap (λ (m : Simulator). m.io_queue) woken.simulator in
      let ended : v.simulator.processes_terminated ≡ w.simulator.processes_terminated =
        ap (λ (m : Simulator). m.processes_terminated) woken.simulator in
      let count = new-tally p moved few fresh in
      let left = new-work_of p moved few fresh in
      let served : IsServed u.student u.simulator.io_queue = rw io (record {
        distinct = h.io.distinct;
        requested = λ a m. ground (arith, h.io.requested a m, moved.states a, fresh);
        complete = λ a q e. ground (arith, h.io.complete a q, moved.states a);
      }) in
      (
        _,
        woken-Sound p h few (λ e. cc (fresh, e)) moved (rw fresh at (h.programs p few))
            woken.pushed.0 served (omega (arith, created))
            (λ a q e. ground (arith, created, h.created a, moved.states a))
            (λ a q le. ground (arith, created, h.to_come a q, moved.states a))
            (omega (arith, ended, h.finished, count))
            (omega (arith, left, h.budget, ap io_cost io)),
      )

  pub simulate_creat-IsSound : Returns (IsSound n) (simulate_creat w)
  unfolding simulate_creat create_process
  simulate_creat-IsSound =
      elim (Bool-cases (
        (w.simulator.simulator_time % 10 == 0)
        && ltb w.simulator.processes_created process_count)) [
          | inr wait ↦ rw wait (xs, h)
          | inl due ↦
              let p = w.simulator.processes_created in
              let few : p < process_count = ground arith in
              rw due (
                Returns-bind (Wakes p w xs) (IsSound n) (wake_up p w) _
                  (wake_up-Wakes p w xs h.queue.chain
                    (not_queued p h λ e. cc (h.to_come p few (omega arith), e)) (queue_room h)
                    (inr h.uncounted))
                  λ v _ woken. created-Sound v few woken)
        ]
