-- ===== src/Sched/WakeUp.antt =====
-- What `wake_up` of OS_Threaded_Scheduling/src/student.c does where no preemption is due.
use ece.Prelude.{
  false, ◌⊎◌, ℕ, ◌≤◌, ◌≡◌, refl, none, ◌==◌, arith, inl, inr, Returns, Returns-bind, List, ◌∉◌,
  length,
}
use ece.Sched.Types.{ProcessState, ready, Student, World, process_count}
use ece.Sched.Queue.Chain.{Chain, frame}
use ece.Sched.Queue.Push.{Pushed, push_to_queue-append}
use ece.Sched.Student.{choose_preempted, find_low, wake_up, set_state}

-- No CPU is preempted under another algorithm than LRTF, nor where `cpu_count` is 0.
no_preemption :
    (process : ℕ) (s : Student)
    → ((s.scheduling_alg == b'l') ≡ false) ⊎ (s.cpu_count ≡ 0)
    → choose_preempted process s ≡ none
unfolding choose_preempted find_low
no_preemption process s (inl other) = rw other refl
no_preemption process s (inr none_counted) = rw (none_counted, find_low) (ground arith)

-- The process `p`, ready, was appended to the queue `xs`, and nothing else happened.
pub record Wakes (p : ℕ) (w : World) (xs : List ℕ) (v : World) : Type 0 where
  pub pushed : Pushed p (set_state p ready w.student) xs v.student
  pub is_ready : (v.student.processes p).state ≡ ProcessState.ready
  pub simulator : v.simulator ≡ w.simulator

-- Under another algorithm than LRTF, or where `cpu_count` is 0 as `main` leaves it, `wake_up` does
-- not fail on a process that is not in the ready queue of at most PROCESS_COUNT processes. It marks
-- the process ready and appends it to the queue, and no CPU is disturbed.
pub wake_up-Wakes :
    (p : ℕ) (w : World) (xs : List ℕ)
    → Chain w.student.processes w.student.head xs
    → p ∉ xs
    → length xs ≤ process_count
    → ((w.student.scheduling_alg == b'l') ≡ false) ⊎ (w.student.cpu_count ≡ 0)
    → Returns (Wakes p w xs) (wake_up p w)
unfolding wake_up set_state
wake_up-Wakes p w xs c out room calm =
    Returns-bind (Pushed p (set_state p ready w.student) xs) (Wakes p w xs) _ _
      (push_to_queue-append p (set_state p ready w.student) (frame c λ a i. ground arith) out room)
      λ s _ pushed.
        let calm' : ((s.scheduling_alg == b'l') ≡ false) ⊎ (s.cpu_count ≡ 0) =
          rw (pushed.1.scheduling_alg, pushed.1.cpu_count) calm in
        rw (no_preemption p s calm') (record {
          pushed = pushed;
          is_ready = ground (arith, pushed.1.others p);
          simulator = refl;
        })
