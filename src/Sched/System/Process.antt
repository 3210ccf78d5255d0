-- ===== src/Sched/System/Process.antt =====
-- `simulate_process` of os-sim.c keeps the simulation sound, and does not read past a program.
use ece.Prelude.{
  ap, ℕ, ◌+◌, ◌-◌, ◌%◌, ◌<◌, ◌≤◌, ◌≡◌, ◌⊎◌, inl, inr, refl, ◌∙◌, true, false, Option, none, some,
  List, [], ◌∷◌, arith, ltb, update, Bool-cases, Returns, Returns-bind, Returns-mono, pos, eqb_ℤ,
  pred_ℤ,
}
use ece.Sched.Types.{
  ProcessState, waiting, terminated, running, IoRequest, process_count, OpType, Op, CpuState, World,
}
use ece.Sched.Queue.Chain.{frame}
use ece.Sched.Student.{set_state, preempt, yield, set_cpu_state, settle}
use ece.Sched.Simulator.{
  u32_mod, set_pc, deliver, submit_io_request, simulate_burst, terminate_counted, next_operation,
  simulate_operation, simulate_process,
}
use ece.Sched.System.Sound.{goes_on, at_request, Sound}
use ece.Sched.System.Work.{cost, share, io_cost-append, work}
use ece.Sched.System.Moves.{Moved, running-work_of, tick, requesters-append}
use ece.Sched.System.Leave.{
  IsLess, in_state, IsSound, preempt-IsSound, yield-IsSound, terminate-IsSound, quiet,
}

cost-positive : (pc : List Op) → goes_on true pc ≡ true → 0 < cost pc
cost-positive [] fits = cc
cost-positive (op ∷ rest) fits = omega arith

kinds : (k : OpType) → (k ≡ OpType.cpu) ⊎ ((k ≡ OpType.io) ⊎ (k ≡ OpType.terminate))
kinds OpType.cpu = inl refl
kinds OpType.io = inr (inl refl)
kinds OpType.terminate = inr (inr refl)

pub set_cpu_state-Sound :
    {n : ℕ} {w : World} {xs : List ℕ} (c : ℕ) (state : CpuState)
    → Sound n none w xs
    → Sound n none (set_cpu_state c state w) xs
unfolding set_cpu_state
set_cpu_state-Sound c state h = quiet h refl refl (λ d. ground arith) refl refl refl

pub settle-IsSound : {n : ℕ} (c : ℕ) (w : World) → IsSound n w → IsSound n (settle c w)
unfolding settle
settle-IsSound c w (xs, h) = (xs, set_cpu_state-Sound c _ h)

-- The loop of the CPU thread comes round after the handler.
deliver-IsSound :
    (n : ℕ) (state : CpuState) (handler : ℕ → World → Option World) (c : ℕ) (w : World)
    → Returns (IsSound n) (handler c (set_cpu_state c state w))
    → Returns (IsSound n) (deliver state handler c w)
unfolding deliver
deliver-IsSound n state handler c w r =
    Returns-bind (IsSound n) (IsSound n) (handler c (set_cpu_state c state w)) _ r
      λ v _ sound. settle-IsSound c v sound

shown_current :
    (c d : ℕ) (state : CpuState) (w : World)
    → ((set_cpu_state c state w).simulator.cpu_data d).current ≡ (w.simulator.cpu_data d).current
unfolding set_cpu_state
shown_current c d state w = ground arith

-- The timer has expired.
pub deliver-preempt :
    {n c p : ℕ} {w : World} {xs : List ℕ}
    → Sound n none w xs
    → c < w.simulator.cpu_count
    → (w.simulator.cpu_data c).current ≡ some p
    → Returns (IsSound n) (deliver CpuState.preempt preempt c w)
deliver-preempt {n} {c} {p} {w} h known at =
    let same : (set_cpu_state c CpuState.preempt w).simulator.cpu_count ≡ w.simulator.cpu_count =
      unfold set_cpu_state in refl in
    deliver-IsSound n CpuState.preempt preempt c w (
      preempt-IsSound {p = p} (set_cpu_state-Sound c CpuState.preempt h) (rw same known)
        (shown_current c c CpuState.preempt w ∙ at))

-- The CPU `c` runs the process `p`.
module _ {n c p : ℕ} {w : World} {xs : List ℕ} (h : Sound n none w xs)
    (known : c < w.simulator.cpu_count) (at : (w.simulator.cpu_data c).current ≡ some p) where
  is_running : (p < process_count) × ((w.student.processes p).state ≡ running)
  is_running = let (below, runs, _) = h.cpus.runs c p known (λ e. cc) at in (below, runs)

  ticked :
      (pc : List Op) (time : ℕ) → Moved p (w.student.processes p).state pc w (set_pc p pc time w)
  ticked pc time = record {
    states = λ a. ground arith;
    pcs = λ a. ground arith;
    current = refl;
    uncounted = refl;
    cpu_count = refl;
    on_cpu = λ d. refl;
  }

  left_over :
      (pc : List Op) (time : ℕ)
      → work (set_pc p pc time w) + cost ((w.student.processes p).pc) ≡ work w + cost pc
  left_over pc time = omega (
    arith,
    running-work_of p (ticked pc time) (is_running.0) (is_running.1),
    ap (λ (s : ProcessState). share s pc) (is_running.1),
  )

  -- The process runs on at another program counter, with less to do.
  runs_on :
      (pc : List Op) (time : ℕ)
      → goes_on true pc ≡ true
      → cost pc < cost ((w.student.processes p).pc)
      → Sound (n - 1) none (set_pc p pc time w) xs
  runs_on pc time fits less =
      tick p pc h (ticked pc time) (frame h.queue.chain λ a i. ground arith)
        (λ q. rw (is_running.1) fits) refl refl refl (omega (arith, left_over pc time, h.budget))

  simulate_burst-IsSound :
      (time : ℕ) (rest : List Op)
      → goes_on false rest ≡ true
      → (time - 1) + 2 + cost rest < cost ((w.student.processes p).pc)
      → Returns (IsSound (n - 1)) (simulate_burst c p time rest w)
  unfolding simulate_burst
  simulate_burst-IsSound time rest fits less =
      let v = set_pc p (record { kind = OpType.cpu; time = time - 1 } ∷ rest) time w in
      let m = v.simulator in
      let timer = pred_ℤ ((m.cpu_data c).preemption_timer) in
      let v' = record v {
        simulator = record m {
          cpu_data = update m.cpu_data c (record (m.cpu_data c) { preemption_timer = timer });
        };
      } in
      let sound : Sound (n - 1) none v xs = runs_on _ time fits less in
      let sound' : Sound (n - 1) none v' xs =
        quiet sound refl refl (λ d. ground arith) refl refl refl in
      elim (Bool-cases (eqb_ℤ timer (pos 0))) [
        | inl expired ↦ rw expired (deliver-preempt {p = p} {w = v'} sound' known (ground arith))
        | inr more ↦ rw more (xs, sound')
      ]

  -- The request goes to the I/O queue, and the process waits.
  request-IsSound :
      (op : Op) (rest : List Op)
      → at_request (op ∷ rest) ≡ true
      → cost (op ∷ rest) + 2 ≤ cost ((w.student.processes p).pc)
      → (time : ℕ)
      → let v = set_pc p (op ∷ rest) time w in
        Returns (IsSound (n - 1)) (
          deliver CpuState.yield yield c
            (record v { simulator = submit_io_request p op.time v.simulator }))
  unfolding submit_io_request set_cpu_state set_state
  request-IsSound op rest fits less time =
      let v = set_pc p (op ∷ rest) time w in
      let v' = record v { simulator = submit_io_request p op.time v.simulator } in
      let r : IoRequest = record { pcb = p; execution_time = op.time } in
      let u = set_cpu_state c CpuState.yield v' in
      let moved : Moved p waiting (op ∷ rest) w (in_state p waiting u) = record {
        states = λ a. ground arith;
        pcs = λ a. ground arith;
        current = refl;
        uncounted = refl;
        cpu_count = refl;
        on_cpu = λ d. ground arith;
      } in
      let left = running-work_of p moved (is_running.0) (is_running.1) in
      deliver-IsSound (n - 1) CpuState.yield yield c v' (
        yield-IsSound u h known at (frame h.queue.chain λ a i. ground arith) refl moved fits
          (requesters-append w.simulator.io_queue r) refl
          (omega (arith, left, h.budget, less, io_cost-append w.simulator.io_queue r)))

  finish-IsSound :
      (op : Op) (rest : List Op) (time : ℕ)
      → cost (op ∷ rest) + 2 ≤ cost ((w.student.processes p).pc)
      → Returns
          (IsSound (n - 1))
          (deliver CpuState.terminate terminate_counted c (set_pc p (op ∷ rest) time w))
  unfolding terminate_counted set_cpu_state set_state
  finish-IsSound op rest time less =
      let v = set_cpu_state c CpuState.terminate (set_pc p (op ∷ rest) time w) in
      let m = v.simulator in
      let v' = record v {
        simulator = record m { processes_terminated = (m.processes_terminated + 1) % u32_mod };
      } in
      let moved : Moved p terminated (op ∷ rest) w (in_state p terminated v') = record {
        states = λ a. ground arith;
        pcs = λ a. ground arith;
        current = refl;
        uncounted = refl;
        cpu_count = refl;
        on_cpu = λ d. ground arith;
      } in
      let left = running-work_of p moved (is_running.0) (is_running.1) in
      deliver-IsSound (n - 1) CpuState.terminate terminate_counted c (set_pc p (op ∷ rest) time w) (
        terminate-IsSound v' h known at (frame h.queue.chain λ a i. ground arith) refl moved refl
          refl (omega (arith, left, h.budget, less)))

  next_operation-IsSound :
      (rest : List Op)
      → goes_on false rest ≡ true
      → cost rest + 2 ≤ cost ((w.student.processes p).pc)
      → Returns (IsSound (n - 1)) (next_operation c p rest w)
  unfolding next_operation
  next_operation-IsSound [] fits less = cc
  next_operation-IsSound (op ∷ rest) fits less = elim (kinds op.kind) [
    | inl burst ↦
        rw burst (xs, runs_on (op ∷ rest) _ (rw burst (rw burst at fits)) (omega (arith, less)))
    | inr (inl io) ↦ rw io (request-IsSound op rest (rw io (rw io at fits)) less _)
    | inr (inr end) ↦ rw end (finish-IsSound op rest _ less)
  ]

  simulate_operation-IsSound :
      (pc : List Op)
      → goes_on true pc ≡ true
      → cost pc ≡ cost ((w.student.processes p).pc)
      → Returns (IsSound (n - 1)) (simulate_operation c p pc w)
  unfolding simulate_operation
  simulate_operation-IsSound [] fits same = cc
  simulate_operation-IsSound (op ∷ rest) fits same = elim (kinds op.kind) [
    | inl burst ↦
        let fits' : goes_on false rest ≡ true = rw burst at fits in
        elim (Bool-cases (ltb 0 op.time)) [
          | inl more ↦
              rw (burst, more) (simulate_burst-IsSound op.time rest fits' (ground (arith, same)))
          | inr done ↦ rw (burst, done) (next_operation-IsSound rest fits' (omega (arith, same)))
        ]
    | inr (inl io) ↦ let bad : false ≡ true = rw io at fits in cc
    | inr (inr end) ↦ let bad : false ≡ true = rw end at fits in cc
  ]

  some_left : 0 < cost ((w.student.processes p).pc) → 0 < n
  some_left more = omega (arith, more, left_over [] 0, h.budget)

  pub simulate_process-IsLess : Returns (IsLess n) (simulate_process c p w)
  unfolding simulate_process
  simulate_process-IsLess =
      let pc = (w.student.processes p).pc in
      let fits : goes_on true pc ≡ true = rw (is_running.1) at (h.programs p (is_running.0)) in
      let positive = some_left (cost-positive pc fits) in
      Returns-mono (IsSound (n - 1)) (IsLess n) (simulate_operation c p pc w)
        (simulate_operation-IsSound pc fits refl) λ v sound. (n - 1, omega (arith, positive), sound)
