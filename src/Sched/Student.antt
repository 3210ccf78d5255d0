-- ===== src/Sched/Student.antt =====
-- The scheduler and the handlers of OS_Threaded_Scheduling/src/student.c, with the two functions of
-- os-sim.c that they call. A handler runs its critical sections one after the other.
use ece.Prelude.{
  ℕ, zero, suc, ◌+◌, ◌%◌, Bool, true, not, ◌||◌, Option, none, some, ltb, leb, ◌==◌, if◌then◌else◌,
  ◌>>=◌, update, ℤ,
}
use ece.Sched.Types.{
  ProcessState, ready, running, waiting, terminated, Student, CpuState, Simulator, World,
  process_count,
}
use ece.Sched.Queue.{push_to_queue, pop_from_queue}

-- `pcb->state = state`.
unfoldable pub set_state : ℕ → ProcessState → Student → Student
set_state p state s = record s {
  processes = update s.processes p (record (s.processes p) { state = state });
}

-- `context_switch` of os-sim.c. The assertions fail on a CPU or a process that does not exist.
unfoldable pub context_switch : ℕ → Option ℕ → ℤ → Simulator → Option Simulator
context_switch cpu_id pcb preemption_time m =
    let known : Bool = elim pcb [ none ↦ true | some p ↦ ltb p process_count ] in
    let cpu = m.cpu_data cpu_id in
    if leb m.cpu_count cpu_id || not known
    then none
    else some (record m {
      context_switches = (m.context_switches + 1) % 0x1_0000_0000;
      cpu_data =
          update m.cpu_data cpu_id
            (record cpu { current = pcb; preemption_timer = preemption_time });
    })

-- `if (pcb != NULL) pcb->state = PROCESS_RUNNING; current[cpu_id] = pcb;`
unfoldable pub install : ℕ → Option ℕ → Student → Student
unfolding set_state
install cpu_id none s = record s { current = update s.current cpu_id none }
install cpu_id (some p) s =
    let t = set_state p running s in record t { current = update t.current cpu_id (some p) }

unfoldable pub schedule : ℕ → World → Option World
schedule cpu_id w = do
  (pcb, s) ← pop_from_queue w.student
  m ← context_switch cpu_id pcb s.time_slice w.simulator
  some (record { student = install cpu_id pcb s; simulator = m })

-- `idle` blocks while the ready queue is empty; this is its run from the time it is not.
unfoldable pub idle : ℕ → World → Option World
idle cpu_id w = elim w.student.head [ none ↦ none | some h ↦ schedule cpu_id w ]

-- `current[cpu_id]` is dereferenced.
unfoldable pub preempt : ℕ → World → Option World
preempt cpu_id w = do
  p ← w.student.current cpu_id
  s ← push_to_queue p (set_state p ready w.student)
  schedule cpu_id (record w { student = s })

unfoldable pub yield : ℕ → World → Option World
yield cpu_id w = do
  p ← w.student.current cpu_id
  schedule cpu_id (record w { student = set_state p waiting w.student })

unfoldable pub terminate : ℕ → World → Option World
terminate cpu_id w = do
  p ← w.student.current cpu_id
  schedule cpu_id (record w { student = set_state p terminated w.student })

-- The loop of `wake_up` over the CPUs: the CPU to preempt, if any, and the time that is compared.
unfoldable pub find_low : ℕ → ℕ → Student → ℕ → Option ℕ → ℕ × Option ℕ
find_low zero i s low low_id = (low, low_id)
find_low (suc rounds) i s low low_id = elim (s.current i) [
  | none ↦ (low, none)
  | some p ↦
      let time = (s.processes p).time_remaining in
      find_low rounds (suc i) s (if ltb time low then time else low)
        (if ltb time low then some i else low_id)
]

-- The CPU on which `wake_up` calls `force_preempt`.
unfoldable pub choose_preempted : ℕ → Student → Option ℕ
choose_preempted process s =
    let (low, low_id) = find_low s.cpu_count 0 s 10 none in
    if s.scheduling_alg == b'l'
    then (if ltb low (s.processes process).time_remaining then low_id else none)
    else none

unfoldable pub set_cpu_state : ℕ → CpuState → World → World
set_cpu_state cpu_id state w =
    let m = w.simulator in
    record w {
      simulator = record m {
        cpu_data = update m.cpu_data cpu_id (record (m.cpu_data cpu_id) { state = state });
      };
    }

-- The top of the loop of `simulator_cpu_thread`, after a handler has returned.
unfoldable pub settle : ℕ → World → World
settle cpu_id w =
    set_cpu_state cpu_id
      (elim (w.simulator.cpu_data cpu_id).current [
        | none ↦ CpuState.idle
        | some p ↦ CpuState.running
      ])
      w

-- `force_preempt` of os-sim.c: a CPU that runs a process is told to preempt it, and does so before
-- the call returns.
unfoldable pub force_preempt : ℕ → World → Option World
force_preempt cpu_id w =
    if leb w.simulator.cpu_count cpu_id then none else elim (w.simulator.cpu_data cpu_id).state [
      | CpuState.running ↦ do
        v ← preempt cpu_id (set_cpu_state cpu_id CpuState.preempt w)
        some (settle cpu_id v)
      | _ ↦ some w
    ]

unfoldable pub wake_up : ℕ → World → Option World
wake_up process w = do
  s ← push_to_queue process (set_state process ready w.student)
  elim (choose_preempted process s) [
    | none ↦ some (record w { student = s })
    | some cpu_id ↦ force_preempt cpu_id (record w { student = s })
  ]
