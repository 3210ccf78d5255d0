-- ===== src/Sched/Simulator.antt =====
-- The supervisor of OS_Threaded_Scheduling/src/os-sim.c. Where it signals a CPU thread it waits
-- until the handler has run, so that an event is the handler, run in its place.
use ece.Prelude.{
  ℕ, zero, suc, ◌+◌, ◌-◌, ◌%◌, ◌||◌, ◌&&◌, Option, none, some, ltb, leb, ◌==◌, if◌then◌else◌, ◌>>=◌,
  update, pos, negsuc, eqb_ℤ, pred_ℤ, List, [], ◌∷◌, ◌++◌,
}
use ece.Sched.Types.{
  ProcessState, OpType, Op, Pcb, Student, CpuState, IoRequest, Simulator, World, process_count,
}
use ece.Sched.Student.{schedule, preempt, yield, terminate, wake_up, set_cpu_state, settle}

abbrev pub u32_mod : ℕ
u32_mod = 0x1_0000_0000

-- The simulator before the threads start; the student's part is as `main` leaves it.
unfoldable pub start_simulator : ℕ → Student → Option World
start_simulator new_cpu_count s =
    if ltb new_cpu_count 1 || ltb 16 new_cpu_count
    then none
    else some (record {
      student = s;
      simulator = record {
        io_queue = [];
        cpu_data =
            λ n. record { current = none; state = CpuState.idle; preemption_timer = negsuc 0 };
        simulator_time = 0;
        processes_terminated = 0;
        processes_created = 0;
        cpu_count = new_cpu_count;
        ready_counter = 0;
        running_counter = 0;
        waiting_counter = 0;
        context_switches = 0;
      };
    })

-- The counting of `print_gantt_line`.
unfoldable pub count_states : ℕ → ℕ → (ℕ → Pcb) → Simulator → Simulator
count_states zero n procs m = m
count_states (suc rounds) n procs m = count_states rounds (suc n) procs (elim (procs n).state [
  | ProcessState.ready ↦ record m { ready_counter = (m.ready_counter + 1) % u32_mod }
  | ProcessState.running ↦ record m { running_counter = (m.running_counter + 1) % u32_mod }
  | ProcessState.waiting ↦ record m { waiting_counter = (m.waiting_counter + 1) % u32_mod }
  | _ ↦ m
])

unfoldable pub submit_io_request : ℕ → ℕ → Simulator → Simulator
submit_io_request pcb execution_time m = record m {
  io_queue = m.io_queue ++ record { pcb = pcb; execution_time = execution_time } ∷ [];
}

-- `pcb->pc = pc; pcb->time_remaining = time`.
abbrev pub set_pc : ℕ → List Op → ℕ → World → World
set_pc p pc time w =
    let s = w.student in
    record w {
      student = record s {
        processes =
            update s.processes p (record (s.processes p) { pc = pc; time_remaining = time });
      };
    }

-- A handler is called on the CPU's thread: the state is set, the handler runs, the loop comes round.
-- This is the order that the wait behind each signal is for. The wait tests no condition, so that
-- another signal of that thread also ends it; a step of the model has no such signal in it.
unfoldable pub deliver : CpuState → (ℕ → World → Option World) → ℕ → World → Option World
deliver state handler cpu_id w = do
  v ← handler cpu_id (set_cpu_state cpu_id state w)
  some (settle cpu_id v)

-- A tick of a burst of computing with `time` ticks left.
unfoldable pub simulate_burst : ℕ → ℕ → ℕ → List Op → World → Option World
simulate_burst cpu_id p time rest w =
    let v = set_pc p (record { kind = OpType.cpu; time = time - 1 } ∷ rest) time w in
    let m = v.simulator in
    let timer = pred_ℤ ((m.cpu_data cpu_id).preemption_timer) in
    let v' = record v {
      simulator = record m {
        cpu_data =
            update m.cpu_data cpu_id (record (m.cpu_data cpu_id) { preemption_timer = timer });
      };
    } in
    if eqb_ℤ timer (pos 0) then deliver CpuState.preempt preempt cpu_id v' else some v'

-- `processes_terminated++` is the CPU thread's, before `terminate`.
unfoldable pub terminate_counted : ℕ → World → Option World
terminate_counted cpu_id w =
    let m = w.simulator in
    terminate cpu_id (record w {
      simulator = record m { processes_terminated = (m.processes_terminated + 1) % u32_mod };
    })

-- The burst is over: the process goes on to its next operation. Past its last one is no operation.
unfoldable pub next_operation : ℕ → ℕ → List Op → World → Option World
next_operation cpu_id p [] w = none
next_operation cpu_id p (op ∷ rest) w =
    let v = set_pc p (op ∷ rest) ((op.time + 1) % u32_mod) w in
    elim op.kind [
      | OpType.io ↦
          deliver CpuState.yield yield cpu_id
            (record v { simulator = submit_io_request p op.time v.simulator })
      | OpType.terminate ↦ deliver CpuState.terminate terminate_counted cpu_id v
      | OpType.cpu ↦ some v
    ]

-- `simulate_process` behind the read of the program counter.
unfoldable pub simulate_operation : ℕ → ℕ → List Op → World → Option World
simulate_operation cpu_id p [] w = none
simulate_operation cpu_id p (op ∷ rest) w = elim op.kind [
  | OpType.cpu ↦
      if ltb 0 op.time
      then simulate_burst cpu_id p op.time rest w
      else next_operation cpu_id p rest w
  | _ ↦ some w
]

unfoldable pub simulate_process : ℕ → ℕ → World → Option World
simulate_process cpu_id p w = simulate_operation cpu_id p ((w.student.processes p).pc) w

unfoldable pub simulate_cpus : ℕ → ℕ → World → Option World
simulate_cpus zero n w = some w
simulate_cpus (suc rounds) n w = do
  v ← elim (w.simulator.cpu_data n).current [ none ↦ some w | some p ↦ simulate_process n p w ]
  simulate_cpus rounds (suc n) v

-- `simulate_io` behind the read of the queue. A time of 0 is counted down to the largest
-- `unsigned int`, in a request that is freed.
unfoldable pub simulate_io : List IoRequest → World → Option World
simulate_io [] w = some w
simulate_io (r ∷ queue) w =
    let m = w.simulator in
    if r.execution_time == 0
    then elim ((w.student.processes r.pcb).pc) [
      | [] ↦ none
      | done ∷ [] ↦ none
      | done ∷ (op ∷ rest) ↦ wake_up r.pcb (
          set_pc r.pcb (op ∷ rest) ((op.time + 1) % u32_mod)
            (record w { simulator = record m { io_queue = queue } }))
    ]
    else some (record w {
      simulator = record m {
        io_queue = record r { execution_time = r.execution_time - 1 } ∷ queue;
      };
    })

unfoldable pub create_process : World → Option World
create_process w = do
  v ← wake_up w.simulator.processes_created w
  let m = v.simulator
  some (record v { simulator = record m { processes_created = m.processes_created + 1 } })

unfoldable pub simulate_creat : World → Option World
unfolding create_process
simulate_creat w =
    if (w.simulator.simulator_time % 10 == 0) && ltb w.simulator.processes_created process_count
    then create_process w
    else some w

-- One round of `simulator_supervisor_thread` that does not exit.
unfoldable pub supervise_round : World → Option World
supervise_round w =
    let counted = record w {
      simulator = count_states process_count 0 w.student.processes w.simulator;
    } in
    do
      a ← simulate_cpus w.simulator.cpu_count 0 counted
      b ← simulate_io a.simulator.io_queue a
      c ← simulate_creat b
      some (record c {
        simulator = record (c.simulator) {
          simulator_time = (c.simulator.simulator_time + 1) % u32_mod;
        };
      })

-- When every process has terminated the program exits, and the world stays as it is.
unfoldable pub supervise : World → Option World
unfolding supervise_round
supervise w =
    if leb process_count w.simulator.processes_terminated then some w else supervise_round w

-- A CPU thread with no process, once `idle` has been woken: its call of `schedule`, and the top of
-- the thread's loop, in one step. Another CPU may have emptied the queue since the wait. In os-sim.c
-- a round may fall between the two, which the model leaves out.
unfoldable pub run_idle : ℕ → World → Option World
run_idle cpu_id w = do v ← schedule cpu_id w; some (settle cpu_id v)
