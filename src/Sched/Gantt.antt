-- ===== src/Sched/Gantt.antt =====
-- `print_gantt_line` of OS_Threaded_Scheduling/src/os-sim.c, as what it prints. Its counting into
-- the totals of the simulation is `count_states`.
use Prim.Native.String.{String}
use ece.Prelude.{ℕ, zero, suc, ◌+◌, ◌%◌, Option, none, some, List, [], ◌∷◌}
use ece.Sched.Types.{ProcessState, Pcb, IoRequest, World, process_count}
use ece.Sched.Simulator.{u32_mod}

-- `current_running`, `current_ready` and `current_waiting`.
pub record Current : Type 0 where
  pub running : ℕ
  pub ready : ℕ
  pub waiting : ℕ

unfoldable pub count_current : ℕ → ℕ → (ℕ → Pcb) → Current → Current
count_current zero n procs t = t
count_current (suc rounds) n procs t = count_current rounds (suc n) procs (elim (procs n).state [
  | ProcessState.ready ↦ record t { ready = (t.ready + 1) % u32_mod }
  | ProcessState.running ↦ record t { running = (t.running + 1) % u32_mod }
  | ProcessState.waiting ↦ record t { waiting = (t.waiting + 1) % u32_mod }
  | _ ↦ t
])

-- The columns of the CPUs; `none` is printed as `(IDLE)`.
unfoldable pub cpu_columns : ℕ → ℕ → World → List (Option String)
cpu_columns zero n w = []
cpu_columns (suc rounds) n w =
    let shown : Option String = elim (w.simulator.cpu_data n).current [
      | none ↦ none
      | some p ↦ some ((w.student.processes p).name)
    ] in
    shown ∷ cpu_columns rounds (suc n) w

unfoldable pub io_column : (ℕ → Pcb) → List IoRequest → List String
io_column procs [] = []
io_column procs (r ∷ queue) = (procs r.pcb).name ∷ io_column procs queue

-- A line; the time is in tenths of a second.
pub record GanttLine : Type 0 where
  pub time : ℕ
  pub current : Current
  pub cpus : List (Option String)
  pub io : List String

unfoldable pub gantt_line : World → GanttLine
gantt_line w = record {
  time = w.simulator.simulator_time;
  current =
      count_current process_count 0 w.student.processes
        (record { running = 0; ready = 0; waiting = 0 });
  cpus = cpu_columns w.simulator.cpu_count 0 w;
  io = io_column w.student.processes w.simulator.io_queue;
}
