-- ===== src/Sched/Types.antt =====
-- The data of OS_Threaded_Scheduling/src/os-sim.h, and the globals of student.c and os-sim.c there.
-- A `pcb_t *` is the index of the process in `processes`, NULL is `none`. A pointer into an array
-- of operations is the list of the operations from there on. `none` as the result of an operation
-- stands for undefined behaviour, a failed assertion or a loop that does not end.
use Prim.Native.String.{String}
use ece.Prelude.{ℕ, Option, List, ℤ}

pub data ProcessState : Type 0 where
  new ready running waiting terminated : ProcessState

pub data OpType : Type 0 where
  cpu io terminate : OpType

pub record Op : Type 0 where
  pub kind : OpType
  pub time : ℕ

pub record Pcb : Type 0 where
  pub pid : ℕ
  pub name : String
  pub time_remaining : ℕ
  pub state : ProcessState
  pub pc : List Op
  pub next : Option ℕ

-- The globals of student.c, and the process table.
pub record Student : Type 0 where
  pub processes : ℕ → Pcb
  pub current : ℕ → Option ℕ
  pub head : Option ℕ
  pub time_slice : ℤ
  pub cpu_count : ℕ
  pub scheduling_alg : ℕ

pub data CpuState : Type 0 where
  idle running preempt yield terminate : CpuState

pub record CpuData : Type 0 where
  pub current : Option ℕ
  pub state : CpuState
  pub preemption_timer : ℤ

pub record IoRequest : Type 0 where
  pub pcb : ℕ
  pub execution_time : ℕ

-- The globals of os-sim.c; its I/O queue, a private linked list, is the list of its requests.
pub record Simulator : Type 0 where
  pub io_queue : List IoRequest
  pub cpu_data : ℕ → CpuData
  pub simulator_time : ℕ
  pub processes_terminated : ℕ
  pub processes_created : ℕ
  pub cpu_count : ℕ
  pub ready_counter : ℕ
  pub running_counter : ℕ
  pub waiting_counter : ℕ
  pub context_switches : ℕ

pub record World : Type 0 where
  pub student : Student
  pub simulator : Simulator

-- PROCESS_COUNT of process.h.
abbrev pub process_count : ℕ
process_count = 8
