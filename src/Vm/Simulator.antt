-- ===== src/Vm/Simulator.antt =====
-- The driver of Virtual_Memory/simulator-src/pagesim.c: `main` over the commands of a trace. Reading
-- a line and splitting it by `sscanf` is the C library's; a line is the command that it spells.
use ece.Prelude.{
  ℕ, Bool, false, Option, none, some, ltb, ◌==◌, if◌then◌else◌, ◌>>=◌, update, List, [], ◌∷◌,
}
use ece.Vm.Types.{max_pid, Pcb, page, Vm}
use ece.Vm.Random.{initial_rng}
use ece.Vm.Paging.{system_init, proc_init, proc_cleanup, context_switch, mem_access}

pub data Command : Type 0 where
  start : ℕ → Command
  stop : ℕ → Command
  access : (pid rw address byte : ℕ) → Command

abbrev pub proc_running : ℕ
proc_running = 1

abbrev pub proc_stopped : ℕ
proc_stopped = 0

abbrev pub set_pcb : ℕ → Pcb → Vm → Vm
set_pcb p pcb v = record v { procs = update v.procs p pcb }

-- The machine before the trace, with the chosen replacement strategy.
unfoldable pub boot : ℕ → Vm
boot replacement = system_init (record {
  mem = λ i. page (λ j. 0);
  frame_table = λ i. record { protected = 0; mapped = 0; referenced = 0; process = none; vpn = 0 };
  ptbr = 0;
  procs = λ i. record { pid = 0; state = 0; saved_ptbr = 0 };
  current_process = none;
  replacement = replacement;
  swap_queue = record {
    heap = λ i. none;
    fresh = 0;
    next_token = 1;
    head = none;
    tail = none;
    size = 0;
    size_max = 0;
  };
  rng = initial_rng;
  stats = record { writes = 0; reads = 0; accesses = 0; page_faults = 0; writebacks = 0 };
})

-- `if (!current_process || current_process->pid != pid)`.
unfoldable pub is_current : Option ℕ → ℕ → Vm → Bool
is_current none pid v = false
is_current (some p) pid v = (v.procs p).pid == pid

unfoldable pub switch_to : ℕ → Vm → Vm
switch_to pid v =
    if is_current v.current_process pid v
    then v
    else (let v' = context_switch pid v in record v' { current_process = some pid })

unfoldable pub start_process : ℕ → Vm → Option Vm
start_process pid v =
    let pcb = v.procs pid in
    proc_init pid (set_pcb pid (record pcb { pid = pid; state = proc_running }) v)

unfoldable pub stop_process : ℕ → Vm → Option Vm
stop_process pid v = do
  v' ← proc_cleanup pid v
  let pcb = v'.procs pid
  some (set_pcb pid (record pcb { saved_ptbr = 0; state = proc_stopped }) v')

-- One line of the trace, with the byte that an access prints. A process number of `MAX_PID` or more
-- is an index out of `procs`.
unfoldable pub run_command : Command → Vm → Option (Option ℕ × Vm)
run_command (start pid) v =
    if ltb pid max_pid then (start_process pid v >>= λ v'. some (none, v')) else none
run_command (stop pid) v =
    if ltb pid max_pid then (stop_process pid v >>= λ v'. some (none, v')) else none
run_command (access pid rw address byte) v =
    if ltb pid max_pid
    then (mem_access address rw byte (switch_to pid v) >>= λ (b, v'). some (some b, v'))
    else none

unfoldable pub run_trace : List Command → Vm → Option Vm
run_trace [] v = some v
run_trace (c ∷ cs) v = do (printed, v') ← run_command c v; run_trace cs v'
