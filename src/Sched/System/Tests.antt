-- ===== src/Sched/System/Tests.antt =====
-- The first rounds of the simulation of OS_Threaded_Scheduling/src.
use Prim.Native.String.{String}
use ece.Prelude.{
  length, List, ℕ, ◌≡◌, ◌<◌, ◌≤◌, ◌+◌, ◌⊎◌, true, refl, Option, none, some, ℤ, pos, negsuc, [],
  arith,
}
use ece.Sched.Types.{Student, process_count, World, ready, running}
use ece.Sched.Programs.{processes}
use ece.Sched.Queue.{push_to_queue, push_behind, find_tail, pop_from_queue, pop_fifo}
use ece.Sched.Student.{
  set_state, context_switch, install, schedule, find_low, choose_preempted, wake_up, set_cpu_state,
  settle,
}
use ece.Sched.Simulator.{
  start_simulator, count_states, simulate_cpus, simulate_io, create_process, simulate_creat,
  supervise_round, supervise, run_idle,
}
use ece.Sched.Main.{main_student}
use ece.Sched.System.Leave.{IsSound}
use ece.Sched.System.Start.{all_work}
use ece.Sched.System.Work.{work}
use ece.Sched.Queue.Chain.{Chain}
use ece.Sched.Gantt.{gantt_line}
use ece.Sched.System.Chart.{shown, gantt_line_agrees}
use ece.Sched.System.Progress.{reached-works_on}
use ece.Sched.System.Reach.{
  is_busy, busy_rounds, busy_rounds-le, round, idle_cpu, Reach, begun, next, reached-IsSound,
  reached-runs_on,
}

abbrev or_else : World → Option World → World
or_else w none = w
or_else w (some v) = v

abbrev zero_of : String → ℤ
zero_of s = pos 0

abbrev two_of : String → ℕ
two_of s = 2

abbrev no_current : ℕ → Option ℕ
no_current c = none

abbrev nowhere : World
nowhere = record {
  student = record {
    processes = processes;
    current = no_current;
    head = none;
    time_slice = negsuc 0;
    cpu_count = 0;
    scheduling_alg = b'f';
  };
  simulator = record {
    io_queue = [];
    cpu_data = λ n. record {
      current = none;
      state = ece.Sched.Types.CpuState.idle;
      preemption_timer = negsuc 0;
    };
    simulator_time = 0;
    processes_terminated = 0;
    processes_created = 0;
    cpu_count = 0;
    ready_counter = 0;
    running_counter = 0;
    waiting_counter = 0;
    context_switches = 0;
  };
}

abbrev on_two_cpus : World
on_two_cpus =
    or_else nowhere (start_simulator 2 (main_student zero_of two_of no_current (b'f', negsuc 0)))

on_two_cpus_lem :
    start_simulator 2 (main_student zero_of two_of no_current (b'f', negsuc 0)) ≡ some on_two_cpus
unfolding start_simulator main_student
on_two_cpus_lem = refl

abbrev after_a_round : World
after_a_round = or_else nowhere (supervise on_two_cpus)

-- The first process is ready, and the second CPU takes it.
abbrev after_idle : World
after_idle = or_else nowhere (run_idle 1 after_a_round)

first_steps :
    (supervise on_two_cpus ≡ some after_a_round)
    × (run_idle 1 after_a_round ≡ some after_idle)
    × (after_a_round.simulator.cpu_count ≡ 2)
    × ((after_a_round.simulator.cpu_data 1).current ≡ none)
    × ((after_idle.student.processes 0).state ≡ running)
    × ((after_idle.simulator.cpu_data 1).current ≡ some 0)
    × (after_idle.simulator.processes_terminated ≡ 0)
unfolding start_simulator main_student supervise supervise_round count_states simulate_cpus
    simulate_io simulate_creat create_process wake_up push_to_queue push_behind find_tail
    choose_preempted find_low set_state processes run_idle schedule pop_from_queue pop_fifo
    context_switch install settle set_cpu_state
first_steps = (refl, refl, refl, refl, refl, refl, refl)

so_far : Reach on_two_cpus after_idle
so_far =
    let (first, second, count, idle, _, _, _) = first_steps in
    next (next (begun refl) (round first)) (idle_cpu 1 (rw count (omega arith)) idle second)

reached-IsSound_example : IsSound all_work after_idle
reached-IsSound_example =
    reached-IsSound zero_of two_of no_current 2 (b'f', negsuc 0) on_two_cpus after_idle
      on_two_cpus_lem so_far

reached-runs_on_example :
    ((v : World) × (supervise after_idle ≡ some v))
    × ((c : ℕ)
        → c < after_idle.simulator.cpu_count
        → (after_idle.simulator.cpu_data c).current ≡ none
        → (v : World) × (run_idle c after_idle ≡ some v))
reached-runs_on_example =
    reached-runs_on zero_of two_of no_current 2 (b'f', negsuc 0) on_two_cpus after_idle
      on_two_cpus_lem so_far

busy_rounds-le_example : busy_rounds so_far + work after_idle ≤ all_work
busy_rounds-le_example =
    busy_rounds-le zero_of two_of no_current 2 (b'f', negsuc 0) on_two_cpus after_idle
      on_two_cpus_lem so_far

still_alive : after_idle.simulator.processes_terminated < process_count
still_alive = let (_, _, _, _, _, _, ended) = first_steps in rw ended (omega arith)

reached-works_on_example :
    (is_busy after_idle ≡ true)
    ⊎ ((after_idle.simulator.processes_created < process_count)
        ⊎ (((after_idle.simulator.cpu_data 0).current ≡ none)
            × ((v : World) × (run_idle 0 after_idle ≡ some v) × (is_busy v ≡ true))))
reached-works_on_example =
    reached-works_on zero_of two_of no_current 2 (b'f', negsuc 0) on_two_cpus after_idle
      on_two_cpus_lem so_far still_alive

gantt_line_agrees_example :
    ((gantt_line after_idle).current.running ≡ shown (gantt_line after_idle).cpus)
    × ((gantt_line after_idle).current.waiting ≡ length (gantt_line after_idle).io)
    × ((xs : List ℕ) × Chain after_idle.student.processes after_idle.student.head xs
        × ((gantt_line after_idle).current.ready ≡ length xs))
gantt_line_agrees_example =
    gantt_line_agrees zero_of two_of no_current 2 (b'f', negsuc 0) on_two_cpus after_idle
      on_two_cpus_lem so_far
