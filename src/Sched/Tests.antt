-- ===== src/Sched/Tests.antt =====
-- Runs of the scheduler of OS_Threaded_Scheduling/src on small inputs.
use Prim.Native.String.{String}
use text.Mathlib.Text.{◌==◌ as str_eq}
use ece.Prelude.{
  inr, true, ◌⊎◌, ◌∈◌, ℕ, ◌<◌, ◌≡◌, refl, false, Option, none, some, ◌==◌, if◌then◌else◌, arith,
  Returns, ℤ, pos, negsuc, List, [], ◌∷◌,
}
use ece.Sched.Types.{waiting, terminated, process_count, CpuState, Pcb, Student, World}
use ece.Sched.Programs.{processes}
use ece.Sched.Queue.{push_to_queue, pop_from_queue}
use ece.Sched.Queue.Chain.{Chain, nil, cons}
use ece.Sched.Queue.Push.{Pushed, push_to_queue-append}
use ece.Sched.Queue.Pop.{IsLrtfPop, pop_from_queue_lem}
use ece.Sched.Student.{wake_up, choose_preempted, set_state, schedule, preempt, yield, terminate}
use ece.Sched.Handlers.{Schedules, Preempts, schedule-Schedules, preempt-Preempts, leave-Schedules}
use ece.Sched.WakeUp.{Wakes, wake_up-Wakes}
use ece.Sched.Simulator.{start_simulator}
use ece.Sched.Main.{Start, started, usage, parse_option, parse_options, main_run, main}
use ece.Sched.Options.{AreSettings, parse_options-AreSettings, main_never_preempts}

-- The processes 3, 4 and 5 in the ready queue, and 0 and 6 on two CPUs.
abbrev linked : ℕ → Pcb
linked i = record (processes i) {
  next = if i == 3 then some 4 else if i == 4 then some 5 else none;
}

abbrev three_ready : Student
three_ready = record {
  processes = linked;
  current = λ c. if c == 0 then some 0 else if c == 1 then some 6 else none;
  head = some 3;
  time_slice = negsuc 0;
  cpu_count = 2;
  scheduling_alg = b'l';
}

abbrev ready_list : List ℕ
ready_list = 3 ∷ (4 ∷ (5 ∷ []))

three_ready-Chain : Chain linked (some 3) ready_list
three_ready-Chain =
    cons refl (ground arith) (cons refl (ground arith) (cons refl (ground arith) nil))

pop_from_queue_example :
    Returns (λ r. IsLrtfPop three_ready ready_list r) (pop_from_queue three_ready)
pop_from_queue_example = pop_from_queue_lem three_ready ready_list three_ready-Chain (omega arith)

push_to_queue-append_example :
    Returns (Pushed 7 three_ready ready_list) (push_to_queue 7 three_ready)
push_to_queue-append_example =
    push_to_queue-append 7 three_ready three_ready-Chain (ground arith) (omega arith)

-- The C library's conversions and `malloc`, on the inputs of the tests.
abbrev three : String → ℤ
three text = pos 3

abbrev two : String → ℕ
two text = 2

abbrev cleared : ℕ → Option ℕ
cleared n = none

abbrev lrtf_args : List String
lrtf_args = "os-sim" ∷ ("2" ∷ ("-l" ∷ []))

abbrev or_else {ℓ} : {A : Type ℓ} → A → Option A → A
or_else a none = a
or_else a (some b) = b

abbrev started_world : Option Start → Option World
started_world none = none
started_world (some usage) = none
started_world (some (started w)) = w

abbrev no_world : World
no_world = record {
  student = three_ready;
  simulator = record {
    io_queue = [];
    cpu_data = λ n. record { current = none; state = CpuState.idle; preemption_timer = negsuc 0 };
    simulator_time = 0;
    processes_terminated = 0;
    processes_created = 0;
    cpu_count = 0;
    ready_counter = 0;
    running_counter = 0;
    waiting_counter = 0;
    context_switches = 0;
  };
}

abbrev lrtf_world : World
lrtf_world = or_else no_world (started_world (main three two cleared lrtf_args))

lrtf_starts : main three two cleared lrtf_args ≡ some (started (some lrtf_world))
unfolding main main_run parse_options parse_option start_simulator
lrtf_starts = refl

main_never_preempts_example : choose_preempted 3 lrtf_world.student ≡ none
main_never_preempts_example =
    main_never_preempts three two cleared lrtf_args lrtf_world lrtf_starts lrtf_world.student 3 refl

parse_options-AreSettings_example :
    ((str_eq "3" "-r" ≡ true) × (parse_options three ("-r" ∷ ("3" ∷ [])) (0, negsuc 0) ≡ none))
    ⊎ ((str_eq "3" "-r" ≡ false)
        × Returns
            (AreSettings three ("-r" ∷ ("3" ∷ [])) "3" (negsuc 0))
            (parse_options three ("-r" ∷ ("3" ∷ [])) (0, negsuc 0)))
parse_options-AreSettings_example = parse_options-AreSettings three ("-r" ∷ []) "3" (0, negsuc 0)

-- Two CPUs that run the processes 0 and 6.
abbrev two_busy : World
two_busy = record {
  student = three_ready;
  simulator = record (no_world.simulator) {
    cpu_count = 2;
    cpu_data = λ c. record {
      current = three_ready.current c;
      state = CpuState.running;
      preemption_timer = negsuc 0;
    };
  };
}

ready_in_table : (a : ℕ) → a ∈ ready_list → a < process_count
ready_in_table a i = ground arith

schedule-Schedules_example : Returns (Schedules 0 two_busy ready_list) (schedule 0 two_busy)
schedule-Schedules_example =
    schedule-Schedules 0 two_busy ready_list three_ready-Chain (omega arith) ready_in_table
      (omega arith)

preempt-Preempts_example : Returns (Preempts 0 0 two_busy ready_list) (preempt 0 two_busy)
preempt-Preempts_example =
    preempt-Preempts 0 0 two_busy ready_list refl three_ready-Chain ready_in_table (omega arith)
      (ground arith) (omega arith) (omega arith)

leave-Schedules_example :
    Returns
      (Schedules 1 (record two_busy { student = set_state 6 waiting three_ready }) ready_list)
      (yield 1 two_busy)
    × Returns
        (Schedules 1 (record two_busy { student = set_state 6 terminated three_ready }) ready_list)
        (terminate 1 two_busy)
leave-Schedules_example =
    leave-Schedules 1 6 two_busy ready_list refl three_ready-Chain ready_in_table (omega arith)
      (omega arith)

-- As `main` starts it, the count of CPUs that `wake_up` reads is 0.
abbrev no_cpus : World
no_cpus = record two_busy { student = record three_ready { cpu_count = 0 } }

wake_up-Wakes_example : Returns (Wakes 7 no_cpus ready_list) (wake_up 7 no_cpus)
wake_up-Wakes_example =
    wake_up-Wakes 7 no_cpus ready_list three_ready-Chain (ground arith) (omega arith) (inr refl)
