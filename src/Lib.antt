-- ===== src/Lib.antt =====
-- Verification of the C programs of this repository.
--
-- The repository holds three simulators in C that share no code:
--
-- - Multi_Level_Cache: a cache with two direct-mapped first-level caches (instructions and data)
--   over a set-associative second level. main.c reads a trace, and calls `l1_cachesim_access` of
--   cachesim.c for each line, which calls `l2_cachesim_access` on a miss.
--   Cache/Types (cachesim.h and the globals), Cache/Init (`cachesim_init`), Cache/LevelTwo,
--   Cache/LevelOne (the accesses, and the loop of main.c). What is shown of the replacement policy
--   stands under Cache/Lru, of the split of addresses in Cache/Address, of whole runs in
--   Cache/Invariant and Cache/Stats, of hits in Cache/FirstLevel.
-- - OS_Threaded_Scheduling/src: an operating-system simulation (os-sim.c) that runs the programs of
--   process.c and calls the handlers of the scheduler (student.c), which call back
--   `context_switch` and `force_preempt`.
--   Sched/Types (os-sim.h and the globals), Sched/Programs (process.c), Sched/Queue (the ready
--   queue), Sched/Student (the handlers), Sched/Simulator (the supervisor's round),
--   Sched/Gantt (what `print_gantt_line` prints), Sched/Main
--   (`main` and its options). The modules under Sched/Queue are about the queue's operations,
--   Sched/Handlers, Sched/WakeUp and Sched/Options about the handlers and
--   `main`. Sched/System is about both files together: Sound has what holds between two events,
--   Work what is left to do, Start what `main` begins with, Reach the runs; the other files take
--   one event each.
-- - Virtual_Memory: demand paging. pagesim.c (simulator-src) runs a trace of commands on the
--   operations of student-src: paging.c, page_fault.c, page_replacement.c, page_splitting.h, which
--   use the swap space of swap.c and swapops.c and the generator of util.c.
--   Vm/Types, Vm/Swap, Vm/Random, Vm/Paging, Vm/Simulator in the same order. Vm/Address, Vm/Victim,
--   Vm/Frames, Vm/Entries, Vm/Access, Vm/Restart and Vm/SwapSpace are about them. Vm/Validity has
--   `check_validity` of pagesim.c, Vm/Consistency what it should mean, Vm/Checked, Vm/Passes and
--   Vm/Verdict the proof. Vm/Options has the options of pagesim.c and the run with checks, about
--   which are Vm/Choices and Vm/Audited. Vm/Flat sets the whole against a memory without paging:
--   Spec is that memory, Tables, Pages and Contents what a machine that stands for it keeps,
--   Implements the three together with the registers. Evict, Fault, Access, Served, Start, Started,
--   Stop and Stopped are about the routines of student-src, Commands and Refines about one command of
--   the trace, Trace, Freed and Counted about whole runs. Vm/Report has what the simulator prints at
--   the end; Vm/Tally and Vm/Counts are about the numbers in it.
--
-- Prelude holds what the three share: tests and chains of optional results, arrays as functions,
-- loops, 64-bit shifts, integers over the native naturals.
--
-- State and errors. A function of C that changes globals is a function from the state to an
-- optional state. `none` stands for undefined behaviour (an index out of an array, a null pointer,
-- a shift by the word's width, a division by zero), for a failed assertion and for a panic.
-- Pointers into arrays are indices, pointers to swap entries are addresses in a heap. Unsigned
-- words wrap. The preemption timer and the LRU counters are integers without bounds; the timer
-- would take 2 ^ 31 rounds to leave the range of an `int`.
--
-- Memory of the paging simulator. A frame holds the frame table, a page table or bytes, as it was
-- last filled; reading it by another layout is `none`, and so is a frame past the last one.
--
-- Threads. Where the supervisor of os-sim.c signals a CPU thread it waits for the handler to come
-- back, so that the handler runs in its place. `idle` is the handler's run from the time that the
-- queue is not empty. The thread of an idle CPU schedules on its own: a run is any sequence of the
-- supervisor's rounds and of idle CPUs' calls of `schedule` (`run_idle`), also where another CPU has
-- emptied the queue meanwhile. A round is one step, and so is a call of `schedule` with the top of
-- the thread's loop behind it; its locks, the condition variables and the sleep are not modelled. In
-- os-sim.c a round may fall into such a call, since `idle` runs without a lock: what is stated of
-- reached worlds is not stated of the middle of a call. Nor does the model have a signal that ends
-- another thread's wait too soon. The readers-writers lock of os-sim.c is modelled by itself in
-- Sched/Irwl, with threads that follow its protocol in Sched/Irwl/Exclusion.
--
-- Fuel. Walks of the ready queue take nine rounds, one more than there are processes. The walks of
-- the swap space take one round more than the entries that its `size` counts.
--
-- Traces of the paging simulator. Spec says which commands a trace may give: a process starts that
-- neither runs nor made the last access, at most 62 run at once (64 frames, less the one of the frame
-- table and one for pages), only running processes access and stop, addresses have 24 bits. Fewer than
-- 2 ^ 64 - 1 commands are as many tokens of the swap space as can be given out.
--
-- Not modelled: the statistics of the other two simulators, `compute_stats` (a double), the scanning
-- of trace lines, and the VHDL processor. A line of the Gantt chart is a value, with its time in
-- tenths of a second. `log2`, `atoi`, `strtoul`, what `getopt` and `fopen` answer, and the memory that
-- `malloc` returns are parameters.
pub mod Prelude
pub mod Cache
pub mod Sched
pub mod Vm
