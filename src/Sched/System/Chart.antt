-- ===== src/Sched/System/Chart.antt =====
-- The line of the Gantt chart of os-sim.c agrees with the queues.
use Prim.Native.String.{String}
use ece.Prelude.{
  ℕ, zero, suc, ◌+◌, ◌<◌, ◌≤◌, ◌≡◌, inl, inr, refl, sym, ap, ◌∙◌, true, Option, none, some, List,
  [], ◌∷◌, ◌∈◌, has, length, arith, Bool-cases, Option-cases, Distinct, ℤ,
}
use native.Mathlib.Decide.{ℕ_discrete}
use ece.Sched.Types.{
  ProcessState, ready, running, waiting, Pcb, CpuData, IoRequest, World, process_count,
}
use ece.Sched.Queue.Chain.{Chain}
use ece.Sched.Simulator.{start_simulator}
use ece.Sched.Main.{main_student}
use ece.Sched.Gantt.{count_current, cpu_columns, io_column, gantt_line}
use ece.Sched.System.Sound.{requesters, Sound}
use ece.Sched.System.Fill.{Chain-Distinct}
use ece.Sched.System.Reach.{Reach, reached-IsSound}
use ece.Sched.System.Counting.{
  total-length, is_ready, is_running, is_waiting, counted, Counts, count_current-Counts, span-total,
}

abbrev cons_some : Option ℕ → List ℕ → List ℕ
cons_some none xs = xs
cons_some (some p) xs = p ∷ xs

-- The processes on the CPUs, in the order of the columns.
abbrev on_cpus : ℕ → ℕ → (ℕ → CpuData) → List ℕ
on_cpus zero n cpus = []
on_cpus (suc rounds) n cpus = cons_some (cpus n).current (on_cpus rounds (suc n) cpus)

-- The columns that name a process.
abbrev pub shown : List (Option String) → ℕ
shown [] = 0
shown (none ∷ rest) = shown rest
shown (some name ∷ rest) = suc (shown rest)

shown-cpu_columns :
    (rounds n : ℕ) (w : World)
    → shown (cpu_columns rounds n w) ≡ length (on_cpus rounds n w.simulator.cpu_data)
unfolding cpu_columns
shown-cpu_columns zero n w = refl
shown-cpu_columns (suc rounds) n w =
    let rest = shown-cpu_columns rounds (suc n) w in
    elim (Option-cases ((w.simulator.cpu_data n).current)) [
      | inl e ↦ rw e rest
      | inr (p, e) ↦ rw e (ap suc rest)
    ]

length-io_column :
    (procs : ℕ → Pcb) (io : List IoRequest) → length (io_column procs io) ≡ length (requesters io)
unfolding io_column
length-io_column procs [] = refl
length-io_column procs (r ∷ queue) = ap suc (length-io_column procs queue)

mem-on_cpus :
    (rounds n : ℕ) (cpus : ℕ → CpuData) (a : ℕ)
    → a ∈ on_cpus rounds n cpus
    → (c : ℕ) × (n ≤ c) × (c < n + rounds) × ((cpus c).current ≡ some a)
mem-on_cpus zero n cpus a m = cc m
mem-on_cpus (suc rounds) n cpus a m = elim (Option-cases ((cpus n).current)) [
  | inl e ↦
      let (c, le, below, at) = mem-on_cpus rounds (suc n) cpus a (ground (arith, m, e)) in
      (c, omega (arith, le), omega (arith, below), at)
  | inr (p, e) ↦ elim (ℕ_discrete a p) [
    | yes same ↦ (n, omega arith, omega arith, rw same e)
    | no other ↦
        let (c, le, below, at) = mem-on_cpus rounds (suc n) cpus a (ground (arith, m, e, other)) in
        (c, omega (arith, le), omega (arith, below), at)
  ]
]

on_cpus-mem :
    (rounds n : ℕ) (cpus : ℕ → CpuData) (a c : ℕ)
    → n ≤ c
    → c < n + rounds
    → (cpus c).current ≡ some a
    → a ∈ on_cpus rounds n cpus
on_cpus-mem zero n cpus a c le below at = absurd (omega arith)
on_cpus-mem (suc rounds) n cpus a c le below at = elim (ℕ_discrete c n) [
  | yes same ↦ let here : (cpus n).current ≡ some a = rw (← same) at in ground (arith, here)
  | no other ↦
      let rest = on_cpus-mem rounds (suc n) cpus a c (omega (arith, other)) (omega arith) at in
      ground (arith, rest)
]

on_cpus-Distinct :
    (rounds n : ℕ) (cpus : ℕ → CpuData)
    → ((c d p : ℕ)
        → c < n + rounds
        → d < n + rounds
        → (cpus c).current ≡ some p
        → (cpus d).current ≡ some p
        → c ≡ d)
    → Distinct (on_cpus rounds n cpus)
on_cpus-Distinct zero n cpus once = tt
on_cpus-Distinct (suc rounds) n cpus once =
    let rest =
      on_cpus-Distinct rounds (suc n) cpus
        λ c d p q q'. once c d p (omega (arith, q)) (omega (arith, q')) in
    elim (Option-cases ((cpus n).current)) [
      | inl e ↦ rw e rest
      | inr (p, e) ↦ rw e (elim (Bool-cases (has p (on_cpus rounds (suc n) cpus))) [
        | inr out ↦ (out, rest)
        | inl m ↦
            let (c, le, below, at) = mem-on_cpus rounds (suc n) cpus p m in
            let same = once n c p (omega arith) (omega (arith, below)) e at in
            absurd (omega (arith, same, le))
      ])
    ]

only_ready : (s : ProcessState) → is_ready s ≡ true → s ≡ ready
only_ready s h = ground arith

only_running : (s : ProcessState) → is_running s ≡ true → s ≡ running
only_running s h = ground arith

only_waiting : (s : ProcessState) → is_waiting s ≡ true → s ≡ waiting
only_waiting s h = ground arith

-- The queues of a sound world, counted.
module _ {n : ℕ} {w : World} {xs : List ℕ} (h : Sound n none w xs) where
  counts :
      Counts process_count 0 w.student.processes
        (record { running = 0; ready = 0; waiting = 0 })
        (count_current process_count 0 w.student.processes
          (record { running = 0; ready = 0; waiting = 0 }))
  counts =
      count_current-Counts process_count 0 w.student.processes _ (omega arith) (omega arith)
        (omega arith)

  line_ready : (gantt_line w).current.ready ≡ length xs
  unfolding gantt_line
  line_ready =
      counts.ready_too
      ∙ span-total (counted is_ready w.student.processes)
      ∙ total-length process_count xs (λ a. is_ready (w.student.processes a).state)
          (Chain-Distinct h.queue.chain)
          (λ a m. let (below, e) = h.queue.queued a m in (below, rw e refl))
          λ a q e. h.queue.complete a q (only_ready _ e)

  line_waiting : (gantt_line w).current.waiting ≡ length (gantt_line w).io
  unfolding gantt_line
  line_waiting =
      counts.waiting_too
      ∙ span-total (counted is_waiting w.student.processes)
      ∙ total-length process_count (requesters w.simulator.io_queue)
          (λ a. is_waiting (w.student.processes a).state) h.io.distinct
          (λ a m. let (below, e) = h.io.requested a m in (below, rw e refl))
          (λ a q e. h.io.complete a q (only_waiting _ e))
      ∙ sym (length-io_column w.student.processes w.simulator.io_queue)

  line_running : (gantt_line w).current.running ≡ shown (gantt_line w).cpus
  unfolding gantt_line
  line_running =
      let m = w.simulator in
      counts.running_too
      ∙ span-total (counted is_running w.student.processes)
      ∙ total-length process_count (on_cpus m.cpu_count 0 m.cpu_data)
          (λ a. is_running (w.student.processes a).state)
          (on_cpus-Distinct m.cpu_count 0 m.cpu_data λ c d p q q' e e'.
            h.cpus.once c d p (omega (arith, q)) (omega (arith, q')) (λ x. cc) (λ x. cc) e e')
          (λ a i.
            let (c, _, below, at) = mem-on_cpus m.cpu_count 0 m.cpu_data a i in
            let (in_table, e, _) = h.cpus.runs c a (omega (arith, below)) (λ x. cc) at in
            (in_table, rw e refl))
          (λ a q e.
            let (c, known, _, at) = h.cpus.placed a q (only_running _ e) in
            on_cpus-mem m.cpu_count 0 m.cpu_data a c (omega arith) (omega (arith, known)) at)
      ∙ sym (shown-cpu_columns m.cpu_count 0 w)

module _ (atoi : String → ℤ) (strtoul : String → ℕ) (garbage : ℕ → Option ℕ) where
  -- In every world that the simulation reaches by whole rounds and whole calls of `schedule` on idle
  -- CPUs, so never in the middle of such a call, the line of the Gantt chart counts as many running
  -- processes as it names CPUs with a process, as many waiting ones as it names in the I/O queue, and
  -- as many ready ones as the ready queue of student.c, which some list of processes is, has.
  pub gantt_line_agrees :
      (cpus : ℕ) (options : ℕ × ℤ) (start w : World)
      → start_simulator cpus (main_student atoi strtoul garbage options) ≡ some start
      → Reach start w
      → ((gantt_line w).current.running ≡ shown (gantt_line w).cpus)
        × ((gantt_line w).current.waiting ≡ length (gantt_line w).io)
        × ((xs : List ℕ) × Chain w.student.processes w.student.head xs
            × ((gantt_line w).current.ready ≡ length xs))
  gantt_line_agrees cpus options start w started r =
      let (xs, h) = reached-IsSound atoi strtoul garbage cpus options start w started r in
      (line_running h, line_waiting h, (xs, h.queue.chain, line_ready h))
