-- ===== src/Sched/System/Reach.antt =====
-- The runs of the simulation that `main` of student.c starts.
use Prim.Native.String.{String}
use ece.Prelude.{
  ℕ, zero, suc, ◌+◌, ◌<◌, ◌≤◌, ◌≡◌, ◌&&◌, ◌||◌, inl, inr, refl, sym, ◌∙◌, Bool, true, false, Option,
  none, some, [], ◌∷◌, ltb, leb, arith, Bool-cases, Returns, Returns-mono, Returns-some, ℤ,
  if◌then◌else◌,
}
use ece.Sched.Types.{CpuData, World, process_count}
use ece.Sched.Simulator.{start_simulator, supervise_round, supervise, run_idle}
use ece.Sched.Main.{main_student}
use ece.Sched.System.Work.{work}
use ece.Sched.System.Leave.{IsSound, IsLess, relax}
use ece.Sched.System.Rounds.{IsQuiet, Advances, supervise_round-Advances, run_idle-IsSound}
use ece.Sched.System.Start.{all_work, begun-Sound}

-- A round of the supervisor, or the scheduling of a CPU that has no process.
pub data Step (w v : World) : Type 0 where
  round : supervise w ≡ some v → Step w v
  idle_cpu :
      (c : ℕ)
      → c < w.simulator.cpu_count
      → (w.simulator.cpu_data c).current ≡ none
      → run_idle c w ≡ some v
      → Step w v

-- Any number of steps in any order.
pub data Reach (start : World) : World → Type 0 where
  begun : {w : World} → w ≡ start → Reach start w
  next : {v w : World} → Reach start v → Step v w → Reach start w

abbrev pub some_busy : ℕ → (ℕ → CpuData) → Bool
some_busy zero cpus = false
some_busy (suc c) cpus = elim (cpus c).current [ none ↦ some_busy c cpus | some p ↦ true ]

-- The simulation goes on, and a CPU has a process or a process waits for I/O.
abbrev pub is_busy : World → Bool
is_busy w =
    let m = w.simulator in
    ltb m.processes_terminated process_count
    && (some_busy m.cpu_count m.cpu_data || elim m.io_queue [ [] ↦ false | r ∷ queue ↦ true ])

-- The rounds of a run that started in a busy world.
abbrev pub busy_rounds : {start w : World} → Reach start w → ℕ
busy_rounds (begun same) = 0
busy_rounds (next {v} r (round ran)) = (if is_busy v then 1 else 0) + busy_rounds r
busy_rounds (next r (idle_cpu c known idle ran)) = busy_rounds r

some_busy-idle :
    (n : ℕ) (cpus : ℕ → CpuData)
    → ((c : ℕ) → c < n → (cpus c).current ≡ none)
    → some_busy n cpus ≡ false
some_busy-idle zero cpus h = refl
some_busy-idle (suc n) cpus h =
    let rest = some_busy-idle n cpus λ c q. h c (omega arith) in ground (arith, h n (omega arith))

IsQuiet-calm : (w : World) → IsQuiet w → is_busy w ≡ false
IsQuiet-calm w (idle, empty) =
    let no_cpu =
      some_busy-idle w.simulator.cpu_count w.simulator.cpu_data
        λ c q. idle c (omega arith) (omega (arith, q)) in
    rw (no_cpu, empty) (ground arith)

-- A round does not fail, and in a busy world it leaves less to do.
supervise-IsLess :
    (n : ℕ) (w : World)
    → IsSound n w
    → Returns (λ v. if is_busy w then IsLess n v else IsSound n v) (supervise w)
unfolding supervise
supervise-IsLess n w sound =
    elim (Bool-cases (leb process_count w.simulator.processes_terminated)) [
      | inl over ↦ let calm : is_busy w ≡ false = ground arith in rw (over, calm) sound
      | inr more ↦ rw more (
          Returns-mono (Advances n w) _ (supervise_round w) (supervise_round-Advances n w sound)
            λ v r. elim (Bool-cases (is_busy w)) [
              | inl busy ↦ rw busy (elim r [
                | inl less ↦ less
                | inr (_, quiet) ↦ let bad : true ≡ false = sym busy ∙ IsQuiet-calm w quiet in cc
              ])
              | inr calm ↦ rw calm (elim r [
                | inl (m, less, (xs, h)) ↦ (xs, relax (omega (arith, less)) h)
                | inr (sound', _) ↦ sound'
              ])
            ])
    ]

Step-IsSound :
    (n : ℕ) (v w : World)
    → IsSound n v
    → (step : Step v w) → (start : World) (r : Reach start v)
    → (m : ℕ) × (m + busy_rounds (next r step) ≤ n + busy_rounds r) × IsSound m w
Step-IsSound n v w sound (round ran) start r = elim (Bool-cases (is_busy v)) [
  | inl busy ↦
      let (m, less, sound') = rw (ran, busy) at (supervise-IsLess n v sound) in
      (m, rw busy (omega (arith, less)), sound')
  | inr calm ↦ (n, rw calm (omega arith), rw (ran, calm) at (supervise-IsLess n v sound))
]
Step-IsSound n v w sound (idle_cpu c known idle ran) start r =
    (n, omega arith, rw ran at (run_idle-IsSound c v sound known idle))

-- What a run has done and what is left to do make up no more than there was at the start.
reached :
    (n : ℕ) (start w : World)
    → IsSound n start
    → (r : Reach start w) → (m : ℕ) × (m + busy_rounds r ≤ n) × IsSound m w
reached n start w sound (begun same) = (n, omega arith, rw same sound)
reached n start w sound (next {v} r step) =
    let (m, le, sound') = reached n start v sound r in
    let (k, le', sound'') = Step-IsSound m v w sound' step start r in
    (k, omega (arith, le, le'), sound'')

supervise-IsSound : (n : ℕ) (w : World) → IsSound n w → Returns (IsSound n) (supervise w)
supervise-IsSound n w sound =
    Returns-mono _ (IsSound n) (supervise w) (supervise-IsLess n w sound) λ v r.
      elim (Bool-cases (is_busy w)) [
        | inl busy ↦ let (m, less, (xs, h)) = rw busy at r in (xs, relax (omega (arith, less)) h)
        | inr calm ↦ rw calm at r
      ]

module _ (atoi : String → ℤ) (strtoul : String → ℕ) (garbage : ℕ → Option ℕ) where
  -- However many rounds of the supervisor have run, and whichever idle CPUs have scheduled between
  -- them, since `start_simulator` began with what `main` gives it: some list is the ready queue, with
  -- exactly the ready processes, each once; no two CPUs run the same process, exactly the running
  -- processes are on a CPU, and `current` of student.c agrees; exactly the waiting processes are in
  -- the I/O queue, each once; exactly the processes not created yet are new; every program counter
  -- fits the state of its process; and `processes_terminated` is the number of terminated processes.
  pub reached-IsSound :
      (cpus : ℕ) (options : ℕ × ℤ) (start w : World)
      → start_simulator cpus (main_student atoi strtoul garbage options) ≡ some start
      → Reach start w
      → IsSound all_work w
  reached-IsSound cpus options start w started r =
      let begin = begun-Sound atoi strtoul garbage cpus options start started in
      let (m, le, (xs, h)) = reached all_work start w ([], begin) r in
      (xs, relax (omega (arith, le)) h)

  -- In every world that the simulation reaches, the next round of the supervisor runs to its end,
  -- and so does the scheduling of every CPU that has no process: no null pointer is dereferenced, no
  -- assertion fails, and no program is read past its last operation.
  pub reached-runs_on :
      (cpus : ℕ) (options : ℕ × ℤ) (start w : World)
      → start_simulator cpus (main_student atoi strtoul garbage options) ≡ some start
      → Reach start w
      → ((v : World) × (supervise w ≡ some v))
        × ((c : ℕ)
            → c < w.simulator.cpu_count
            → (w.simulator.cpu_data c).current ≡ none
            → (v : World) × (run_idle c w ≡ some v))
  reached-runs_on cpus options start w started r =
      let sound = reached-IsSound cpus options start w started r in
      (
        Returns-some (IsSound all_work) (supervise w) (supervise-IsSound all_work w sound),
        λ c known idle.
            Returns-some (IsSound all_work) (run_idle c w) (run_idle-IsSound c w sound known idle),
      )

  -- In a run of the simulation, however long and however its CPUs take turns, no more than 1167
  -- rounds begin, while processes have yet to terminate, with a process on a CPU or in the I/O
  -- queue; these rounds and what is left to do make up no more than 1167.
  pub busy_rounds-le :
      (cpus : ℕ) (options : ℕ × ℤ) (start w : World)
      → start_simulator cpus (main_student atoi strtoul garbage options) ≡ some start
      → (r : Reach start w) → busy_rounds r + work w ≤ all_work
  busy_rounds-le cpus options start w started r =
      let begin = begun-Sound atoi strtoul garbage cpus options start started in
      let (m, le, (xs, h)) = reached all_work start w ([], begin) r in omega (arith, le, h.budget)
