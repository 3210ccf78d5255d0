-- ===== src/Sched/System/Sound.antt =====
-- What holds between the rounds of the supervisor of os-sim.c and the handlers of student.c.
use ece.Prelude.{
  ℕ, ◌≤◌, ◌<◌, ◌≡◌, ◌≢◌, Bool, true, false, not, ◌&&◌, Option, none, some, List, [], ◌∷◌, map, ◌∈◌,
  Distinct,
}
use ece.Sched.Types.{
  ProcessState, ready, running, waiting, terminated, OpType, Op, Student, IoRequest, Simulator,
  World, process_count,
}
use ece.Sched.Queue.Chain.{Chain}
use ece.Sched.System.Work.{work, tally}

-- A program that goes on with a burst of computing (`burst`), or with what follows a burst: more of
-- them, a request for I/O and then a burst, or the end.
abbrev pub goes_on : Bool → List Op → Bool
goes_on burst [] = false
goes_on burst (op ∷ rest) = elim op.kind [
  | OpType.cpu ↦ goes_on false rest
  | OpType.io ↦ not burst && goes_on true rest
  | OpType.terminate ↦ not burst
]

-- The program counter of a process that waits is at its request.
abbrev pub at_request : List Op → Bool
at_request [] = false
at_request (op ∷ rest) = elim op.kind [ OpType.io ↦ goes_on true rest | _ ↦ false ]

abbrev pub fits_state : ProcessState → List Op → Bool
fits_state waiting pc = at_request pc
fits_state terminated pc = true
fits_state _ pc = goes_on true pc

-- The processes that wait for I/O, in the order of their requests.
abbrev pub requesters : List IoRequest → List ℕ
requesters = map (λ (r : IoRequest). r.pcb)

-- What `xs` says of the ready queue.
pub record IsQueue (s : Student) (xs : List ℕ) : Type 0 where
  pub chain : Chain s.processes s.head xs
  pub queued : (a : ℕ) → a ∈ xs → (a < process_count) × ((s.processes a).state ≡ ready)
  pub complete : (a : ℕ) → a < process_count → (s.processes a).state ≡ ready → a ∈ xs

-- What the CPUs run, but for the CPU `skip`, which has just lost its process.
pub record IsPlaced (skip : Option ℕ) (s : Student) (m : Simulator) : Type 0 where
  pub runs :
      (c p : ℕ)
      → c < m.cpu_count
      → skip ≢ some c
      → (m.cpu_data c).current ≡ some p
      → (p < process_count) × ((s.processes p).state ≡ running) × (s.current c ≡ some p)
  pub once :
      (c d p : ℕ)
      → c < m.cpu_count
      → d < m.cpu_count
      → skip ≢ some c
      → skip ≢ some d
      → (m.cpu_data c).current ≡ some p
      → (m.cpu_data d).current ≡ some p
      → c ≡ d
  pub placed :
      (a : ℕ)
      → a < process_count
      → (s.processes a).state ≡ running
      → (c : ℕ) × (c < m.cpu_count) × (skip ≢ some c) × ((m.cpu_data c).current ≡ some a)

-- What the I/O queue says of the processes.
pub record IsServed (s : Student) (io : List IoRequest) : Type 0 where
  pub distinct : Distinct (requesters io)
  pub requested :
      (a : ℕ) → a ∈ requesters io → (a < process_count) × ((s.processes a).state ≡ waiting)
  pub complete : (a : ℕ) → a < process_count → (s.processes a).state ≡ waiting → a ∈ requesters io

-- The simulation between two events, with `xs` the ready queue and no more than `n` left to do.
pub record Sound (n : ℕ) (skip : Option ℕ) (w : World) (xs : List ℕ) : Type 0 where
  pub queue : IsQueue w.student xs
  pub cpus : IsPlaced skip w.student w.simulator
  pub io : IsServed w.student w.simulator.io_queue
  pub programs :
      (a : ℕ)
      → a < process_count
      → fits_state (w.student.processes a).state (w.student.processes a).pc ≡ true
  pub few_created : w.simulator.processes_created ≤ process_count
  pub created :
      (a : ℕ) → a < w.simulator.processes_created → (w.student.processes a).state ≢ ProcessState.new
  pub to_come :
      (a : ℕ)
      → a < process_count
      → w.simulator.processes_created ≤ a
      → (w.student.processes a).state ≡ ProcessState.new
  pub uncounted : w.student.cpu_count ≡ 0
  pub budget : work w ≤ n
  pub finished : w.simulator.processes_terminated ≡ tally w.student.processes
  pub some_cpu : 0 < w.simulator.cpu_count
  pub unused : (c : ℕ) → w.simulator.cpu_count ≤ c → (w.simulator.cpu_data c).current ≡ none
