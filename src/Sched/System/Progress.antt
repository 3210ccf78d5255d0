-- ===== src/Sched/System/Progress.antt =====
-- The simulation of os-sim.c does not come to a standstill before every process has terminated.
use Prim.Native.String.{String}
use ece.Prelude.{
  ℕ, zero, suc, ◌<◌, ◌≤◌, ◌≡◌, ◌≢◌, ◌⊎◌, inl, inr, refl, sym, ap, ◌∙◌, true, false, Option, none,
  some, List, [], ◌∷◌, ◌∈◌, ltb, ◌==◌, arith, Bool-cases, Option-cases, Returns, Returns-bind,
  Returns-some, ℤ,
}
use native.Mathlib.Decide.{ℕ_discrete}
use ece.Sched.Types.{
  ProcessState, ready, running, waiting, terminated, CpuData, IoRequest, Student, Simulator, World,
  process_count,
}
use ece.Sched.Queue.Pop.{longest-served}
use ece.Sched.Student.{schedule, settle, set_cpu_state}
use ece.Sched.Handlers.{chosen, Schedules, schedule-Schedules}
use ece.Sched.Simulator.{start_simulator, run_idle}
use ece.Sched.Main.{main_student}
use ece.Sched.System.Work.{tally-less}
use ece.Sched.System.Sound.{Sound}
use ece.Sched.System.Leave.{queue_room}
use ece.Sched.System.Start.{all_work}
use ece.Sched.System.Reach.{Reach, some_busy, is_busy, reached-IsSound}

some_busy-some :
    (n : ℕ) (cpus : ℕ → CpuData) (c p : ℕ)
    → c < n
    → (cpus c).current ≡ some p
    → some_busy n cpus ≡ true
some_busy-some zero cpus c p q at = absurd (omega arith)
some_busy-some (suc n) cpus c p q at = elim (ℕ_discrete n c) [
  | yes same ↦ ground (arith, ap (λ (a : ℕ). (cpus a).current) same)
  | no other ↦ ground (arith, some_busy-some n cpus c p (omega (arith, other)) at)
]

some_busy-none :
    (n : ℕ) (cpus : ℕ → CpuData) (c : ℕ)
    → some_busy n cpus ≡ false
    → c < n
    → (cpus c).current ≡ none
some_busy-none n cpus c calm q = elim (Option-cases ((cpus c).current)) [
  | inl e ↦ e
  | inr (p, at) ↦ let bad : true ≡ false = sym (some_busy-some n cpus c p q at) ∙ calm in cc
]

-- Every algorithm chooses some process of a queue that has one.
chosen-some : (s : Student) (x : ℕ) (xs : List ℕ) → (p : ℕ) × (chosen s (x ∷ xs) ≡ some p)
chosen-some s x xs = elim (Bool-cases (s.scheduling_alg == b'l')) [
  | inl e ↦ let (p, at) = longest-served s.processes x xs in (p, rw e at)
  | inr e ↦ (x, rw e refl)
]

-- The CPU 0 has no process, and the ready queue has one: it takes a process.
takes :
    {n : ℕ} {w : World} (x : ℕ) (xs : List ℕ)
    → Sound n none w (x ∷ xs)
    → w.simulator.processes_terminated < process_count
    → Returns (λ v. is_busy v ≡ true) (run_idle 0 w)
unfolding run_idle settle set_cpu_state
takes {n} {w} x xs h more =
    Returns-bind (Schedules 0 w (x ∷ xs)) (λ v. is_busy v ≡ true) (schedule 0 w) _
      (schedule-Schedules 0 w (x ∷ xs) h.queue.chain (queue_room h) (λ a m. (h.queue.queued a m).0)
        h.some_cpu)
      λ v _ r.
        let (p, at) = chosen-some w.student x xs in
        let at' = r.dispatched ∙ at in
        let m = (settle 0 v).simulator in
        let count = ap (λ (m : Simulator). m.cpu_count) r.simulator in
        let ended = ap (λ (m : Simulator). m.processes_terminated) r.simulator in
        let busy =
          some_busy-some m.cpu_count m.cpu_data 0 p (omega (arith, count, h.some_cpu))
            (ground (arith, at')) in
        ground (arith, busy, ended)

-- In a calm world the CPUs have no process, and the I/O queue is empty.
calm_lem :
    (w : World)
    → w.simulator.processes_terminated < process_count
    → is_busy w ≡ false
    → ((c : ℕ) → c < w.simulator.cpu_count → (w.simulator.cpu_data c).current ≡ none)
      × (w.simulator.io_queue ≡ [])
calm_lem w more calm =
    let m = w.simulator in
    (
      λ c q. some_busy-none m.cpu_count m.cpu_data c (ground arith) q,
      empty w.simulator.io_queue (ground arith),
    )
  where
    empty : (io : List IoRequest) → (elim io [ [] ↦ false | r ∷ queue ↦ true ]) ≡ false → io ≡ []
    empty [] e = refl
    empty (r ∷ queue) e = cc

-- Where all processes were created and the world is calm, a process that has not terminated is in
-- the ready queue.
some_ready :
    {n : ℕ} {w : World} (xs : List ℕ)
    → Sound n none w xs
    → w.simulator.processes_terminated < process_count
    → process_count ≤ w.simulator.processes_created
    → is_busy w ≡ false
    → (x : ℕ) × (x ∈ xs)
some_ready {n} {w} xs h more all calm =
    let (idle, empty) = calm_lem w more calm in
    let (a, below, lives) = tally-less w.student.processes (omega (arith, more, h.finished)) in
    (
      a,
      h.queue.complete a below
          (only_ready ((w.student.processes a).state) a below refl lives idle empty),
    )
  where
    only_ready :
        (state : ProcessState) (a : ℕ)
        → a < process_count
        → (w.student.processes a).state ≡ state
        → (w.student.processes a).state ≢ terminated
        → ((c : ℕ) → c < w.simulator.cpu_count → (w.simulator.cpu_data c).current ≡ none)
        → w.simulator.io_queue ≡ []
        → (w.student.processes a).state ≡ ready
    only_ready ProcessState.new a below e lives idle empty =
        absurd (h.created a (omega (arith, all)) e)
    only_ready ready a below e lives idle empty = e
    only_ready running a below e lives idle empty =
        let (c, known, _, at) = h.cpus.placed a below e in
        let bad : none ≡ some a = sym (idle c known) ∙ at in cc
    only_ready waiting a below e lives idle empty =
        let m = rw empty at (h.io.complete a below e) in cc
    only_ready terminated a below e lives idle empty = absurd (lives e)

module _ (atoi : String → ℤ) (strtoul : String → ℕ) (garbage : ℕ → Option ℕ) where
  -- In every world that the simulation reaches while fewer than all processes have terminated, some
  -- CPU has a process or a process waits for I/O, so that the next round works; or processes are
  -- still to be created; or CPU 0 is idle, and its scheduling, which succeeds, gives it a process.
  pub reached-works_on :
      (cpus : ℕ) (options : ℕ × ℤ) (start w : World)
      → start_simulator cpus (main_student atoi strtoul garbage options) ≡ some start
      → Reach start w
      → w.simulator.processes_terminated < process_count
      → (is_busy w ≡ true)
        ⊎ ((w.simulator.processes_created < process_count)
            ⊎ (((w.simulator.cpu_data 0).current ≡ none)
                × ((v : World) × (run_idle 0 w ≡ some v) × (is_busy v ≡ true))))
  reached-works_on cpus options start w started r more =
      let (xs, h) = reached-IsSound atoi strtoul garbage cpus options start w started r in
      elim (Bool-cases (is_busy w)) [
        | inl busy ↦ inl busy
        | inr calm ↦ elim (Bool-cases (ltb w.simulator.processes_created process_count)) [
          | inl few ↦ inr (inl (ground arith))
          | inr all ↦
              let (x, m) = some_ready xs h more (ground arith) calm in
              let (v, ran, busy) = go xs x m h in
              inr (inr ((calm_lem w more calm).0 0 h.some_cpu, (v, ran, busy)))
        ]
      ]
    where
      go :
          (xs : List ℕ) (x : ℕ)
          → x ∈ xs
          → Sound all_work none w xs
          → (v : World) × (run_idle 0 w ≡ some v) × (is_busy v ≡ true)
      go [] x m h = cc
      go (y ∷ xs) x m h =
          let ran = takes y xs h more in
          let (v, e) = Returns-some (λ v. is_busy v ≡ true) (run_idle 0 w) ran in
          (v, e, rw e at ran)
