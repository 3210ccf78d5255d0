-- ===== src/Sched/System/Rounds.antt =====
-- A round of the supervisor of os-sim.c, and a CPU that was idle, keep the simulation sound.
use ece.Prelude.{
  ℕ, zero, suc, ◌+◌, ◌%◌, ◌≤◌, ◌<◌, ◌≡◌, ◌⊎◌, inl, inr, refl, sym, ap, ◌∙◌, none, some, List, [],
  ◌∷◌, arith, Option-cases, Returns, Returns-mono, Returns-bind,
}
use native.Mathlib.Decide.{ℕ_discrete}
use ece.Sched.Types.{Pcb, CpuData, IoRequest, Simulator, World, process_count}
use ece.Sched.Student.{schedule}
use ece.Sched.Handlers.{Schedules, schedule-Schedules}
use ece.Sched.Simulator.{
  u32_mod, count_states, simulate_process, simulate_cpus, simulate_io, simulate_creat,
  supervise_round, run_idle,
}
use ece.Sched.System.Sound.{Sound}
use ece.Sched.System.Fill.{Schedules-Sound}
use ece.Sched.System.Leave.{IsSound, IsLess, queue_room, quiet}
use ece.Sched.System.Process.{settle-IsSound, simulate_process-IsLess}
use ece.Sched.System.Io.{simulate_io-IsLess}
use ece.Sched.System.Create.{simulate_creat-IsSound}

-- A CPU with a process is one that exists.
existing :
    {n : ℕ} {w : World} {xs : List ℕ} (c p : ℕ)
    → Sound n none w xs
    → (w.simulator.cpu_data c).current ≡ some p
    → c < w.simulator.cpu_count
existing c p h at = ground (arith, h.unused c)

-- No CPU from `first` on, of the next `count`, has a process.
abbrev pub AllIdle : ℕ → ℕ → World → Type 0
AllIdle first count w =
    (c : ℕ) → first ≤ c → c < first + count → (w.simulator.cpu_data c).current ≡ none

-- A pass over the CPUs runs a process, or finds none and does nothing.
simulate_cpus-IsLess :
    (n rounds first : ℕ) (w : World)
    → IsSound n w
    → Returns (λ v. IsLess n v ⊎ ((v ≡ w) × AllIdle first rounds w)) (simulate_cpus rounds first w)
unfolding simulate_cpus
simulate_cpus-IsLess n zero first w sound = inr (refl, λ c le less. absurd (omega arith))
simulate_cpus-IsLess n (suc rounds) first w (xs, h) =
    elim (Option-cases ((w.simulator.cpu_data first).current)) [
      | inl idle ↦ rw idle (
          Returns-mono _ _ (simulate_cpus rounds (suc first) w)
            (simulate_cpus-IsLess n rounds (suc first) w (xs, h))
            λ v r. elim r [
              | inl less ↦ inl less
              | inr (same, rest) ↦ inr (
                same,
                λ c le below. elim (ℕ_discrete c first) [
                  | yes here ↦ rw here idle
                  | no other ↦ rest c (omega (arith, other)) (omega arith)
                ],
              )
            ])
      | inr (p, at) ↦ rw at (
          Returns-bind (IsLess n) _ (simulate_process first p w) _
            (simulate_process-IsLess h (existing first p h at) at)
            λ v _ (m, less, sound).
              Returns-mono _ _ (simulate_cpus rounds (suc first) v)
                (simulate_cpus-IsLess m rounds (suc first) v sound)
                λ u r. inl (elim r [
                  | inl (k, below, sound') ↦ (k, omega (arith, below, less), sound')
                  | inr (same, _) ↦ (m, less, rw same sound)
                ]))
    ]

-- What the counting of states leaves alone.
record Counted (m m' : Simulator) : Type 0 where
  cpu_count : m'.cpu_count ≡ m.cpu_count
  cpu_data : m'.cpu_data ≡ m.cpu_data
  io_queue : m'.io_queue ≡ m.io_queue
  terminated : m'.processes_terminated ≡ m.processes_terminated
  created : m'.processes_created ≡ m.processes_created

count_states-Counted :
    (rounds n : ℕ) (procs : ℕ → Pcb) (m : Simulator) → Counted m (count_states rounds n procs m)
unfolding count_states
count_states-Counted zero n procs m = record {
  cpu_count = refl;
  cpu_data = refl;
  io_queue = refl;
  terminated = refl;
  created = refl;
}
count_states-Counted (suc rounds) n procs m =
    let h = count_states-Counted rounds (suc n) procs _ in
    record {
      cpu_count = h.cpu_count ∙ ground arith;
      cpu_data = h.cpu_data ∙ ground arith;
      io_queue = h.io_queue ∙ ground arith;
      terminated = h.terminated ∙ ground arith;
      created = h.created ∙ ground arith;
    }

abbrev counted : World → World
counted w = record w { simulator = count_states process_count 0 w.student.processes w.simulator }

counted-IsSound : {n : ℕ} (w : World) → IsSound n w → IsSound n (counted w)
counted-IsSound w (xs, h) =
    let same = count_states-Counted process_count 0 w.student.processes w.simulator in
    (
      xs,
      quiet h refl same.cpu_count (λ c. ap (λ (f : ℕ → CpuData). (f c).current) same.cpu_data)
          same.io_queue same.created same.terminated,
    )

-- The head of the I/O queue has less to wait, or the queue is empty and nothing happens.
simulate_io-IsSound :
    (n : ℕ) (w : World)
    → IsSound n w
    → (io : List IoRequest) → w.simulator.io_queue ≡ io
    → Returns (λ v. IsLess n v ⊎ ((v ≡ w) × (w.simulator.io_queue ≡ []))) (simulate_io io w)
simulate_io-IsSound n w (xs, h) [] at = unfold simulate_io in inr (refl, at)
simulate_io-IsSound n w (xs, h) (r ∷ queue) at =
    Returns-mono (IsLess n) _ (simulate_io (r ∷ queue) w) (simulate_io-IsLess h r queue at)
      λ v less. inl less

-- No CPU has a process, and nobody waits for I/O.
abbrev pub IsQuiet : World → Type 0
IsQuiet w = AllIdle 0 w.simulator.cpu_count w × (w.simulator.io_queue ≡ [])

abbrev pub Advances : ℕ → World → World → Type 0
Advances n w v = IsLess n v ⊎ (IsSound n v × IsQuiet w)

-- After the pass over the CPUs.
io_next :
    (n : ℕ) (w : World)
    → IsSound n w
    → (a : World) → IsLess n a ⊎ ((a ≡ counted w) × AllIdle 0 w.simulator.cpu_count (counted w))
    → Returns (Advances n w) (simulate_io a.simulator.io_queue a)
io_next n w sound a (inl (m, less, sound')) =
    Returns-mono _ (Advances n w) (simulate_io a.simulator.io_queue a)
      (simulate_io-IsSound m a sound' a.simulator.io_queue refl)
      λ v r. inl (elim r [
        | inl (k, below, sound'') ↦ (k, omega (arith, below, less), sound'')
        | inr (same, _) ↦ (m, less, rw same sound')
      ])
io_next n w sound a (inr (same, idle)) =
    let kept = count_states-Counted process_count 0 w.student.processes w.simulator in
    let sound' : IsSound n a = rw same (counted-IsSound w sound) in
    Returns-mono _ (Advances n w) (simulate_io a.simulator.io_queue a)
      (simulate_io-IsSound n a sound' a.simulator.io_queue refl)
      λ v r. elim r [
        | inl less ↦ inl less
        | inr (same', empty) ↦ inr (
          rw same' sound',
          (
            (λ c le below.
                sym (ap (λ (f : ℕ → CpuData). (f c).current) kept.cpu_data) ∙ idle c le below),
            sym kept.io_queue ∙ sym (ap (λ (u : World). u.simulator.io_queue) same) ∙ empty,
          ),
        )
      ]

after_creation : {n : ℕ} (w b : World) → Advances n w b → Returns (Advances n w) (simulate_creat b)
after_creation {n} w b (inl (m, less, (xs, h))) =
    Returns-mono (IsSound m) (Advances n w) (simulate_creat b) (simulate_creat-IsSound h)
      λ v sound. inl (m, less, sound)
after_creation {n} w b (inr ((xs, h), at_rest)) =
    Returns-mono (IsSound n) (Advances n w) (simulate_creat b) (simulate_creat-IsSound h)
      λ v sound. inr (sound, at_rest)

tick_on :
    (n : ℕ) (v : World)
    → IsSound n v
    → IsSound n (record v {
      simulator = record (v.simulator) {
        simulator_time = (v.simulator.simulator_time + 1) % u32_mod;
      };
    })
tick_on n v (xs, h) = (xs, quiet h refl refl (λ d. refl) refl refl refl)

-- A round does not fail; it leaves less to do, unless no CPU has a process and nobody waits.
pub supervise_round-Advances :
    (n : ℕ) (w : World) → IsSound n w → Returns (Advances n w) (supervise_round w)
unfolding supervise_round
supervise_round-Advances n w sound =
    Returns-bind _ (Advances n w) (simulate_cpus w.simulator.cpu_count 0 (counted w)) _
      (simulate_cpus-IsLess n w.simulator.cpu_count 0 (counted w) (counted-IsSound w sound))
      λ a _ r.
        Returns-bind (Advances n w) (Advances n w) (simulate_io a.simulator.io_queue a) _
          (io_next n w sound a r)
          λ b _ r'.
            Returns-bind (Advances n w) (Advances n w) (simulate_creat b) _ (after_creation w b r')
              λ c _ r''. elim r'' [
                | inl (m, less, sound') ↦ inl (m, less, tick_on m c sound')
                | inr (sound', at_rest) ↦ inr (tick_on n c sound', at_rest)
              ]

-- A CPU without a process may take the place of one that has just lost it.
vacant :
    {n : ℕ} {w : World} {xs : List ℕ} (c : ℕ)
    → Sound n none w xs
    → (w.simulator.cpu_data c).current ≡ none
    → Sound n (some c) w xs
vacant c h idle = record {
  queue = h.queue;
  cpus = record {
    runs = λ d p known ne at. h.cpus.runs d p known (λ e. cc) at;
    once = λ d d' p known known' ne ne'. h.cpus.once d d' p known known' (λ e. cc) (λ e. cc);
    placed = λ a q e.
        let (d, known, ne, at) = h.cpus.placed a q e in (d, known, (λ same. ground arith), at);
  };
  io = h.io;
  programs = h.programs;
  few_created = h.few_created;
  created = h.created;
  to_come = h.to_come;
  uncounted = h.uncounted;
  budget = h.budget;
  finished = h.finished;
  some_cpu = h.some_cpu;
  unused = h.unused;
}

pub run_idle-IsSound :
    {n : ℕ} (c : ℕ) (w : World)
    → IsSound n w
    → c < w.simulator.cpu_count
    → (w.simulator.cpu_data c).current ≡ none
    → Returns (IsSound n) (run_idle c w)
unfolding run_idle
run_idle-IsSound {n} c w (xs, h) known idle =
    Returns-bind (Schedules c w xs) (IsSound n) (schedule c w) _
      (schedule-Schedules c w xs h.queue.chain (queue_room h) (λ a m. (h.queue.queued a m).0) known)
      λ v _ r. settle-IsSound c v (_, Schedules-Sound known (vacant c h idle) r)
