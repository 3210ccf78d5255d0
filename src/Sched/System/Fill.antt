-- ===== src/Sched/System/Fill.antt =====
-- A CPU that has lost its process gets one from the ready queue (`schedule` of student.c).
use mathlib.Core.List.{head?, tail}
use ece.Prelude.{
  ℕ, ◌≤◌, ◌<◌, ◌≡◌, ◌≢◌, ◌⊎◌, ◌↔◌, inl, inr, sym, ap, ◌∙◌, Bool, Option, none, some, List, [], ◌∷◌,
  ◌∈◌, arith, ◌==◌, Bool-cases, Distinct, is_some_or, some-eq-some,
}
use native.Mathlib.Decide.{ℕ_discrete}
use ece.Sched.Types.{ready, running, Pcb, Student, CpuData, Simulator, World, process_count}
use ece.Sched.Queue.Chain.{Chain, nil, cons}
use ece.Sched.Queue.Longest.{first_that, erase_first}
use ece.Sched.Queue.Pop.{is_longest}
use ece.Sched.Handlers.{chosen, remaining, Schedules, first_that-∈, chosen-∈}
use ece.Sched.System.Work.{work_of, work_of-same, io_cost, flag, tally-same}
use ece.Sched.System.Sound.{IsQueue, IsPlaced, IsServed, Sound}

pub Chain-Distinct : {procs : ℕ → Pcb} {p : Option ℕ} {xs : List ℕ} → Chain procs p xs → Distinct xs
Chain-Distinct nil = tt
Chain-Distinct (cons e out c) = (out, Chain-Distinct c)

-- Without its first element that passes, a list of distinct elements has the others.
mem-erase_first :
    (test : ℕ → Bool) (a : ℕ) (xs : List ℕ)
    → Distinct xs
    → (a ∈ erase_first test xs) ↔ ((a ∈ xs) × (first_that test xs ≢ some a))
mem-erase_first test a [] d = (λ m. cc, λ m. cc (m.0))
mem-erase_first test a (x ∷ xs) d =
    let ih = mem-erase_first test a xs d.1 in
    elim (Bool-cases (test x)) [
      | inl hit ↦ rw hit (
        λ m. (ground arith, λ e. ground arith),
        λ (m, ne). elim (Bool-cases (a == x)) [
          | inl same ↦ absurd (ne (ground arith))
          | inr other ↦ ground arith
        ],
      )
      | inr pass ↦ rw pass (
        λ m. elim (Bool-cases (a == x)) [
          | inl same ↦ (ground arith, λ e. ground (arith, first_that-∈ test xs a e))
          | inr other ↦ let (old, ne) = ih.0 (ground arith) in (ground arith, ne)
        ],
        λ (m, ne). elim (Bool-cases (a == x)) [
          | inl same ↦ ground arith
          | inr other ↦ ground (arith, ih.1 (ground arith, ne))
        ],
      )
    ]

mem-tail : (a : ℕ) (xs : List ℕ) → Distinct xs → (a ∈ tail xs) ↔ ((a ∈ xs) × (head? xs ≢ some a))
mem-tail a [] d = (λ m. cc, λ m. cc (m.0))
mem-tail a (x ∷ xs) d = (
  λ m. (ground arith, λ e. ground arith),
  λ (m, ne). elim (Bool-cases (a == x)) [
    | inl same ↦ absurd (ne (ground arith))
    | inr other ↦ ground arith
  ],
)

pub mem-remaining :
    (s : Student) (a : ℕ) (xs : List ℕ)
    → Distinct xs
    → (a ∈ remaining s xs) ↔ ((a ∈ xs) × (chosen s xs ≢ some a))
mem-remaining s a xs d = elim (Bool-cases (s.scheduling_alg == b'l')) [
  | inl e ↦ rw e (mem-erase_first (is_longest s.processes xs) a xs d)
  | inr e ↦ rw e (mem-tail a xs d)
]

module _ {n c : ℕ} {w v : World} {xs : List ℕ} (known : c < w.simulator.cpu_count)
    (h : Sound n (some c) w xs) (r : Schedules c w xs v) where
  abbrev got : Option ℕ
  got = chosen w.student xs

  -- The process that was chosen was ready.
  got_ready : (p : ℕ) → got ≡ some p → (p < process_count) × ((w.student.processes p).state ≡ ready)
  got_ready p e = h.queue.queued p (chosen-∈ w.student xs p e)

  -- The states afterwards, by whether the process was chosen.
  state_now :
      (a : ℕ)
      → ((got ≡ some a) × ((v.student.processes a).state ≡ running))
        ⊎ ((got ≢ some a) × ((v.student.processes a).state ≡ (w.student.processes a).state))
  state_now a = elim (is_some_or got a) [
    | inl e ↦ inl (e, r.is_running a e)
    | inr ne ↦ inr (ne, r.others a ne)
  ]

  same_cpus : v.simulator.cpu_count ≡ w.simulator.cpu_count
  same_cpus = ap (λ (m : Simulator). m.cpu_count) r.simulator

  filled-IsQueue : IsQueue v.student (remaining w.student xs)
  filled-IsQueue = record {
    chain = r.queue;
    queued = λ a m.
        let (old, ne) = (mem-remaining w.student a xs (Chain-Distinct h.queue.chain)).0 m in
        ground (arith, h.queue.queued a old, r.others a ne);
    complete = λ a p e. elim (state_now a) [
      | inl (is_got, now) ↦ absurd (cc (now, e))
      | inr (ne, same) ↦
          (mem-remaining w.student a xs (Chain-Distinct h.queue.chain)).1
            (h.queue.complete a p (sym same ∙ e), ne)
    ];
  }

  -- What another CPU runs it ran before, and it was not chosen.
  module _ (d p : ℕ) (q : d < v.simulator.cpu_count) (other : d ≢ c)
      (e : (v.simulator.cpu_data d).current ≡ some p) where
    ran : (w.simulator.cpu_data d).current ≡ some p
    ran = sym (ap (λ (x : CpuData). x.current) (r.elsewhere d other)) ∙ e

    ran_lem :
        (p < process_count)
        × ((w.student.processes p).state ≡ running)
        × (w.student.current d ≡ some p)
    ran_lem = h.cpus.runs d p (rw (← same_cpus) q) (λ x. other (sym (some-eq-some x))) ran

    not_got : got ≢ some p
    not_got is_got = cc (ran_lem.1, (got_ready p is_got).1)

    runs_on :
        (p < process_count)
        × ((v.student.processes p).state ≡ running)
        × (v.student.current d ≡ some p)
    runs_on = (ran_lem.0, r.others p not_got ∙ ran_lem.1, rw r.current (ground (arith, ran_lem.2)))

  runs_got :
      (d p : ℕ)
      → d ≡ c
      → (v.simulator.cpu_data d).current ≡ some p
      → (got ≡ some p)
        × (p < process_count)
        × ((v.student.processes p).state ≡ running)
        × (v.student.current d ≡ some p)
  runs_got d p same e =
      let is_got : got ≡ some p = sym r.dispatched ∙ (rw same at e) in
      (
        is_got,
        (got_ready p is_got).0,
        r.is_running p is_got,
        rw (r.current, same) (ground (arith, is_got)),
      )

  filled-IsPlaced : IsPlaced none v.student v.simulator
  filled-IsPlaced = record {
    runs = λ d p q ne e. elim (ℕ_discrete d c) [
      | yes same ↦ let (_, below, now, current) = runs_got d p same e in (below, now, current)
      | no other ↦ runs_on d p q other e
    ];
    once = λ d d' p q q' ne ne' e e'. elim (ℕ_discrete d c) [
      | yes at_c ↦ elim (ℕ_discrete d' c) [
        | yes at_c' ↦ at_c ∙ sym at_c'
        | no other ↦ absurd (not_got d' p q' other e' (runs_got d p at_c e).0)
      ]
      | no other ↦ elim (ℕ_discrete d' c) [
        | yes at_c' ↦ absurd (not_got d p q other e (runs_got d' p at_c' e').0)
        | no other' ↦
            h.cpus.once d d' p (rw (← same_cpus) q) (rw (← same_cpus) q')
              (λ x. other (sym (some-eq-some x))) (λ x. other' (sym (some-eq-some x)))
              (ran d p q other e) (ran d' p q' other' e')
      ]
    ];
    placed = λ a p e. elim (state_now a) [
      | inl (is_got, now) ↦ (c, rw same_cpus known, (λ x. cc), r.dispatched ∙ is_got)
      | inr (ne, same) ↦
          let (d, q, skip, at) = h.cpus.placed a p (sym same ∙ e) in
          (
            d,
            rw same_cpus q,
            (λ x. cc),
            ap (λ (x : CpuData). x.current)
                  (r.elsewhere d (λ same_d. skip (ap (λ (n : ℕ). some n) (sym same_d))))
                ∙ at,
          )
    ];
  }

  filled-IsServed : IsServed v.student v.simulator.io_queue
  filled-IsServed =
      let same_io = ap (λ (m : Simulator). m.io_queue) r.simulator in
      rw same_io (record {
        distinct = h.io.distinct;
        requested = λ a m. ground (arith, h.io.requested a m, state_now a, got_ready a);
        complete = λ a p e. ground (arith, h.io.complete a p, state_now a);
      })

  same_flag :
      (a : ℕ)
      → a < process_count
      → flag (v.student.processes a).state ≡ flag (w.student.processes a).state
  same_flag a q = ground (arith, state_now a, got_ready a)

  same_work : work_of v.student.processes ≡ work_of w.student.processes
  same_work =
      work_of-same w.student.processes v.student.processes
        λ a q. ground (arith, state_now a, got_ready a, r.programs a)

  -- The CPU runs the process that was chosen, and the rest of the queue waits.
  pub Schedules-Sound : Sound n none v (remaining w.student xs)
  Schedules-Sound =
      let same_created = ap (λ (m : Simulator). m.processes_created) r.simulator in
      record {
        queue = filled-IsQueue;
        cpus = filled-IsPlaced;
        io = filled-IsServed;
        programs = λ a p. ground (arith, h.programs a p, state_now a, got_ready a, r.programs a);
        few_created = rw same_created h.few_created;
        created = λ a p. ground (arith, same_created, h.created a, state_now a);
        to_come = λ a p q. ground (arith, same_created, h.to_come a p, state_now a, got_ready a);
        uncounted = r.cpu_count ∙ h.uncounted;
        budget =
            omega
              (arith, h.budget, same_work, ap (λ (m : Simulator). io_cost m.io_queue) r.simulator);
        finished =
            ap (λ (m : Simulator). m.processes_terminated) r.simulator
            ∙ h.finished
            ∙ sym (tally-same w.student.processes v.student.processes same_flag);
        some_cpu = rw same_cpus h.some_cpu;
        unused = λ d q.
            let q' : w.simulator.cpu_count ≤ d = rw (← same_cpus) q in
            ap (λ (x : CpuData). x.current) (r.elsewhere d (λ same. omega (arith, same)))
            ∙ h.unused d q';
      }
