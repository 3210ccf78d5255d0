-- ===== src/Vm/Checked.antt =====
-- The passes of `check_validity` (Virtual_Memory/simulator-src/pagesim.c), one by one.
use ece.Prelude.{
  ℕ, suc, ◌-◌, ◌<◌, ◌≡◌, ◌≢◌, ◌⊎◌, ◌↔◌, inl, inr, refl, sym, ap, ◌∙◌, true, false, not, ◌||◌, ◌&&◌,
  Option, none, some, ltb, leb, ◌==◌, update, arith, Bool-cases, some-eq-some, Checks,
}
use ece.Vm.Types.{num_frames, max_pid, Vm}
use ece.Vm.Simulator.{proc_running}
use ece.Vm.Validity.{Marks, check_ptbr, check_protected, check_owner, check_frame, check_mapped}
use ece.Vm.Consistency.{IsTable, IsHeld, IsOwned}

-- What `check_ptbr` asks of a process.
abbrev pub IsTabled : Vm → ℕ → Type 0
IsTabled v pid =
    (v.procs pid).state ≡ proc_running
    → let t = (v.procs pid).saved_ptbr in
      (t ≢ 0) × (t < num_frames) × ((v.frame_table t).protected ≢ 0)

-- The marks after the processes below `k`.
abbrev pub Protects : Vm → ℕ → Marks → Type 0
Protects v k marks =
    (f : ℕ)
    → (marks f ≡ true) ↔ (
        (f ≡ 0)
        ⊎ ((pid : ℕ) × (pid < k)
            × ((v.procs pid).state ≡ proc_running)
            × ((v.procs pid).saved_ptbr ≡ f)))

pub check_ptbr-Checks :
    (v : Vm) (pid : ℕ) (marks : Marks)
    → Protects v pid marks
    → Checks (IsTabled v pid) (Protects v (suc pid)) (check_ptbr v pid marks)
unfolding check_ptbr
check_ptbr-Checks v pid marks h =
    let t = (v.procs pid).saved_ptbr in
    elim (Bool-cases ((v.procs pid).state == proc_running)) [
      | inr other ↦ rw other (
        (λ runs. ground arith),
        λ f. (
          λ m. elim ((h f).0 m) [
            | inl zero_frame ↦ inl zero_frame
            | inr (p, below, runs, at) ↦ inr (p, omega arith, runs, at)
          ],
          λ why. (h f).1 (elim why [
            | inl zero_frame ↦ inl zero_frame
            | inr (p, below, runs, at) ↦
                let ne : p ≢ pid = λ same. ground (arith, ap (λ (x : ℕ). (v.procs x).state) same) in
                inr (p, omega (arith, ne), runs, at)
          ]),
        ),
      )
      | inl runs ↦ elim (Bool-cases ((t == 0) || ltb num_frames t)) [
        | inl bad ↦ rw (runs, bad) (λ good. let (a, b, c) = good (ground arith) in ground arith)
        | inr fine ↦ elim (Bool-cases (leb num_frames t || ((v.frame_table t).protected == 0))) [
          | inl bad ↦
              rw (runs, fine, bad) (λ good. let (a, b, c) = good (ground arith) in ground arith)
          | inr fine' ↦
              rw (runs, fine, fine')
                (
                  (λ e. (ground arith, ground arith, ground arith)),
                  λ f. elim (Bool-cases (f == t)) [
                    | inl same ↦
                        rw same
                          ((λ m. inr (pid, omega arith, ground arith, ground arith)), λ why. refl)
                    | inr other ↦ rw other (
                      λ m. elim ((h f).0 m) [
                        | inl zero_frame ↦ inl zero_frame
                        | inr (p, below, now, at) ↦ inr (p, omega arith, now, at)
                      ],
                      λ why. (h f).1 (elim why [
                        | inl zero_frame ↦ inl zero_frame
                        | inr (p, below, now, at) ↦
                            let ne : p ≢ pid =
                              λ same. ground (arith, ap (λ (x : ℕ). (v.procs x).saved_ptbr) same) in
                            inr (p, omega (arith, ne), now, at)
                      ]),
                    )
                  ],
                )
        ]
      ]
    ]

pub check_protected-Checks :
    (v : Vm) (marks : Marks) (pfn : ℕ) (same : Marks)
    → Checks
        ((v.frame_table pfn).protected ≢ 0 → marks pfn ≡ true)
        (λ m. m ≡ same)
        (check_protected v marks pfn same)
unfolding check_protected
check_protected-Checks v marks pfn same =
    elim (Bool-cases (not ((v.frame_table pfn).protected == 0) && not (marks pfn))) [
      | inl bad ↦ rw bad (λ good. let m = good (ground arith) in ground arith)
      | inr fine ↦ rw fine ((λ ne. ground arith), refl)
    ]

-- Every frame that is mapped has its mark.
pub check_mapped-Checks :
    (v : Vm) (pfn : ℕ) (marks same : Marks)
    → marks ≡ same
    → Checks
        ((v.frame_table pfn).protected ≡ 0 → (v.frame_table pfn).mapped ≢ 0 → same pfn ≡ true)
        (λ m. m ≡ same)
        (check_mapped v pfn marks)
unfolding check_mapped
check_mapped-Checks v pfn marks same e =
    let f = v.frame_table pfn in
    elim (Bool-cases ((f.protected == 0) && (not (f.mapped == 0) && not (marks pfn)))) [
      | inl bad ↦ rw bad (λ good.
          let m = good (ground arith) (ground arith) in ground (arith, ap (λ (x : Marks). x pfn) e))
      | inr fine ↦ rw fine ((λ a b. ground (arith, ap (λ (x : Marks). x pfn) e)), e)
    ]

-- Before the page `j` of the process `k`, in the order of the passes.
abbrev pub Before : ℕ → ℕ → ℕ → ℕ → Type 0
Before k j pid vpn = (pid < k) ⊎ ((pid ≡ k) × (vpn < j))

-- The marks on mapped frames when the pass has come to the page `j` of the process `k`.
pub record Accounted (v : Vm) (k j : ℕ) (marks : Marks) : Type 0 where
  pub marked :
      (f : ℕ) → marks f ≡ true → (o : IsOwned v f) × Before k j o.pid o.vpn × IsHeld v o.pid o.vpn f
  pub all_marked : (f : ℕ) (o : IsOwned v f) → Before k j o.pid o.vpn → marks f ≡ true

-- A frame holds one page of one process.
held_once :
    {v : Vm} {pid vpn pid' vpn' f : ℕ}
    → IsHeld v pid vpn f
    → IsHeld v pid' vpn' f
    → (pid ≡ pid') × (vpn ≡ vpn')
held_once {v} h h' =
    let same : h.holder ≡ h'.holder = some-eq-some (sym h.process ∙ h'.process) in
    (
      sym h.same_pid ∙ ap (λ (p : ℕ). (v.procs p).pid) same ∙ h'.same_pid,
      sym h.same_vpn ∙ h'.same_vpn,
    )

module _ (v : Vm) (protected : Marks) (guarded : Protects v max_pid protected) (pid vpn : ℕ) where
  check_owner-Checks :
      (f : ℕ) (holder : Option ℕ) (marks : Marks)
      → (v.frame_table f).process ≡ holder
      → f < num_frames
      → (f ≢ 0) × ¬ IsTable v f
      → Checks
          (IsHeld v pid vpn f)
          (λ m. m ≡ update marks f true)
          (check_owner v pid vpn f holder marks)
  unfolding check_owner
  check_owner-Checks f none marks at small free = λ h. let bad = sym at ∙ h.process in cc
  check_owner-Checks f (some p) marks at small free = elim (Bool-cases (leb max_pid p)) [
    | inl bad ↦
        rw bad
          (λ h. let same = some-eq-some (sym at ∙ h.process) in ground (arith, h.in_procs, same))
    | inr fine ↦
        let e = v.frame_table f in
        elim (Bool-cases
          ((e.mapped == 0) || (not ((v.procs p).pid == pid) || not (e.vpn == vpn)))) [
            | inl bad ↦
                rw (fine, bad)
                  (λ h.
                    let same = some-eq-some (sym at ∙ h.process) in
                    ground (
                      arith,
                      h.mapped,
                      h.same_vpn,
                      h.same_pid,
                      ap (λ (x : ℕ). (v.procs x).pid) same,
                    ))
            | inr fine' ↦
                rw (fine, fine')
                  (
                    record {
                      holder = p;
                      in_memory = small;
                      unprotected = free;
                      process = at;
                      in_procs = ground arith;
                      mapped = ground arith;
                      same_pid = ground arith;
                      same_vpn = ground arith;
                    },
                    refl,
                  )
          ]
  ]

  pub check_frame-Checks :
      (f : ℕ) (marks : Marks)
      → Accounted v pid vpn marks
      → Checks
          (IsHeld v pid vpn f)
          (λ m. m ≡ update marks f true)
          (check_frame v protected pid vpn f marks)
  unfolding check_frame
  check_frame-Checks f marks h = elim (Bool-cases ((f == 0) || ltb (num_frames - 1) f)) [
    | inl bad ↦ rw bad (λ k. ground (arith, k.in_memory, k.unprotected.0))
    | inr range ↦ elim (Bool-cases (protected f)) [
      | inl guard ↦
          rw (range, guard)
            (λ k. elim ((guarded f).0 guard) [
              | inl zero_frame ↦ k.unprotected.0 zero_frame
              | inr (p, below, runs, at) ↦ k.unprotected.1 (p, (below, runs), at)
            ])
      | inr free ↦ elim (Bool-cases (marks f)) [
        | inl taken ↦
            rw (range, free, taken)
              (λ k.
                let (o, before, k') = h.marked f taken in
                let (same, same') = held_once k k' in
                elim before [
                  | inl earlier ↦ omega (arith, earlier, same)
                  | inr (_, earlier) ↦ omega (arith, earlier, same')
                ])
        | inr unused ↦
            rw (range, free, unused)
              (check_owner-Checks f ((v.frame_table f).process) marks refl (ground arith) (
                ground arith,
                λ (p, (below, runs), at).
                    let guard = (guarded f).1 (inr (p, below, runs, at)) in
                    let bad : false ≡ true = sym free ∙ guard in cc,
              ))
      ]
    ]
  ]
