-- ===== src/Vm/Verdict.antt =====
-- The verdict of `check_validity` of Virtual_Memory/simulator-src/pagesim.c.
use ece.Prelude.{
  ℕ, suc, ◌+◌, ◌≤◌, ◌<◌, ◌≡◌, ◌≢◌, ◌⊎◌, ◌↔◌, inl, inr, refl, sym, ap, ◌∙◌, true, false, Option,
  none, some, ltb, ◌==◌, ◌>>=◌, update, arith, Bool-cases, for_each, for_each-Checks, Checks,
  Checks-bind, Checks-iff,
}
use native.Mathlib.Decide.{ℕ_discrete}
use ece.Vm.Types.{num_pages, num_frames, max_pid, Vm}
use ece.Vm.Simulator.{proc_running}
use ece.Vm.Validity.{
  Marks, no_marks, check_ptbr, check_protected, check_page, check_table, check_tables,
  check_validity, check_mapped,
}
use ece.Vm.Consistency.{IsTable, IsOwned, IsPage, IsConsistent}
use ece.Vm.Checked.{
  IsTabled, Protects, Accounted, check_ptbr-Checks, check_protected-Checks, check_mapped-Checks,
}
use ece.Vm.Passes.{check_page-Checks}

abbrev HasPages : Vm → ℕ → Type 0
HasPages v pid =
    (v.procs pid).state ≡ proc_running
    → (vpn : ℕ) → 0 ≤ vpn
    → vpn < 0 + num_pages
    → IsPage v pid vpn

module _ (v : Vm) (protected : Marks) (guarded : Protects v max_pid protected) where
  -- A whole table, or a process that does not run, is passed.
  passed :
      (pid : ℕ) (marks : Marks) → Accounted v pid num_pages marks → Accounted v (suc pid) 0 marks
  passed pid marks h = record {
    marked = λ f m.
        let (o, before, held) = h.marked f m in
        (o, elim before [ inl a ↦ inl (omega arith) | inr (a, b) ↦ inl (omega (arith, a)) ], held);
    all_marked = λ f o before. h.all_marked f o (elim before [
      | inl a ↦ elim (ℕ_discrete o.pid pid) [
        | yes same ↦ inr (same, o.in_table)
        | no other ↦ inl (omega (arith, a, other))
      ]
      | inr (a, b) ↦ absurd (omega (arith, b))
    ]);
  }

  stopped :
      (pid : ℕ) (marks : Marks)
      → (v.procs pid).state ≢ proc_running
      → Accounted v pid 0 marks
      → Accounted v (suc pid) 0 marks
  stopped pid marks ne h = record {
    marked = λ f m.
        let (o, before, held) = h.marked f m in
        (o, elim before [ inl a ↦ inl (omega arith) | inr (a, b) ↦ inl (omega (arith, a)) ], held);
    all_marked = λ f o before. h.all_marked f o (elim before [
      | inl a ↦
          let other : o.pid ≢ pid =
            λ same. ne (ap (λ (x : ℕ). (v.procs x).state) (sym same) ∙ o.runs.1) in
          inl (omega (arith, a, other))
      | inr (a, b) ↦ absurd (omega (arith, b))
    ]);
  }

  check_table-Checks :
      (pid : ℕ) (marks : Marks)
      → pid < max_pid
      → Accounted v pid 0 marks
      → Checks (HasPages v pid) (Accounted v (suc pid) 0) (check_table v protected pid marks)
  unfolding check_table
  check_table-Checks pid marks below h = elim (ℕ_discrete ((v.procs pid).state) proc_running) [
    | no ne ↦
        let test : ((v.procs pid).state == proc_running) ≡ false = ground (arith, ne) in
        rw test ((λ e. absurd (ne e)), stopped pid marks ne h)
    | yes runs ↦
        let test : ((v.procs pid).state == proc_running) ≡ true = ground arith in
        rw test (
          Checks-iff ((vpn : ℕ) → 0 ≤ vpn → vpn < 0 + num_pages → IsPage v pid vpn) _
            (Accounted v pid num_pages) (Accounted v (suc pid) 0)
            (for_each num_pages 0 (check_page v protected pid) marks)
            (for_each-Checks (IsPage v pid) (Accounted v pid) (check_page v protected pid) num_pages
              0 marks
              (λ vpn m a b p. check_page-Checks v protected guarded pid (below, runs) vpn m b p) h)
            (λ good e. good) (λ good. good runs) (λ m p. passed pid m p))
  ]

  nothing_marked : Accounted v 0 0 no_marks
  nothing_marked = record {
    marked = λ f m. cc m;
    all_marked = λ f o before. elim before [
      | inl a ↦ absurd (omega arith)
      | inr (a, b) ↦ absurd (omega arith)
    ];
  }

module _ (v : Vm) where
  abbrev OnlyTable : ℕ → Type 0
  OnlyTable f = (v.frame_table f).protected ≢ 0 → (f ≡ 0) ⊎ IsTable v f

  abbrev HasOwner : ℕ → Type 0
  HasOwner f = (v.frame_table f).protected ≡ 0 → (v.frame_table f).mapped ≢ 0 → IsOwned v f

  first_mark : Protects v 0 (update no_marks 0 true)
  first_mark f = (
    λ m. inl (ground arith),
    λ why. elim why [ inl e ↦ ground arith | inr (p, below, runs, at) ↦ absurd (omega arith) ],
  )

  last_pass :
      (mapped : Marks)
      → Accounted v max_pid 0 mapped
      → Checks
          ((f : ℕ) → 0 ≤ f → f < 0 + num_frames → HasOwner f)
          (λ m. m ≡ mapped)
          (for_each num_frames 0 (check_mapped v) mapped)
  last_pass mapped h =
      for_each-Checks HasOwner (λ i m. m ≡ mapped) (check_mapped v) num_frames 0 mapped
        (λ f m a b same.
          Checks-iff _ (HasOwner f) (λ x. x ≡ mapped) (λ x. x ≡ mapped) (check_mapped v f m)
            (check_mapped-Checks v f m mapped same) (λ good free ne. (h.marked f (good free ne)).0)
            (λ good free ne. let o = good free ne in h.all_marked f o (inl (o.runs.0))) λ x e. e)
        refl

  table_pass :
      (protected : Marks)
      → Protects v max_pid protected
      → Checks
          ((pid : ℕ) → 0 ≤ pid → pid < 0 + max_pid → HasPages v pid)
          (Accounted v max_pid 0)
          (for_each max_pid 0 (check_table v protected) no_marks)
  table_pass protected guarded =
      for_each-Checks (HasPages v) (λ i m. Accounted v i 0 m) (check_table v protected) max_pid 0
        no_marks (λ pid m a b p. check_table-Checks v protected guarded pid m b p)
        (nothing_marked v protected guarded)

  protected_pass :
      (protected : Marks)
      → Protects v max_pid protected
      → Checks
          ((f : ℕ) → 0 ≤ f → f < 0 + num_frames → OnlyTable f)
          (λ m. m ≡ protected)
          (for_each num_frames 0 (check_protected v protected) protected)
  protected_pass protected guarded =
      for_each-Checks OnlyTable (λ i m. m ≡ protected) (check_protected v protected) num_frames 0
        protected
        (λ f m a b same. elim (Bool-cases (protected f)) [
          | inl marked ↦
              Checks-iff _ (OnlyTable f) (λ x. x ≡ m) (λ x. x ≡ protected)
                (check_protected v protected f m) (check_protected-Checks v protected f m)
                (λ good ne. elim ((guarded f).0 marked) [
                  | inl e ↦ inl e
                  | inr (p, below, runs, at) ↦ inr (p, (below, runs), at)
                ])
                (λ good ne. marked) λ x e. e ∙ same
          | inr unmarked ↦
              Checks-iff _ (OnlyTable f) (λ x. x ≡ m) (λ x. x ≡ protected)
                (check_protected v protected f m) (check_protected-Checks v protected f m)
                (λ good ne. let bad : false ≡ true = sym unmarked ∙ good ne in cc)
                (λ good ne. (guarded f).1 (elim (good ne) [
                  | inl e ↦ inl e
                  | inr (p, (below, runs), at) ↦ inr (p, below, runs, at)
                ]))
                λ x e. e ∙ same
        ])
        refl

  abbrev Passes : Type 0
  Passes =
      ((pid : ℕ) → 0 ≤ pid → pid < 0 + max_pid → IsTabled v pid)
      × ((f : ℕ) → 0 ≤ f → f < 0 + num_frames → OnlyTable f)
      × ((pid : ℕ) → 0 ≤ pid → pid < 0 + max_pid → HasPages v pid)
      × ((f : ℕ) → 0 ≤ f → f < 0 + num_frames → HasOwner f)

  check_tables-Checks : Checks Passes (λ m. ℕ) (check_tables v)
  unfolding check_tables
  check_tables-Checks =
      Checks-iff _ Passes (λ m. ℕ) (λ m. ℕ) _
        (Checks-bind _ _ (Protects v max_pid) (λ m. ℕ)
          (for_each max_pid 0 (check_ptbr v) (update no_marks 0 true)) _
          (for_each-Checks (IsTabled v) (Protects v) (check_ptbr v) max_pid 0
            (update no_marks 0 true) (λ pid m a b p. check_ptbr-Checks v pid m p) first_mark)
          λ protected guarded _.
            Checks-bind _ _ (λ m. m ≡ protected) (λ m. ℕ)
              (for_each num_frames 0 (check_protected v protected) protected) _
              (protected_pass protected guarded)
              λ same _ _.
                Checks-bind _ _ (Accounted v max_pid 0) (λ m. ℕ)
                  (for_each max_pid 0 (check_table v protected) no_marks) _
                  (table_pass protected guarded)
                  λ mapped h _.
                    Checks-iff _ _ (λ m. m ≡ mapped) (λ m. ℕ)
                      (for_each num_frames 0 (check_mapped v) mapped) (last_pass mapped h)
                      (λ good. good) (λ good. good) λ x e. 0)
        (λ (a, (b, (c, d))). (a, b, c, d)) (λ (a, b, c, d). (a, (b, (c, d)))) λ x e. 0

  passes-IsConsistent : (v.frame_table 0).protected ≢ 0 → Passes → IsConsistent v
  passes-IsConsistent first (tabled, only, pages, owned) = record {
    frame_zero = first;
    tables = λ pid (below, runs). tabled pid (omega arith) below runs;
    only_tables = λ f small ne. only f (omega arith) small ne;
    pages = λ pid vpn (below, runs) q. pages pid (omega arith) below runs vpn (omega arith) q;
    owned = λ f small free ne. owned f (omega arith) small free ne;
  }

  IsConsistent-passes : IsConsistent v → Passes
  IsConsistent-passes h = (
    λ pid a below runs. h.tables pid (below, runs),
    λ f a small ne. h.only_tables f small ne,
    λ pid a below runs vpn b q. h.pages pid vpn (below, runs) q,
    λ f a small free ne. h.owned f small free ne,
  )

  -- With checking on (`checks` is not 0), `check_validity` comes to its end without a panic exactly
  -- when the machine is consistent: frame 0 is protected, and otherwise just the frames of the page
  -- tables of running processes, which lie in memory; each page of a running process has flags 0 or
  -- 1, a swap entry that is there if it names one, and if it is valid a frame that is none of these and
  -- that the frame table gives to this page of this process; and each frame that is mapped, and not
  -- protected, has such a page.
  pub check_validity-IsConsistent :
      (checks : ℕ) → 0 < checks → (check_validity checks v ≡ some v) ↔ IsConsistent v
  unfolding check_validity
  check_validity-IsConsistent checks more =
      let on : ltb checks 1 ≡ false = ground arith in
      elim (Bool-cases ((v.frame_table 0).protected == 0)) [
        | inl bare ↦ rw bare ((λ bad. cc bad), λ h. absurd (h.frame_zero (ground arith)))
        | inr first ↦ rw (first, on) (go (check_tables v) check_tables-Checks (ground arith))
      ]
    where
      go :
          (r : Option Marks)
          → Checks Passes (λ m. ℕ) r
          → (v.frame_table 0).protected ≢ 0
          → ((r >>= λ marks. some v) ≡ some v) ↔ IsConsistent v
      go none bad first = ((λ e. cc e), λ h. absurd (bad (IsConsistent-passes h)))
      go (some m) (good, _) first = ((λ e. passes-IsConsistent first good), λ h. refl)
