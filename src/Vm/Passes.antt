-- ===== src/Vm/Passes.antt =====
-- `check_validity` of Virtual_Memory/simulator-src/pagesim.c passes exactly on a consistent machine.
use ece.Prelude.{
  ℕ, suc, ◌<◌, ◌≡◌, ◌≢◌, inl, inr, refl, sym, ap, ◌∙◌, true, false, not, ◌||◌, ◌&&◌, Option, none,
  some, ◌==◌, if◌then◌else◌, ◌>>=◌, update, arith, Bool-cases, Option-cases, some-eq-some, Checks,
  Checks-bind, Checks-iff,
}
use native.Mathlib.Decide.{ℕ_discrete}
use ece.Vm.Types.{num_pages, max_pid, Pte, Vm}
use ece.Vm.Swap.{swap_queue_find}
use ece.Vm.Paging.{read_pte}
use ece.Vm.Validity.{Marks, check_frame, check_swap, check_entry, check_page}
use ece.Vm.Consistency.{IsRunning, IsHeld, IsEntry, IsOwned, IsPage}
use ece.Vm.Checked.{Protects, Accounted, check_frame-Checks}

check_swap-Checks :
    (v : Vm) (swap : ℕ) (marks : Marks) (P : Marks → Type 0)
    → P marks
    → Checks
        (swap ≢ 0 → (a : ℕ) × (swap_queue_find v.swap_queue swap ≡ some (some a)))
        P
        (check_swap v swap marks)
unfolding check_swap
check_swap-Checks v swap marks P p = elim (Bool-cases (swap == 0)) [
  | inl e ↦ rw e ((λ ne. absurd (ground (arith, ne))), p)
  | inr ne ↦ rw ne (go (swap_queue_find v.swap_queue swap) (ground arith))
]
  where
    go :
        (r : Option (Option ℕ))
        → swap ≢ 0
        → Checks
            (swap ≢ 0 → (a : ℕ) × (r ≡ some (some a)))
            P
            (r >>= λ found. found >>= λ a. some marks)
    go none ne = λ good. let (a, bad) = good ne in cc
    go (some none) ne = λ good. let (a, bad) = good ne in cc
    go (some (some a)) ne = ((λ z. (a, refl)), p)

-- An owner at the page that is looked at has its entry.
same_entry :
    {v : Vm} {f pid vpn : ℕ} {e : Pte} (o : IsOwned v f)
    → read_pte v (v.procs pid).saved_ptbr vpn ≡ some e
    → o.pid ≡ pid
    → o.vpn ≡ vpn
    → o.entry ≡ e
same_entry {v} {f} {pid} {vpn} o read same same' =
    let there : read_pte v (v.procs o.pid).saved_ptbr o.vpn
        ≡ read_pte v (v.procs pid).saved_ptbr vpn =
      ap (λ (x : ℕ). read_pte v (v.procs x).saved_ptbr o.vpn) same
      ∙ ap (λ (y : ℕ). read_pte v (v.procs pid).saved_ptbr y) same' in
    some-eq-some (sym o.read ∙ there ∙ read)

module _ (v : Vm) (protected : Marks) (guarded : Protects v max_pid protected) (pid : ℕ)
    (runs : IsRunning v pid) where
  module _ (vpn : ℕ) (in_table : vpn < num_pages) (e : Pte)
      (read : read_pte v (v.procs pid).saved_ptbr vpn ≡ some e) where
    unmarked :
        (marks : Marks) → Accounted v pid vpn marks → e.valid ≡ 0 → Accounted v pid (suc vpn) marks
    unmarked marks h invalid = record {
      marked = λ f m.
          let (o, before, held) = h.marked f m in
          (o, elim before [ inl a ↦ inl a | inr (a, b) ↦ inr (a, omega (arith, b)) ], held);
      all_marked = λ f o before. h.all_marked f o (elim before [
        | inl a ↦ inl a
        | inr (a, b) ↦
            let ne : o.vpn ≢ vpn =
              λ same. o.valid (ap (λ (x : Pte). x.valid) (same_entry o read a same) ∙ invalid) in
            inr (a, omega (arith, b, ne))
      ]);
    }

    newly_marked :
        (marks : Marks)
        → Accounted v pid vpn marks
        → e.valid ≢ 0
        → IsHeld v pid vpn e.pfn
        → Accounted v pid (suc vpn) (update marks e.pfn true)
    newly_marked marks h valid held = record {
      marked = λ f m. elim (ℕ_discrete f e.pfn) [
        | yes same ↦ (
          record {
            pid = pid;
            vpn = vpn;
            entry = e;
            runs = runs;
            in_table = in_table;
            read = read;
            valid = valid;
            points = sym same;
          },
          inr (refl, omega arith),
          rw same held,
        )
        | no other ↦
            let (o, before, held') = h.marked f (ground (arith, m)) in
            (o, elim before [ inl a ↦ inl a | inr (a, b) ↦ inr (a, omega (arith, b)) ], held')
      ];
      all_marked = λ f o before. elim (ℕ_discrete f e.pfn) [
        | yes same ↦ rw same (ground arith)
        | no other ↦
            let old = h.all_marked f o (elim before [
              | inl a ↦ inl a
              | inr (a, b) ↦
                  let ne : o.vpn ≢ vpn = λ same.
                    other (sym o.points ∙ ap (λ (x : Pte). x.pfn) (same_entry o read a same)) in
                  inr (a, omega (arith, b, ne))
            ]) in
            ground (arith, old)
      ];
    }

    check_pfn-Checks :
        (marks : Marks)
        → Accounted v pid vpn marks
        → Checks
            (e.valid ≢ 0 → IsHeld v pid vpn e.pfn)
            (Accounted v pid (suc vpn))
            (if e.valid == 0 then some marks else check_frame v protected pid vpn e.pfn marks)
    check_pfn-Checks marks h = elim (ℕ_discrete e.valid 0) [
      | yes invalid ↦
          let test : (e.valid == 0) ≡ true = ground arith in
          rw test ((λ ne. absurd (ne invalid)), unmarked marks h invalid)
      | no valid ↦
          let test : (e.valid == 0) ≡ false = ground arith in
          let r = check_frame v protected pid vpn e.pfn marks in
          rw test (go r (check_frame-Checks v protected guarded pid vpn e.pfn marks h) valid)
    ]
      where
        go :
            (r : Option Marks)
            → Checks (IsHeld v pid vpn e.pfn) (λ m. m ≡ update marks e.pfn true) r
            → e.valid ≢ 0
            → Checks (e.valid ≢ 0 → IsHeld v pid vpn e.pfn) (Accounted v pid (suc vpn)) r
        go none bad valid = λ good. bad (good valid)
        go (some m) (held, same) valid = ((λ ne. held), rw same (newly_marked marks h valid held))

    check_entry-Checks :
        (marks : Marks)
        → Accounted v pid vpn marks
        → Checks
            (IsEntry v pid vpn e)
            (Accounted v pid (suc vpn))
            (check_entry v protected pid vpn e marks)
    unfolding check_entry
    check_entry-Checks marks h =
        elim (Bool-cases (
          (not (e.valid == 0) && not (e.valid == 1))
          || (not (e.dirty == 0) && not (e.dirty == 1)))) [
            | inl bad ↦ rw bad (λ k. ground (arith, k.flags))
            | inr fine ↦ rw fine (
                Checks-iff _ (IsEntry v pid vpn e) (Accounted v pid (suc vpn))
                  (Accounted v pid (suc vpn)) _
                  (Checks-bind (e.valid ≢ 0 → IsHeld v pid vpn e.pfn)
                    (e.swap ≢ 0 → (a : ℕ) × (swap_queue_find v.swap_queue e.swap ≡ some (some a)))
                    (Accounted v pid (suc vpn)) (Accounted v pid (suc vpn)) _ (check_swap v e.swap)
                    (check_pfn-Checks marks h)
                    λ m p _. check_swap-Checks v e.swap m (Accounted v pid (suc vpn)) p)
                  (λ (held, swapped). record {
                    flags = (ground arith, ground arith);
                    held = held;
                    swapped = swapped;
                  })
                  (λ k. (k.held, k.swapped)) λ m p. p)
          ]

  pub check_page-Checks :
      (vpn : ℕ) (marks : Marks)
      → vpn < num_pages
      → Accounted v pid vpn marks
      → Checks (IsPage v pid vpn) (Accounted v pid (suc vpn)) (check_page v protected pid vpn marks)
  unfolding check_page
  check_page-Checks vpn marks in_table h =
      elim (Option-cases (read_pte v (v.procs pid).saved_ptbr vpn)) [
        | inl none_there ↦ rw none_there (λ (e, read, k). cc (read))
        | inr (e, read) ↦ rw read (
            Checks-iff (IsEntry v pid vpn e) _ (Accounted v pid (suc vpn))
              (Accounted v pid (suc vpn)) (check_entry v protected pid vpn e marks)
              (check_entry-Checks vpn in_table e read marks h) (λ k. (e, refl, k))
              (λ (e', read', k). rw (some-eq-some read') k) λ m p. p)
      ]
