-- ===== src/Vm/Restart.antt =====
-- A process that is stopped and started again (`proc_cleanup` and `proc_init` of paging.c in
-- Virtual_Memory/student-src, and the commands of simulator-src/pagesim.c).
use ece.Prelude.{
  ℕ, zero, suc, ◌≡◌, refl, ◌∙◌, true, some, ◌==◌, if◌then◌else◌, ◌>>=◌, arith, Bool-cases, inl, inr,
}
use ece.Vm.Types.{num_pages, Pte, Vm}
use ece.Vm.Swap.{swap_free}
use ece.Vm.Paging.{
  read_pte, write_pte, unmap, free_frame, cleanup_page, cleanup_pages, proc_cleanup, proc_init,
}
use ece.Vm.Simulator.{is_current, switch_to, set_pcb, start_process, stop_process}
use ece.Vm.Frames.{SameCpu, SameCpu-trans, >>=-eq-some, write_pte-SameCpu, free_frame-SameCpu}

-- The end of a round for an entry with or without swapped-out data.
clean_entry :
    (table i : ℕ) (e : Pte) (v t : Vm)
    → (if e.swap == 0 then some v else do
      (e', q) ← swap_free v.swap_queue e
      write_pte table i e' (record v { swap_queue = q }))
      ≡ some t
    → SameCpu v t
clean_entry table i e v t h = elim (Bool-cases (e.swap == 0)) [
  | inl unswapped ↦ ground arith
  | inr swapped ↦
      let h' : (swap_free v.swap_queue e >>= λ (e', q).
      write_pte table i e' (record v { swap_queue = q }))
          ≡ some t =
        rw swapped at h in
      let (r, freed, written) = >>=-eq-some (swap_free v.swap_queue e) _ h' in
      let before : SameCpu v (record v { swap_queue = r.1 }) = ground arith in
      SameCpu-trans before (write_pte-SameCpu table i r.0 (record v { swap_queue = r.1 }) t written)
]

cleanup_page-SameCpu : (table i : ℕ) (v t : Vm) → cleanup_page table i v ≡ some t → SameCpu v t
unfolding cleanup_page unmap
cleanup_page-SameCpu table i v t h =
    let (e, read, h₁) = >>=-eq-some (read_pte v table i) _ h in
    let (v₁, unmapped, h₂) = >>=-eq-some (if e.valid == 0 then some v else unmap e.pfn v) _ h₁ in
    let before : SameCpu v v₁ = ground arith in SameCpu-trans before (clean_entry table i e v₁ t h₂)

cleanup_pages-SameCpu :
    (table rounds i : ℕ) (v t : Vm) → cleanup_pages table rounds i v ≡ some t → SameCpu v t
unfolding cleanup_pages
cleanup_pages-SameCpu table zero i v t h = ground arith
cleanup_pages-SameCpu table (suc rounds) i v t h =
    let (v₁, cleaned, h₁) = >>=-eq-some (cleanup_page table i v) _ h in
    SameCpu-trans (cleanup_page-SameCpu table i v v₁ cleaned)
      (cleanup_pages-SameCpu table rounds (suc i) v₁ t h₁)

pub proc_cleanup-SameCpu : (p : ℕ) (v t : Vm) → proc_cleanup p v ≡ some t → SameCpu v t
unfolding proc_cleanup
proc_cleanup-SameCpu p v t h =
    let (v₁, cleaned, h₁) = >>=-eq-some (cleanup_pages (v.procs p).saved_ptbr num_pages 0 v) _ h in
    SameCpu-trans (cleanup_pages-SameCpu _ num_pages 0 v v₁ cleaned) (ground arith)

stop_process_lem :
    (p : ℕ) (v t : Vm)
    → stop_process p v ≡ some t
    → (t.current_process ≡ v.current_process) × (t.ptbr ≡ v.ptbr)
unfolding stop_process
stop_process_lem p v t h =
    let (v₁, cleaned, h₁) = >>=-eq-some (proc_cleanup p v) _ h in
    let same = proc_cleanup-SameCpu p v v₁ cleaned in
    (ground (arith, same.current_process), ground (arith, same.ptbr))

start_process_lem :
    (p : ℕ) (v t : Vm)
    → start_process p v ≡ some t
    → (t.current_process ≡ v.current_process) × (t.ptbr ≡ v.ptbr) × ((t.procs p).pid ≡ p)
unfolding start_process proc_init
start_process_lem p v t h =
    let w = (let pcb = v.procs p in set_pcb p (record pcb { pid = p; state = 1 }) v) in
    let (r, freed, h₁) = >>=-eq-some (free_frame w) _ h in
    let same = free_frame-SameCpu w r.1 r.0 freed in
    let procs : r.1.procs ≡ w.procs = same.procs in
    let pid : (r.1.procs p).pid ≡ p = rw procs (ground arith) in
    (ground (arith, same.current_process), ground (arith, same.ptbr), ground (arith, pid))

-- When the current process is stopped and started again, and both succeed, its next access makes
-- no context switch, so that the page table base is still the one from before the stop.
pub restart_keeps_ptbr :
    (p : ℕ) (v t u : Vm)
    → v.current_process ≡ some p
    → stop_process p v ≡ some t
    → start_process p t ≡ some u
    → (switch_to p u ≡ u) × ((switch_to p u).ptbr ≡ v.ptbr)
unfolding switch_to is_current
restart_keeps_ptbr p v t u current stopped started =
    let (current', ptbr) = stop_process_lem p v t stopped in
    let (current'', ptbr', pid) = start_process_lem p t u started in
    let is_p = current'' ∙ current' ∙ current in
    let same : ((u.procs p).pid == p) ≡ true = ground arith in
    (rw (is_p, same) refl, rw (is_p, same) (ptbr' ∙ ptbr))
