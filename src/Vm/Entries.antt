-- ===== src/Vm/Entries.antt =====
-- Page table entries that are read and written, and what a page fault leaves (paging.c and
-- page_fault.c in Virtual_Memory/student-src).
use ece.Prelude.{
  ℕ, ◌<◌, ◌≡◌, refl, ◌∙◌, sym, some, ◌==◌, arith, update, ap, subst, Bool-cases, inl, inr,
  some-eq-some,
}
use ece.Vm.Types.{num_pages, num_frames, Pte, Frame, frames, page_table, page, Vm}
use ece.Vm.Paging.{
  frame_at, read_table, read_pte, write_pte, write_table, free_frame, load_page, page_fault,
  vaddr_vpn,
}
use ece.Vm.Frames.{
  frame_at-some, frame_at-eq-some, SameCpu, SameCpu-trans, >>=-eq-some, free_frame-SameCpu,
}

-- The frame holds a page table with entry `e` at number `vpn`.
pub record HasEntry (f : Frame) (vpn : ℕ) (e : Pte) : Type 0 where
  pub entries : ℕ → Pte
  pub is_table : f ≡ page_table entries
  pub in_range : vpn < num_pages
  pub entry : entries vpn ≡ e

read_table-HasEntry : (f : Frame) (vpn : ℕ) (e : Pte) → read_table f vpn ≡ some e → HasEntry f vpn e
unfolding read_table
read_table-HasEntry frames vpn e h = cc
read_table-HasEntry (page bytes) vpn e h = cc
read_table-HasEntry (page_table entries) vpn e h = record {
  entries = entries;
  is_table = refl;
  in_range = ground arith;
  entry = ground arith;
}

HasEntry-read_table : (f : Frame) (vpn : ℕ) (e : Pte) → HasEntry f vpn e → read_table f vpn ≡ some e
unfolding read_table
HasEntry-read_table f vpn e h = rw (h.is_table, read_table) (ground arith)

write_table-HasEntry :
    (f g : Frame) (vpn : ℕ) (e : Pte) → write_table f vpn e ≡ some g → HasEntry g vpn e
unfolding write_table
write_table-HasEntry frames g vpn e h = cc
write_table-HasEntry (page bytes) g vpn e h = cc
write_table-HasEntry (page_table entries) g vpn e h = record {
  entries = update entries vpn e;
  is_table = ground arith;
  in_range = ground arith;
  entry = ground arith;
}

pub read_pte-HasEntry :
    (v : Vm) (frame vpn : ℕ) (e : Pte)
    → read_pte v frame vpn ≡ some e
    → HasEntry (v.mem frame) vpn e
unfolding read_pte
read_pte-HasEntry v frame vpn e h =
    let (f, at_frame, h') = >>=-eq-some (frame_at frame v) _ h in
    let (_, is_f) = frame_at-eq-some frame v f at_frame in rw is_f (read_table-HasEntry f vpn e h')

pub HasEntry-read_pte :
    (v : Vm) (frame vpn : ℕ) (e : Pte)
    → frame < num_frames
    → HasEntry (v.mem frame) vpn e
    → read_pte v frame vpn ≡ some e
unfolding read_pte
HasEntry-read_pte v frame vpn e in_memory h =
    rw (frame_at-some frame v in_memory) (HasEntry-read_table (v.mem frame) vpn e h)

-- What a write of an entry leaves.
pub record Written (frame vpn : ℕ) (e : Pte) (v t : Vm) : Type 0 where
  pub table : Frame
  pub in_memory : frame < num_frames
  pub has_entry : HasEntry table vpn e
  pub result : t ≡ record v { mem = update v.mem frame table }

pub write_pte-Written :
    (frame vpn : ℕ) (e : Pte) (v t : Vm)
    → write_pte frame vpn e v ≡ some t
    → Written frame vpn e v t
unfolding write_pte
write_pte-Written frame vpn e v t h =
    let (f₀, at_frame, h₀) = >>=-eq-some (frame_at frame v) _ h in
    let (f, written, h') = >>=-eq-some (write_table f₀ vpn e) _ h₀ in
    record {
      table = f;
      in_memory = (frame_at-eq-some frame v f₀ at_frame).0;
      has_entry = write_table-HasEntry f₀ f vpn e written;
      result = ground arith;
    }

-- A page fault of the current process maps the page in the process's page table, if the table
-- survives, and leaves the registers.
pub record Faulted (table vpn : ℕ) (v t : Vm) : Type 0 where
  pub same_cpu : SameCpu v t
  pub mapped : (e : Pte) → HasEntry (t.mem table) vpn e → e.valid ≡ 1

pub HasEntry-unique :
    {f : Frame} {vpn : ℕ} {e e' : Pte} → HasEntry f vpn e → HasEntry f vpn e' → e ≡ e'
HasEntry-unique {f} {vpn} {e} {e'} h k =
    some-eq-some (sym (HasEntry-read_table f vpn e h) ∙ HasEntry-read_table f vpn e' k)

-- A frame that was made a page holds no page table; another one is as before.
pub entry_survives :
    (m : ℕ → Frame) (table frame vpn : ℕ) (contents : ℕ → ℕ) (e : Pte)
    → HasEntry (update m frame (page contents) table) vpn e
    → HasEntry (m table) vpn e
entry_survives m table frame vpn contents e h = elim (Bool-cases (table == frame)) [
  | inl same ↦
      let clash : page contents ≡ page_table h.entries = sym (rw same refl) ∙ h.is_table in cc
  | inr other ↦ subst (λ (f : Frame). HasEntry f vpn e) (rw other refl) h
]

-- The last lines of the handler.
fault_end :
    (address p frame : ℕ) (v v₁ v₂ : Vm) (e : Pte) (contents : ℕ → ℕ) (t : Vm)
    → SameCpu v v₁
    → Written (v.procs p).saved_ptbr (vaddr_vpn address) e v₁ v₂
    → e.valid ≡ 1
    → t.mem ≡ update v₂.mem frame (page contents)
    → SameCpu v₂ t
    → Faulted (v.procs p).saved_ptbr (vaddr_vpn address) v t
fault_end address p frame v v₁ v₂ e contents t before w valid memory after =
    let table = (v.procs p).saved_ptbr in
    let vpn = vaddr_vpn address in
    let middle : SameCpu v₁ v₂ = ground (arith, w.result) in
    let here : v₂.mem table ≡ w.table = ground (arith, w.result) in
    record {
      same_cpu = SameCpu-trans before (SameCpu-trans middle after);
      mapped = λ e' h.
          let h' = subst (λ (m : ℕ → Frame). HasEntry (m table) vpn e') memory h in
          let h'' = entry_survives v₂.mem table frame vpn contents e' h' in
          let same =
            HasEntry-unique (subst (λ (f : Frame). HasEntry f vpn e') here h'') w.has_entry in
          ap (λ (x : Pte). x.valid) same ∙ valid;
    }

fault_from :
    (address p : ℕ) (v t : Vm)
    → v.current_process ≡ some p
    → page_fault address v ≡ some t
    → (q : ℕ) × (v.current_process ≡ some q)
      × Faulted (v.procs q).saved_ptbr (vaddr_vpn address) v t
unfolding page_fault
fault_from address p v t current h =
    let vpn = vaddr_vpn address in
    let (q, is_q, h₁) = >>=-eq-some v.current_process _ h in
    let table = (v.procs q).saved_ptbr in
    let (r, freed, h₂) = >>=-eq-some (free_frame v) _ h₁ in
    let (e, _, h₃) = >>=-eq-some (read_pte r.1 table vpn) _ h₂ in
    let e' = record e { pfn = r.0; valid = 1; dirty = 0 } in
    let (v₂, written, h₄) = >>=-eq-some (write_pte table vpn e' r.1) _ h₃ in
    let (contents, _, h₅) = >>=-eq-some (load_page e' v₂.swap_queue) _ h₄ in
    (
      q,
      is_q,
      fault_end address q r.0 v r.1 v₂ e' contents t (free_frame-SameCpu v r.1 r.0 freed)
          (write_pte-Written table vpn e' r.1 v₂ written) refl (ground arith) (ground arith),
    )

-- Where the handler of a page fault of the current process has come to an end, the registers, the
-- processes and the strategy are as before, and an entry of the process's page table for the
-- faulting page is valid.
pub page_fault-Faulted :
    (address p : ℕ) (v t : Vm)
    → v.current_process ≡ some p
    → page_fault address v ≡ some t
    → Faulted (v.procs p).saved_ptbr (vaddr_vpn address) v t
page_fault-Faulted address p v t current h =
    let (q, is_q, faulted) = fault_from address p v t current h in
    subst (λ (n : ℕ). Faulted (v.procs n).saved_ptbr (vaddr_vpn address) v t)
      (some-eq-some (sym is_q ∙ current)) faulted
