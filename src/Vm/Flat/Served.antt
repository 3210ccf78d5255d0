-- ===== src/Vm/Flat/Served.antt =====
-- An access to memory by the process whose page table is loaded, with the page fault that it may
-- take (`mem_access` of Virtual_Memory/student-src/paging.c).
use ece.Prelude.{
  ℕ, suc, ◌<◌, ◌%◌, ◌≡◌, inl, inr, refl, ap, ◌∙◌, ◌==◌, arith, some, Bool-cases, Returns,
  Returns-bind, Returns-mono, Returns-imply, if◌then◌else◌,
}
use ece.Vm.Types.{page_size, num_frames, Pte, Vm}
use ece.Vm.Paging.{page_fault, vaddr_vpn, set_fte, mem_access}
use ece.Vm.Victim.{IsEvictable}
use ece.Vm.Frames.{SameCpu, SameCpu-trans}
use ece.Vm.Entries.{page_fault-Faulted}
use ece.Vm.Flat.Contents.{Memory}
use ece.Vm.Flat.Paged.{Paged, Paged-remark, Paged-room, referenced-SameMarks, read_pte-some}
use ece.Vm.Flat.Spec.{after_access, accessed}
use ece.Vm.Flat.Fault.{Brings, page_fault-Brings}
use ece.Vm.Flat.Access.{Serves, access-Serves}

module _ (runs : ℕ → Type 0) (table_at : ℕ → ℕ) (live : ℕ → ℕ → Type 0) where
  module _ (m : Memory) (room address p f : ℕ) (entries : ℕ → ℕ → Pte) (v : Vm)
      (h : Paged runs table_at live m (suc room) entries v)
      (tables : (q : ℕ) → (v.procs q).saved_ptbr ≡ table_at q)
      (current : v.current_process ≡ some p) (ptbr : v.ptbr ≡ table_at p)
      (lives : live p (vaddr_vpn address)) (open_frame : IsEvictable v.frame_table f) where
    -- The page is in memory behind the test of the valid bit.
    bring :
        Returns
          (λ t. Brings runs table_at live m room p (vaddr_vpn address) t × SameCpu v t)
          (if (entries p (vaddr_vpn address)).valid == 0 then page_fault address v else some v)
    bring = elim (Bool-cases ((entries p (vaddr_vpn address)).valid == 0)) [
      | inl fault ↦ rw fault (
          Returns-imply (Brings runs table_at live m room p (vaddr_vpn address))
            (λ t. Brings runs table_at live m room p (vaddr_vpn address) t × SameCpu v t)
            (page_fault address v)
            (page_fault-Brings runs table_at live m room entries address p f v h tables current
              lives (ground arith) open_frame)
            λ t e b. (b, (page_fault-Faulted address p v t current e).same_cpu))
      | inr present ↦ rw present (
        record { entries = entries; paged = Paged-room h room (omega arith); valid = ground arith },
        record { ptbr = refl; procs = refl; current_process = refl; replacement = refl },
      )
    ]

    -- An access gives the byte of the memory and leaves the memory after it. The frame that the entry
    -- points to is marked as referenced, which changes nothing else.
    pub mem_access-Serves :
        (kind byte : ℕ)
        → Returns
            (Serves runs table_at live
              (after_access p (vaddr_vpn address) (address % page_size) kind byte m)
              room
              (accessed p (vaddr_vpn address) (address % page_size) kind byte m)
              v)
            (mem_access address kind byte v)
    unfolding mem_access
    mem_access-Serves kind byte =
        let n = vaddr_vpn address in
        let (runs_p, in_table) = h.lives p n lives in
        let holds = ap v.mem ptbr ∙ (h.tables.table p runs_p).holds in
        let in_memory : v.ptbr < num_frames =
          omega (arith, ptbr, (h.tables.table p runs_p).in_memory) in
        let Goal =
          Serves runs table_at live (after_access p n (address % page_size) kind byte m) room
            (accessed p n (address % page_size) kind byte m) v in
        rw (read_pte-some v v.ptbr n (entries p) in_memory holds in_table) (
          Returns-bind (λ t. Brings runs table_at live m room p n t × SameCpu v t) Goal
            (if (entries p n).valid == 0 then page_fault address v else some v) _ bring
            λ t _ (b, same).
              let ptbr' = same.ptbr ∙ ptbr in
              let in_memory' : t.ptbr < num_frames = omega (arith, same.ptbr, in_memory) in
              let holds' = ap t.mem ptbr' ∙ (b.paged.tables.table p runs_p).holds in
              let e = b.entries p n in
              let t' =
                set_fte e.pfn (let g = t.frame_table e.pfn in record g { referenced = 1 }) t in
              let paged =
                Paged-remark b.paged t'.frame_table (referenced-SameMarks t.frame_table e.pfn 1) in
              let before : SameCpu v t' = record {
                ptbr = same.ptbr;
                procs = same.procs;
                current_process = same.current_process;
                replacement = same.replacement;
              } in
              rw (read_pte-some t t.ptbr n (b.entries p) in_memory' holds' in_table) (
                Returns-mono
                  (Serves runs table_at live (after_access p n (address % page_size) kind byte m)
                    room (accessed p n (address % page_size) kind byte m) t')
                  Goal _
                  (access-Serves runs table_at live m room address p b.entries t' paged lives
                    b.valid byte kind ptbr')
                  λ r s. record {
                    byte = s.byte;
                    entries = s.entries;
                    paged = s.paged;
                    same_cpu = SameCpu-trans before s.same_cpu;
                  }))
