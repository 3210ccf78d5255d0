-- ===== src/Vm/Access.antt =====
-- `mem_access` of Virtual_Memory/student-src/paging.c: a byte that is written is read again.
use ece.Prelude.{
  ℕ, ◌<◌, ◌/◌, ◌%◌, ◌≡◌, refl, ◌∙◌, sym, Bool, false, some, ◌==◌, if◌then◌else◌, arith, update, ap,
  subst, Bool-cases, inl, inr, Returns, some-eq-some,
}
use ece.Vm.Types.{page_size, num_frames, Pte, Frame, frames, page_table, page, Vm}
use ece.Vm.Paging.{
  frame_at, read_pte, write_pte, page_fault, vaddr_vpn, vaddr_offset, physical_address, frame_bytes,
  load, store, set_fte, read_access, write_access, mem_access,
}
use ece.Vm.Frames.{>>=-eq-some, frame_at-some, frame_at-eq-some}
use ece.Vm.Entries.{
  HasEntry, HasEntry-read_pte, read_pte-HasEntry, HasEntry-unique, Written, write_pte-Written,
  entry_survives, page_fault-Faulted,
}

-- What a write of `byte` to the physical address `pa`, through entry `e` of the table in frame
-- `table`, leaves.
record Stored (pa table vpn byte : ℕ) (e : Pte) (t : Vm) : Type 0 where
  bytes : ℕ → ℕ
  in_memory : pa / page_size < num_frames
  table_in_memory : table < num_frames
  holds : t.mem (pa / page_size) ≡ page bytes
  stored : bytes (pa % page_size) ≡ byte
  ptbr : t.ptbr ≡ table
  dirty : HasEntry (t.mem table) vpn (record e { dirty = 1 })

frame_bytes_inv : (f : Frame) (b : ℕ → ℕ) → frame_bytes f ≡ some b → f ≡ page b
unfolding frame_bytes
frame_bytes_inv frames b h = cc
frame_bytes_inv (page_table entries) b h = cc
frame_bytes_inv (page bytes) b h = ground arith

-- A frame that holds a page table is none that holds a page.
other_frame :
    (m : ℕ → Frame) (table f vpn : ℕ) (e : Pte) (b : ℕ → ℕ)
    → HasEntry (m table) vpn e
    → m f ≡ page b
    → (table == f) ≡ false
other_frame m table f vpn e b has h = elim (Bool-cases (table == f)) [
  | inl same ↦
      let eq : table ≡ f = ground arith in
      let clash : page b ≡ page_table has.entries = sym h ∙ sym (ap m eq) ∙ has.is_table in cc
  | inr other ↦ other
]

-- The memory after the byte and then the entry were written.
stored_entry :
    (m : ℕ → Frame) (table f vpn : ℕ) (e e₁ : Pte) (b b' : ℕ → ℕ) (g : Frame)
    → HasEntry (m table) vpn e
    → m f ≡ page b
    → HasEntry (update m f (page b') table) vpn e₁
    → HasEntry g vpn (record e₁ { dirty = 1 })
    → (update (update m f (page b')) table g f ≡ page b')
      × HasEntry (update (update m f (page b')) table g table) vpn (record e { dirty = 1 })
stored_entry m table f vpn e e₁ b b' g has h has₁ has₂ =
    let other = other_frame m table f vpn e b has h in
    let same = HasEntry-unique (entry_survives m table f vpn b' e₁ has₁) has in
    let here : g ≡ update (update m f (page b')) table g table = ground arith in
    (
      ground arith,
      subst (λ (x : Frame). HasEntry x vpn (record e { dirty = 1 })) here
          (subst (λ (x : Pte). HasEntry g vpn (record x { dirty = 1 })) same has₂),
    )

writes_through :
    (pa vpn byte : ℕ) (v v₁ v₂ t : Vm) (e e₁ : Pte) (b : ℕ → ℕ)
    → HasEntry (v.mem v.ptbr) vpn e
    → v.mem (pa / page_size) ≡ page b
    → v₁ ≡ record v { mem = update v.mem (pa / page_size) (page (update b (pa % page_size) byte)) }
    → HasEntry (v₁.mem v₁.ptbr) vpn e₁
    → Written v₁.ptbr vpn (record e₁ { dirty = 1 }) v₁ v₂
    → pa / page_size < num_frames
    → t.mem ≡ v₂.mem
    → t.ptbr ≡ v₂.ptbr
    → Stored pa v.ptbr vpn byte e t
writes_through pa vpn byte v v₁ v₂ t e e₁ b has at_pa is_v₁ has₁ w in_memory same_mem same_ptbr =
    let b' = update b (pa % page_size) byte in
    let table = v.ptbr in
    let has₁' = subst (λ (x : Vm). HasEntry (x.mem x.ptbr) vpn e₁) is_v₁ has₁ in
    let is_v₂ : v₂.mem ≡ update v₁.mem v₁.ptbr w.table = ap (λ (x : Vm). x.mem) w.result in
    let is_v₁' : update v₁.mem v₁.ptbr w.table
        ≡ update (update v.mem (pa / page_size) (page b')) table w.table =
      ap (λ (x : Vm). update x.mem x.ptbr w.table) is_v₁ in
    let memory = same_mem ∙ is_v₂ ∙ is_v₁' in
    let (at_f, at_table) =
      stored_entry v.mem table (pa / page_size) vpn e e₁ b b' w.table has at_pa has₁' w.has_entry in
    record {
      bytes = b';
      in_memory = in_memory;
      table_in_memory =
          subst (λ (n : ℕ). n < num_frames) (ap (λ (x : Vm). x.ptbr) is_v₁) w.in_memory;
      holds = ap (λ (m : ℕ → Frame). m (pa / page_size)) memory ∙ at_f;
      stored = ground arith;
      ptbr = same_ptbr ∙ ap (λ (x : Vm). x.ptbr) w.result ∙ ap (λ (x : Vm). x.ptbr) is_v₁;
      dirty =
          subst (λ (m : ℕ → Frame). HasEntry (m table) vpn (record e { dirty = 1 })) (sym memory)
            at_table;
    }

write_access-Stored :
    (pa vpn byte : ℕ) (v t : Vm) (e : Pte) (r : ℕ)
    → HasEntry (v.mem v.ptbr) vpn e
    → write_access pa vpn byte v ≡ some (r, t)
    → Stored pa v.ptbr vpn byte e t
unfolding write_access store
write_access-Stored pa vpn byte v t e r has h =
    let (v₁, stored, h₁) = >>=-eq-some (store pa byte v) _ h in
    let (f, at_frame, h₀) = >>=-eq-some (frame_at (pa / page_size) v) _ stored in
    let (in_memory, is_f) = frame_at-eq-some (pa / page_size) v f at_frame in
    let (b, at_pa, h₂) = >>=-eq-some (frame_bytes f) _ h₀ in
    let (e₁, read, h₃) = >>=-eq-some (read_pte v₁ v₁.ptbr vpn) _ h₁ in
    let (v₂, written, h₄) = >>=-eq-some (write_pte v₁.ptbr vpn (record e₁ { dirty = 1 }) v₁) _ h₃ in
    writes_through pa vpn byte v v₁ v₂ t e e₁ b has (is_f ∙ frame_bytes_inv f b at_pa)
      (some-eq-some (sym h₂)) (read_pte-HasEntry v₁ v₁.ptbr vpn e₁ read)
      (write_pte-Written v₁.ptbr vpn (record e₁ { dirty = 1 }) v₁ v₂ written) in_memory
      (ground arith) (ground arith)

-- A mapped page is read without a fault.
read_back :
    (address byte byte' : ℕ) (t : Vm) (e : Pte)
    → (e.valid == 0) ≡ false
    → Stored (physical_address e.pfn (vaddr_offset address)) t.ptbr (vaddr_vpn address) byte e t
    → Returns (λ ((x, u) : ℕ × Vm). x ≡ byte) (mem_access address b'r' byte' t)
unfolding mem_access read_access load frame_bytes frame_at
read_back address byte byte' t e valid s =
    let table =
      HasEntry-read_pte t t.ptbr (vaddr_vpn address) (record e { dirty = 1 }) s.table_in_memory
        s.dirty in
    let pa = physical_address e.pfn (vaddr_offset address) in
    let at_pa = frame_at-some (pa / page_size) t s.in_memory in
    rw (table, valid) (rw (table, at_pa, s.holds) s.stored)

-- The entry that an access goes through is valid.
valid_after :
    (address p : ℕ) (v v₁ : Vm) (e e₁ : Pte)
    → v.current_process ≡ some p
    → v.ptbr ≡ (v.procs p).saved_ptbr
    → HasEntry (v.mem v.ptbr) (vaddr_vpn address) e
    → (if e.valid == 0 then page_fault address v else some v) ≡ some v₁
    → HasEntry (v₁.mem v₁.ptbr) (vaddr_vpn address) e₁
    → (e₁.valid == 0) ≡ false
valid_after address p v v₁ e e₁ current ptbr has h has₁ = elim (Bool-cases (e.valid == 0)) [
  | inl fault ↦
      let faulted = page_fault-Faulted address p v v₁ current (sym (rw fault refl) ∙ h) in
      let table = faulted.same_cpu.ptbr ∙ ptbr in
      let valid =
        faulted.mapped e₁
          (subst (λ (n : ℕ). HasEntry (v₁.mem n) (vaddr_vpn address) e₁) table has₁) in
      ground (arith, valid)
  | inr mapped ↦
      let same : v ≡ v₁ = some-eq-some (sym (rw mapped refl) ∙ h) in
      let has' = subst (λ (x : Vm). HasEntry (x.mem x.ptbr) (vaddr_vpn address) e) same has in
      let eq = HasEntry-unique has₁ has' in rw (eq, mapped) refl
]

if_false {ℓ} : {A : Type ℓ} {b : Bool} (x y : A) → b ≡ false → (if b then x else y) ≡ y
if_false x y e = rw e refl

-- Where a write access of the current process, whose page table is loaded, has come to an end,
-- with or without a page fault, a read access at the same address succeeds and gives the byte
-- written.
pub mem_access_write-read :
    (address p byte byte' r kind : ℕ) (v t : Vm)
    → v.current_process ≡ some p
    → v.ptbr ≡ (v.procs p).saved_ptbr
    → (kind == b'r') ≡ false
    → mem_access address kind byte v ≡ some (r, t)
    → Returns (λ ((x, u) : ℕ × Vm). x ≡ byte) (mem_access address b'r' byte' t)
unfolding mem_access read_pte
mem_access_write-read address p byte byte' r kind v t current ptbr is_write h =
    let vpn = vaddr_vpn address in
    let (e, read, h₁) = >>=-eq-some (read_pte v v.ptbr vpn) _ h in
    let (v₁, faulted, h₂) =
      >>=-eq-some (if e.valid == 0 then page_fault address v else some v) _ h₁ in
    let (e₁, read₁, h₃) = >>=-eq-some (read_pte v₁ v₁.ptbr vpn) _ h₂ in
    let f = v₁.frame_table e₁.pfn in
    let v₂ = set_fte e₁.pfn (record f { referenced = 1 }) v₁ in
    let pa = physical_address e₁.pfn (vaddr_offset address) in
    let has = read_pte-HasEntry v v.ptbr vpn e read in
    let has₁ = read_pte-HasEntry v₁ v₁.ptbr vpn e₁ read₁ in
    let valid = valid_after address p v v₁ e e₁ current ptbr has faulted has₁ in
    let written = sym (if_false (read_access pa v₂) (write_access pa vpn byte v₂) is_write) ∙ h₃ in
    let s = write_access-Stored pa vpn byte v₂ t e₁ r has₁ written in
    read_back address byte byte' t e₁ valid
      (subst (λ (n : ℕ). Stored pa n vpn byte e₁ t) (sym s.ptbr) s)
