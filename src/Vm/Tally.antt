-- ===== src/Vm/Tally.antt =====
-- What the operations of Virtual_Memory/student-src count.
use ece.Prelude.{
  ℕ, zero, suc, ◌≡◌, inl, inr, ◌∙◌, some, ◌==◌, if◌then◌else◌, ◌>>=◌, arith, Bool-cases, inc64,
}
use ece.Vm.Types.{num_pages, Pte, Stats, Vm}
use ece.Vm.Swap.{swap_write, swap_free}
use ece.Vm.Paging.{
  select_victim_frame, frame_at, unmap, read_pte, write_pte, write_table, write_back, frame_bytes,
  evict, free_frame, load_page, page_fault, proc_init, cleanup_page, cleanup_pages, proc_cleanup,
  vaddr_vpn,
}
use ece.Vm.Frames.{>>=-eq-some}

-- At most one page was written back.
pub data Frees (s : Stats) (t : Stats) : Type 0 where
  kept : t ≡ s → Frees s t
  wrote : t ≡ record s { writebacks = inc64 s.writebacks } → Frees s t

-- At most one page was loaded, into a frame that was freed.
pub data Loads (s : Stats) (t : Stats) : Type 0 where
  present : t ≡ s → Loads s t
  loaded : (u : Stats) → Frees s u → t ≡ record u { page_faults = inc64 u.page_faults } → Loads s t

select_victim_frame-stats :
    (v t : Vm) (i : ℕ) → select_victim_frame v ≡ some (i, t) → t.stats ≡ v.stats
unfolding select_victim_frame
select_victim_frame-stats v t i e = ground arith

pub write_pte-stats :
    (frame vpn : ℕ) (e : Pte) (v t : Vm) → write_pte frame vpn e v ≡ some t → t.stats ≡ v.stats
unfolding write_pte
write_pte-stats frame vpn e v t h =
    let (f, _, h') = >>=-eq-some (frame_at frame v) _ h in
    let (g, _, h'') = >>=-eq-some (write_table f vpn e) _ h' in ground arith

write_back-Frees :
    (victim : ℕ) (e e' : Pte) (v t : Vm)
    → write_back victim e v ≡ some (e', t)
    → Frees v.stats t.stats
unfolding write_back
write_back-Frees victim e e' v t h =
    let (src, _, h') = >>=-eq-some (frame_bytes (v.mem victim)) _ h in
    let (r, _, h'') = >>=-eq-some (swap_write v.swap_queue e src) _ h' in wrote (ground arith)

pub Frees-same : {s t u : Stats} → Frees s t → u ≡ t → Frees s u
Frees-same (kept e) same = kept (same ∙ e)
Frees-same (wrote e) same = wrote (same ∙ e)

evict-Frees : (victim : ℕ) (v t : Vm) → evict victim v ≡ some t → Frees v.stats t.stats
unfolding evict
evict-Frees victim v t h =
    let (p, _, h₁) = >>=-eq-some (v.frame_table victim).process _ h in
    let (e, _, h₂) =
      >>=-eq-some (read_pte v (v.procs p).saved_ptbr (v.frame_table victim).vpn) _ h₁ in
    let (r, cleaned, h₃) =
      >>=-eq-some (if e.dirty == 1 then write_back victim e v else some (e, v)) _ h₂ in
    let (u, written, h₄) =
      >>=-eq-some
        (write_pte (v.procs p).saved_ptbr (v.frame_table victim).vpn (record (r.0) { valid = 0 })
          r.1)
        _ h₃ in
    let freed : Frees v.stats r.1.stats = elim (Bool-cases (e.dirty == 1)) [
      | inl dirty ↦ write_back-Frees victim e r.0 v r.1 (rw dirty at cleaned)
      | inr clean ↦ kept (ground arith)
    ] in
    let same = write_pte-stats _ _ _ r.1 u written in Frees-same freed (ground (arith, same))

pub free_frame-Frees : (v t : Vm) (i : ℕ) → free_frame v ≡ some (i, t) → Frees v.stats t.stats
unfolding free_frame
free_frame-Frees v t i h =
    let (r, selected, h₁) = >>=-eq-some (select_victim_frame v) _ h in
    let (u, evicted, h₂) =
      >>=-eq-some (if (r.1.frame_table r.0).mapped == 1 then evict r.0 r.1 else some r.1) _ h₁ in
    let before = select_victim_frame-stats v r.1 r.0 selected in
    elim (Bool-cases ((r.1.frame_table r.0).mapped == 1)) [
      | inl used ↦
          let freed = evict-Frees r.0 r.1 u (rw used at evicted) in
          Frees-same (rw before at freed) (ground arith)
      | inr unused ↦ kept (ground (arith, before))
    ]

pub proc_init-Frees : (p : ℕ) (v t : Vm) → proc_init p v ≡ some t → Frees v.stats t.stats
unfolding proc_init
proc_init-Frees p v t h =
    let (r, freed, h₁) = >>=-eq-some (free_frame v) _ h in
    Frees-same (free_frame-Frees v r.1 r.0 freed) (ground arith)

pub page_fault-Loads :
    (address : ℕ) (v t : Vm) → page_fault address v ≡ some t → Loads v.stats t.stats
unfolding page_fault
page_fault-Loads address v t h =
    let vpn = vaddr_vpn address in
    let (q, is_q, h₁) = >>=-eq-some v.current_process _ h in
    let table = (v.procs q).saved_ptbr in
    let (r, freed, h₂) = >>=-eq-some (free_frame v) _ h₁ in
    let (e, _, h₃) = >>=-eq-some (read_pte r.1 table vpn) _ h₂ in
    let e' = record e { pfn = r.0; valid = 1; dirty = 0 } in
    let (v₂, written, h₄) = >>=-eq-some (write_pte table vpn e' r.1) _ h₃ in
    let (contents, _, h₅) = >>=-eq-some (load_page e' v₂.swap_queue) _ h₄ in
    let same = write_pte-stats table vpn e' r.1 v₂ written in
    loaded v₂.stats (Frees-same (free_frame-Frees v r.1 r.0 freed) same) (ground arith)

cleanup_page-stats : (table i : ℕ) (v t : Vm) → cleanup_page table i v ≡ some t → t.stats ≡ v.stats
unfolding cleanup_page unmap
cleanup_page-stats table i v t h =
    let (e, read, h₁) = >>=-eq-some (read_pte v table i) _ h in
    let (v₁, unmapped, h₂) = >>=-eq-some (if e.valid == 0 then some v else unmap e.pfn v) _ h₁ in
    let before : v₁.stats ≡ v.stats = ground arith in
    elim (Bool-cases (e.swap == 0)) [
      | inl unswapped ↦ ground (arith, before)
      | inr swapped ↦
          let h₃ : (swap_free v₁.swap_queue e >>= λ (e', q).
          write_pte table i e' (record v₁ { swap_queue = q }))
              ≡ some t =
            rw swapped at h₂ in
          let (r, freed, written) = >>=-eq-some (swap_free v₁.swap_queue e) _ h₃ in
          write_pte-stats table i r.0 (record v₁ { swap_queue = r.1 }) t written ∙ before
    ]

cleanup_pages-stats :
    (table rounds i : ℕ) (v t : Vm) → cleanup_pages table rounds i v ≡ some t → t.stats ≡ v.stats
unfolding cleanup_pages
cleanup_pages-stats table zero i v t h = ground arith
cleanup_pages-stats table (suc rounds) i v t h =
    let (v₁, cleaned, h₁) = >>=-eq-some (cleanup_page table i v) _ h in
    cleanup_pages-stats table rounds (suc i) v₁ t h₁ ∙ cleanup_page-stats table i v v₁ cleaned

pub proc_cleanup-stats : (p : ℕ) (v t : Vm) → proc_cleanup p v ≡ some t → t.stats ≡ v.stats
unfolding proc_cleanup
proc_cleanup-stats p v t h =
    let (v₁, cleaned, h₁) = >>=-eq-some (cleanup_pages (v.procs p).saved_ptbr num_pages 0 v) _ h in
    let same = cleanup_pages-stats (v.procs p).saved_ptbr num_pages 0 v v₁ cleaned in
    ground (arith, same)
