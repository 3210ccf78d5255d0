-- ===== src/Vm/Flat/Fault.antt =====
-- The handler of a page fault (Virtual_Memory/student-src/page_fault.c).
use ece.Prelude.{
  ℕ, suc, ◌<◌, ◌≡◌, ◌≢◌, inl, refl, sym, ap, ◌∙◌, arith, update_ne, update_eq, update, some,
  Returns, Returns-bind,
}
use ece.Vm.Types.{num_frames, Pte, Fte, Frame, page, page_table, Vm}
use ece.Vm.Paging.{free_frame, load_page, page_fault, vaddr_vpn}
use ece.Vm.Victim.{IsEvictable}
use ece.Vm.Flat.Tables.{
  put_entry, put_entry_eq, Tables, Tables-put, Tables-remark, Tables-fill, Tables_apart,
}
use ece.Vm.Flat.Mapping.{Pages-enter, map_fte}
use ece.Vm.Flat.Covered.{Covers-edit}
use ece.Vm.Flat.Contents.{Memory, load_page-page_of, Contents-put}
use ece.Vm.Flat.Paged.{Paged, read_pte-some, write_pte-some}
use ece.Vm.Flat.Evict.{Vacates, free_frame-Vacates}

module _ (runs : ℕ → Type 0) (table_at : ℕ → ℕ) (live : ℕ → ℕ → Type 0) (m : Memory)
    (room : ℕ) where
  -- Page `n` of `p` is in memory in `t`.
  pub record Brings (p n : ℕ) (t : Vm) : Type 0 where
    pub entries : ℕ → ℕ → Pte
    pub paged : Paged runs table_at live m room entries t
    pub valid : (entries p n).valid ≢ 0

  module _ (entries : ℕ → ℕ → Pte) (v : Vm) (h : Paged runs table_at live m room entries v)
      (p n i : ℕ) (lives : live p n) (invalid : (entries p n).valid ≡ 0) (lo : i < num_frames)
      (unprotected : (v.frame_table i).protected ≡ 0) (free : (v.frame_table i).mapped ≡ 0) where
    abbrev new_entry : Pte
    new_entry = let e = entries p n in record e { pfn = i; valid = 1; dirty = 0 }

    abbrev new_tables : ℕ → Frame
    new_tables = update v.mem (table_at p) (page_table (update (entries p) n new_entry))

    abbrev new_mem : ℕ → Frame
    new_mem = update new_tables i (page (m p n))

    abbrev new_table : ℕ → Fte
    new_table = update v.frame_table i (map_fte p n (v.frame_table i))

    reload : load_page new_entry v.swap_queue ≡ some (m p n)
    reload =
        load_page-page_of new_entry v.swap_queue
        ∙ sym (load_page-page_of (entries p n) v.swap_queue)
        ∙ (h.contents.stored p n lives).backed (inl invalid)

    loaded-Tables : Tables runs table_at (put_entry entries p n new_entry) new_mem new_table
    loaded-Tables =
        let put = Tables-put runs table_at h.tables p n new_entry (h.lives p n lives).0 in
        let filled = Tables-fill runs table_at put i (page (m p n)) unprotected in
        Tables-remark runs table_at filled new_table (λ g. ground (arith, unprotected))

    loaded :
        (t : Vm)
        → t.mem ≡ new_mem
        → t.frame_table ≡ new_table
        → t.swap_queue ≡ v.swap_queue
        → t.replacement ≡ v.replacement
        → Brings p n t
    loaded t mem ft queue strategy = record {
      entries = put_entry entries p n new_entry;
      paged = record {
        tables = rw (mem, ft) loaded-Tables;
        pages = rw ft (Pages-enter h.pages p n i new_entry lives invalid lo free refl refl);
        contents =
            rw (mem, queue)
              (Contents-put h.contents live new_mem m p n new_entry v.swap_queue (entries p n).swap
                (λ s ne. refl)
                (λ r k l apart. (
                  l,
                  refl,
                  (λ s same. h.contents.unique p n r k lives l apart (λ z. s (same ∙ z)) same),
                  λ valid.
                      let hold = h.pages.held r k l valid in
                      let apart_i : (entries r k).pfn ≢ i =
                        λ z. hold.mapped (ap (λ (x : ℕ). (v.frame_table x).mapped) z ∙ free) in
                      let apart_t =
                        Tables_apart runs table_at h.tables p (entries r k).pfn
                          (h.lives p n lives).0 hold.unprotected in
                      update_ne new_tables i (page (m p n)) (entries r k).pfn apart_i
                      ∙ update_ne v.mem (table_at p) (page_table (update (entries p) n new_entry))
                          (entries r k).pfn apart_t,
                ))
                (λ l. (
                  record {
                    valid_flag = omega arith;
                    dirty_flag = omega arith;
                    in_frame = λ valid. update_eq new_tables i (page (m p n));
                    backed = λ why. reload;
                    findable = (h.contents.stored p n lives).findable;
                  },
                  λ s. refl,
                )));
        covered = rw queue (Covers-edit h.covered p n new_entry lives refl);
        addresses = h.addresses;
        queue = rw queue h.queue;
        lives = h.lives;
        strategy = strategy ∙ h.strategy;
        few = rw queue h.few;
        tokens = rw queue h.tokens;
      };
      valid = λ z. ground (arith, ap (λ (e : Pte). e.valid) (put_entry_eq entries p n new_entry));
    }

  -- Where some frame of memory is not protected, a page fault of the current process on a page that
  -- is not in memory brings the page in.
  pub page_fault-Brings :
      (entries : ℕ → ℕ → Pte) (address p f : ℕ) (v : Vm)
      → Paged runs table_at live m (suc room) entries v
      → ((q : ℕ) → (v.procs q).saved_ptbr ≡ table_at q)
      → v.current_process ≡ some p
      → live p (vaddr_vpn address)
      → (entries p (vaddr_vpn address)).valid ≡ 0
      → IsEvictable v.frame_table f
      → Returns (Brings p (vaddr_vpn address)) (page_fault address v)
  unfolding page_fault
  page_fault-Brings entries address p f v h tables current lives invalid open_frame =
      let n = vaddr_vpn address in
      Returns-bind (λ q. q ≡ p) (Brings p n) v.current_process _ (rw current refl)
        λ q _ same.
          rw (same, tables)
            (Returns-bind
              (λ (i, t). (i < num_frames) × Vacates runs table_at live m room entries i t)
              (Brings p n) (free_frame v) _
              (free_frame-Vacates runs table_at live m room entries v f h tables open_frame)
              λ (i, v₁) _ (lo, c).
                let (runs_p, in_table) = h.lives p n lives in
                let in_memory = (c.paged.tables.table p runs_p).in_memory in
                let holds = (c.paged.tables.table p runs_p).holds in
                let read =
                  read_pte-some v₁ (table_at p) n (c.entries' p) in_memory holds in_table in
                let invalid' = c.invalid p n invalid in
                let e =
                  new_entry c.entries' v₁ c.paged p n i lives invalid' lo c.unprotected c.free in
                let written =
                  write_pte-some v₁ (table_at p) n e (c.entries' p) in_memory holds in_table in
                rw
                  (
                    read,
                    written,
                    reload c.entries' v₁ c.paged p n i lives invalid' lo c.unprotected c.free,
                  )
                  (loaded c.entries' v₁ c.paged p n i lives invalid' lo c.unprotected c.free _ refl
                    refl refl refl))
