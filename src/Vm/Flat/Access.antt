-- ===== src/Vm/Flat/Access.antt =====
-- The end of an access to memory, where the page is there (`mem_access` of
-- Virtual_Memory/student-src/paging.c).
use ece.Prelude.{
  ℕ, ◌<◌, ◌%◌, ◌≡◌, ◌≢◌, inl, inr, refl, sym, ap, ◌∙◌, ◌==◌, arith, update_ne, update_eq, update,
  Bool-cases, Returns, if◌then◌else◌,
}
use ece.Vm.Types.{page_size, num_frames, Pte, Frame, page, page_table, Vm}
use ece.Vm.Paging.{
  vaddr_vpn, vaddr_offset, physical_address, load, store, frame_bytes, read_access, write_access,
}
use ece.Vm.Address.{physical_address_fields}
use ece.Vm.Frames.{SameCpu, frame_at-some}
use ece.Vm.Flat.Tables.{
  put_entry, put_entry_ne, put_entry_eq, Tables-put, Tables-fill, Tables_apart,
}
use ece.Vm.Flat.Pages.{Holds-apart, Pages-edit}
use ece.Vm.Flat.Covered.{Covers-edit}
use ece.Vm.Flat.Contents.{Memory, IsStored, Contents-put}
use ece.Vm.Flat.Paged.{Paged, Paged-same, read_pte-some, write_pte-some}
use ece.Vm.Flat.Spec.{after_access, accessed}

module _ (runs : ℕ → Type 0) (table_at : ℕ → ℕ) (live : ℕ → ℕ → Type 0) where
  -- The access gave the byte, and the machine holds the memory.
  pub record Serves (m : Memory) (room expected : ℕ) (v : Vm) (r : ℕ × Vm) : Type 0 where
    pub byte : r.0 ≡ expected
    pub entries : ℕ → ℕ → Pte
    pub paged : Paged runs table_at live m room entries (r.1)
    pub same_cpu : SameCpu v (r.1)

  module _ (m : Memory) (room address p : ℕ) (entries : ℕ → ℕ → Pte) (v : Vm)
      (h : Paged runs table_at live m room entries v) (lives : live p (vaddr_vpn address))
      (valid : (entries p (vaddr_vpn address)).valid ≢ 0) where
    abbrev n : ℕ
    n = vaddr_vpn address

    abbrev f : ℕ
    f = (entries p n).pfn

    abbrev pa : ℕ
    pa = physical_address f (vaddr_offset address)

    read-Serves : Returns (Serves m room (m p n (address % page_size)) v) (read_access pa v)
    unfolding read_access load frame_bytes
    read-Serves =
        let hold = h.pages.held p n lives valid in
        let (at_f, at_offset, _) = physical_address_fields f address hold.in_memory in
        rw
          (
            at_f,
            frame_at-some f v hold.in_memory,
            (h.contents.stored p n lives).in_frame valid,
            at_offset,
          )
          (record {
            byte = refl;
            entries = entries;
            paged = Paged-same h _ refl refl refl refl;
            same_cpu = record {
              ptbr = refl;
              procs = refl;
              current_process = refl;
              replacement = refl;
            };
          })

    module _ (byte : ℕ) where
      abbrev bytes : ℕ → ℕ
      bytes = update (m p n) (address % page_size) byte

      abbrev dirty_entry : Pte
      dirty_entry = let e = entries p n in record e { dirty = 1 }

      abbrev written : ℕ → Frame
      written =
          update (update v.mem f (page bytes)) (table_at p)
            (page_table (update (entries p) n dirty_entry))

      f_apart : f ≢ table_at p
      f_apart =
          Tables_apart runs table_at h.tables p f (h.lives p n lives).0
            (h.pages.held p n lives valid).unprotected

      written-Paged :
          (t : Vm)
          → t.mem ≡ written
          → t.frame_table ≡ v.frame_table
          → t.swap_queue ≡ v.swap_queue
          → t.replacement ≡ v.replacement
          → Paged runs table_at live
              (put_entry m p n bytes)
              room
              (put_entry entries p n dirty_entry)
              t
      written-Paged t mem ft queue strategy = record {
        tables =
            rw (mem, ft)
              (Tables-put runs table_at
                (Tables-fill runs table_at h.tables f (page bytes)
                  (h.pages.held p n lives valid).unprotected)
                p n dirty_entry (h.lives p n lives).0);
        pages = rw ft (Pages-edit h.pages p n dirty_entry refl refl);
        contents =
            rw (mem, queue)
              (Contents-put h.contents live written (put_entry m p n bytes) p n dirty_entry
                v.swap_queue (entries p n).swap (λ s ne. refl)
                (λ r k l apart. (
                  l,
                  put_entry_ne m p n bytes r k apart,
                  (λ s same. h.contents.unique p n r k lives l apart (λ z. s (same ∙ z)) same),
                  λ valid'.
                      let hold = h.pages.held r k l valid' in
                      update_ne (update v.mem f (page bytes)) (table_at p)
                        (page_table (update (entries p) n dirty_entry)) (entries r k).pfn
                        (Tables_apart runs table_at h.tables p (entries r k).pfn
                          (h.lives p n lives).0 hold.unprotected)
                      ∙ update_ne v.mem f (page bytes) (entries r k).pfn
                          (Holds-apart (h.pages.held p n lives valid) hold apart),
                ))
                (λ l. (dirty_stored, λ s. refl)));
        covered = rw queue (Covers-edit h.covered p n dirty_entry lives refl);
        addresses = h.addresses;
        queue = rw queue h.queue;
        lives = h.lives;
        strategy = strategy ∙ h.strategy;
        few = rw queue h.few;
        tokens = rw queue h.tokens;
      }
        where
          dirty_stored : IsStored written v.swap_queue (put_entry m p n bytes p n) dirty_entry
          dirty_stored = rw (put_entry_eq m p n bytes) (record {
            valid_flag = (h.contents.stored p n lives).valid_flag;
            dirty_flag = omega arith;
            in_frame = λ valid'.
                update_ne (update v.mem f (page bytes)) (table_at p)
                  (page_table (update (entries p) n dirty_entry)) f f_apart
                ∙ update_eq v.mem f (page bytes);
            backed = λ why. absurd (elim why [ inl z ↦ valid z | inr z ↦ ground arith ]);
            findable = (h.contents.stored p n lives).findable;
          })

      write-Serves :
          v.ptbr ≡ table_at p
          → Returns (Serves (put_entry m p n bytes) room byte v) (write_access pa n byte v)
      unfolding write_access store frame_bytes
      write-Serves ptbr =
          let hold = h.pages.held p n lives valid in
          let (at_f, at_offset, _) = physical_address_fields f address hold.in_memory in
          let (runs_p, in_table) = h.lives p n lives in
          let v₁ = record v { mem = update v.mem f (page bytes) } in
          let holds : v₁.mem (table_at p) ≡ page_table (entries p) =
            update_ne v.mem f (page bytes) (table_at p) (λ z. f_apart (sym z))
            ∙ (h.tables.table p runs_p).holds in
          let in_memory : v.ptbr < num_frames =
            omega (arith, ptbr, (h.tables.table p runs_p).in_memory) in
          let holds' = ap v₁.mem ptbr ∙ holds in
          let read = read_pte-some v₁ v.ptbr n (entries p) in_memory holds' in_table in
          let done = write_pte-some v₁ v.ptbr n dirty_entry (entries p) in_memory holds' in_table in
          rw
            (
              at_f,
              frame_at-some f v hold.in_memory,
              (h.contents.stored p n lives).in_frame valid,
              at_offset,
              read,
              done,
            )
            (record {
              byte = refl;
              entries = put_entry entries p n dirty_entry;
              paged =
                  written-Paged _
                    (ap (λ (x : ℕ). update v₁.mem x (page_table (update (entries p) n dirty_entry)))
                      ptbr)
                    refl refl refl;
              same_cpu = record {
                ptbr = refl;
                procs = refl;
                current_process = refl;
                replacement = refl;
              };
            })

      -- The access behind the fault.
      pub access-Serves :
          (kind : ℕ)
          → v.ptbr ≡ table_at p
          → Returns
              (Serves
                (after_access p n (address % page_size) kind byte m)
                room
                (accessed p n (address % page_size) kind byte m)
                v)
              (if kind == b'r' then read_access pa v else write_access pa n byte v)
      access-Serves kind ptbr = elim (Bool-cases (kind == b'r')) [
        | inl reads ↦ rw reads read-Serves
        | inr writes ↦ rw writes (write-Serves ptbr)
      ]
