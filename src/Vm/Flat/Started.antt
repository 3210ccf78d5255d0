-- ===== src/Vm/Flat/Started.antt =====
-- What `proc_init` of Virtual_Memory/student-src/paging.c leaves.
use ece.Prelude.{
  ℕ, suc, ◌<◌, ◌≡◌, ◌≢◌, inl, inr, refl, ap, ◌∙◌, ◌==◌, arith, List, ◌∷◌, ◌∉◌, update_ne, update_eq,
  update, Bool-cases, Returns, Returns-bind,
}
use ece.Vm.Types.{num_frames, Pte, page_table, Pcb, Vm}
use ece.Vm.Paging.{zero_pte, free_frame, proc_init}
use ece.Vm.Victim.{IsEvictable}
use ece.Vm.Frames.{SameCpu, free_frame-SameCpu}
use ece.Vm.Flat.Covered.{Covers-relive}
use ece.Vm.Flat.Contents.{Memory, zero_page}
use ece.Vm.Flat.Paged.{Paged}
use ece.Vm.Flat.Evict.{Vacates, free_frame-Vacates}
use ece.Vm.Flat.Start.{
  member_apart, Listed, Lists, new_entries, Tables-add, Pages-add, Contents-add,
}

-- The process has a table of its own, with no page in it.
pub record Starts (xs : List ℕ) (p : ℕ) (m : Memory) (room : ℕ) (v t : Vm) : Type 0 where
  pub entries : ℕ → ℕ → Pte
  pub paged :
      Paged
        (Listed (p ∷ xs))
        (λ q. (t.procs q).saved_ptbr)
        (Lists (p ∷ xs))
        (update m p (λ n. zero_page))
        room
        entries
        t
  pub ptbr : t.ptbr ≡ v.ptbr
  pub current_process : t.current_process ≡ v.current_process
  pub pids : (q : ℕ) → (t.procs q).pid ≡ (v.procs q).pid
  pub states : (q : ℕ) → (t.procs q).state ≡ (v.procs q).state
  pub others : (q : ℕ) → q ≢ p → (t.procs q).saved_ptbr ≡ (v.procs q).saved_ptbr

module _ (xs : List ℕ) (p : ℕ) (out : p ∉ xs) (m : Memory) (room : ℕ) (entries : ℕ → ℕ → Pte)
    (table_at : ℕ → ℕ) (v : Vm) (h : Paged (Listed xs) table_at (Lists xs) m (suc room) entries v)
    (tables : (q : ℕ) → (v.procs q).saved_ptbr ≡ table_at q) where
  started :
      (i : ℕ) (u : Vm)
      → i < num_frames
      → Vacates (Listed xs) table_at (Lists xs) m room entries i u
      → SameCpu v u
      → Starts xs p m room v (record u {
        mem = update u.mem i (page_table (λ n. zero_pte));
        procs = update u.procs p (let pcb = u.procs p in record pcb { saved_ptbr = i });
        frame_table =
            update u.frame_table i (let f = u.frame_table i in record f { protected = 1 });
      })
  started i u lo c same =
      let procs' = update u.procs p (let pcb = u.procs p in record pcb { saved_ptbr = i }) in
      let procs_ne : (q : ℕ) → q ≢ p → (procs' q).saved_ptbr ≡ (v.procs q).saved_ptbr = λ q ne.
        ap (λ (x : Pcb). x.saved_ptbr) (update_ne u.procs p _ q ne)
        ∙ ap (λ (x : ℕ → Pcb). (x q).saved_ptbr) same.procs in
      let at_p : (procs' p).saved_ptbr ≡ i =
        ap (λ (x : Pcb). x.saved_ptbr) (update_eq u.procs p _) in
      let at_others : (q : ℕ) → q ≢ p → (procs' q).saved_ptbr ≡ table_at q =
        λ q ne. procs_ne q ne ∙ tables q in
      record {
        entries = new_entries p c.entries';
        paged = record {
          tables =
              Tables-add xs table_at (λ q. (procs' q).saved_ptbr) p i out at_p at_others lo
                c.entries' u.mem u.frame_table c.unprotected c.paged.tables;
          pages =
              Pages-add xs table_at (λ q. (procs' q).saved_ptbr) p i out at_p at_others lo
                c.entries' u.mem u.frame_table c.paged.pages c.free;
          contents =
              Contents-add xs table_at (λ q. (procs' q).saved_ptbr) p i out at_p at_others lo
                c.entries' u.mem u.frame_table c.paged.pages c.paged.contents c.free;
          covered =
              Covers-relive c.paged.covered (Lists (p ∷ xs)) (new_entries p c.entries')
                λ q k (l, lo'). (
                  (ground arith, lo'),
                  ap (λ (x : ℕ → Pte). x k)
                      (update_ne c.entries' p (λ n. zero_pte) q (member_apart p xs q out l)),
                );
          addresses = c.paged.addresses;
          queue = c.paged.queue;
          lives = λ q k l. l;
          strategy = c.paged.strategy;
          few = c.paged.few;
          tokens = c.paged.tokens;
        };
        ptbr = same.ptbr;
        current_process = same.current_process;
        pids = λ q.
            kept (λ (x : Pcb). x.pid) (λ x. refl) q ∙ ap (λ (x : ℕ → Pcb). (x q).pid) same.procs;
        states = λ q.
            kept (λ (x : Pcb). x.state) (λ x. refl) q
            ∙ ap (λ (x : ℕ → Pcb). (x q).state) same.procs;
        others = procs_ne;
      }
    where
      kept :
          (field : Pcb → ℕ)
          → ((x : Pcb) → field (record x { saved_ptbr = i }) ≡ field x)
          → (q : ℕ)
          → field (update u.procs p (let pcb = u.procs p in record pcb { saved_ptbr = i }) q)
            ≡ field (u.procs q)
      kept field same q = elim (Bool-cases (q == p)) [
        | inl eq ↦ rw eq (same (u.procs p) ∙ ap (λ (x : ℕ). field (u.procs x)) (ground arith))
        | inr ne ↦ rw ne refl
      ]

  -- Where some frame of memory is not protected, a process without pages gets a page table.
  pub proc_init-Starts :
      (f : ℕ) → IsEvictable v.frame_table f → Returns (Starts xs p m room v) (proc_init p v)
  unfolding proc_init
  proc_init-Starts f open_frame =
      Returns-bind
        (λ (i, t). (i < num_frames) × Vacates (Listed xs) table_at (Lists xs) m room entries i t)
        (Starts xs p m room v) (free_frame v) _
        (free_frame-Vacates (Listed xs) table_at (Lists xs) m room entries v f h tables open_frame)
        λ (i, u) e (lo, c). started i u lo c (free_frame-SameCpu v u i e)
