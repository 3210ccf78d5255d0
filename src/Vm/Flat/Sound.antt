-- ===== src/Vm/Flat/Sound.antt =====
-- A machine that stands for a memory without paging passes `check_validity`
-- (Virtual_Memory/simulator-src/pagesim.c).
use ece.Prelude.{ℕ, ◌<◌, ◌≡◌, ◌≢◌, inl, inr, sym, ap, ◌∙◌, arith, ◌∈◌, some}
use ece.Vm.Types.{num_pages, Vm}
use ece.Vm.Paging.{read_pte}
use ece.Vm.Consistency.{IsRunning, IsHeld, IsConsistent}
use ece.Vm.SwapSpace.Search.{swap_queue_find-locate}
use ece.Vm.SwapSpace.Look.{page_of-locate}
use ece.Vm.Flat.Tables.{Tables_apart}
use ece.Vm.Flat.Paged.{read_pte-some}
use ece.Vm.Flat.Start.{Listed}
use ece.Vm.Flat.Spec.{Flat}
use ece.Vm.Flat.Implements.{Implements}

module _ {room : ℕ} {s : Flat} {v : Vm} (h : Implements room s v) where
  listed_runs : (p : ℕ) → p ∈ s.running → IsRunning v p
  listed_runs p m = (h.known p m, (h.states p).1 m)

  held :
      (p n : ℕ)
      → p ∈ s.running
      → n < num_pages
      → (h.entries p n).valid ≢ 0
      → IsHeld v p n (h.entries p n).pfn
  held p n m lo valid =
      let k = h.paged.pages.held p n (m, lo) valid in
      record {
        holder = p;
        in_memory = k.in_memory;
        unprotected = (
          λ z.
              h.paged.tables.frame_zero
                (ap (λ (x : ℕ). (v.frame_table x).protected) (sym z) ∙ k.unprotected),
          λ (q, (lo', runs), at).
              Tables_apart (Listed s.running) (λ r. (v.procs r).saved_ptbr) h.paged.tables q
                (h.entries p n).pfn ((h.states q).0 runs) k.unprotected (sym at),
        );
        process = k.process;
        in_procs = h.known p m;
        mapped = k.mapped;
        same_pid = h.pids p m;
        same_vpn = k.vpn;
      }

  reads :
      (p n : ℕ)
      → p ∈ s.running
      → n < num_pages
      → read_pte v (v.procs p).saved_ptbr n ≡ some (h.entries p n)
  reads p n m lo =
      read_pte-some v (v.procs p).saved_ptbr n (h.entries p) (h.paged.tables.table p m).in_memory
        (h.paged.tables.table p m).holds lo

  pub Implements-IsConsistent : IsConsistent v
  Implements-IsConsistent = record {
    frame_zero = h.paged.tables.frame_zero;
    tables = λ p (lo, runs).
        let t = h.paged.tables.table p ((h.states p).0 runs) in
        (t.nonzero, t.in_memory, t.protected);
    only_tables = λ f lo prot. elim (h.paged.tables.only f lo prot) [
      | inl z ↦ inl z
      | inr (p, m, at) ↦ inr (p, listed_runs p m, at)
    ];
    pages = λ p n (lo, runs) in_table.
        let m = (h.states p).0 runs in
        let stored = h.paged.contents.stored p n (m, in_table) in
        (
          h.entries p n,
          reads p n m in_table,
          record {
            flags = (stored.valid_flag, stored.dirty_flag);
            held = held p n m in_table;
            swapped = λ swap.
                let (a, found) =
                  page_of-locate v.swap_queue (h.entries p n).swap h.paged.addresses h.paged.queue
                    (stored.findable swap) in
                (
                  a,
                  swap_queue_find-locate v.swap_queue (h.entries p n).swap h.paged.addresses
                        h.paged.queue.linked (omega (arith, h.paged.queue.counted))
                      ∙ ap (λ x. some x) found,
                );
          },
        );
    owned = λ f lo prot mapped.
        let o = h.paged.pages.owned f lo prot mapped in
        let (m, in_table) = o.lives in
        record {
          pid = o.process;
          vpn = o.vpn;
          entry = h.entries o.process o.vpn;
          runs = listed_runs o.process m;
          in_table = in_table;
          read = reads o.process o.vpn m in_table;
          valid = o.valid;
          points = o.points;
        };
  }
