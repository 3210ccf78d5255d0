-- ===== src/Vm/Flat/Stopped.antt =====
-- What `proc_cleanup` of Virtual_Memory/student-src/paging.c leaves.
use ece.Prelude.{
  ℕ, ◌≡◌, ◌≢◌, inl, inr, refl, sym, ap, ◌∙◌, ◌==◌, arith, List, ◌∈◌, erase, mem-erase, erase-mem,
  Distinct, update_ne, update, Bool-cases, Returns, Returns-bind,
}
use ece.Vm.Types.{num_pages, Pte, Fte, Frame, Pcb, SwapQueue, Vm}
use ece.Vm.Paging.{cleanup_pages, proc_cleanup}
use ece.Vm.Flat.Tables.{Tables}
use ece.Vm.Flat.Pages.{Pages, Pages-idle}
use ece.Vm.Flat.Mapping.{Pages-relive}
use ece.Vm.Flat.Covered.{Covers-relive}
use ece.Vm.Flat.Contents.{Memory, Contents, Contents-relive}
use ece.Vm.Flat.Paged.{Paged}
use ece.Vm.Flat.Start.{Listed, Lists}
use ece.Vm.Flat.Stop.{Left, Clears, cleanup_pages-Clears}

module _ (xs : List ℕ) (p : ℕ) (runs : p ∈ xs) (distinct : Distinct xs) (table_at : ℕ → ℕ) where
  Left-Lists : (q k : ℕ) → Left xs p num_pages q k → Lists (erase p xs) q k
  Left-Lists q k (m, lo, later) =
      (erase-mem p q xs m (λ same. absurd (omega (arith, later same))), lo)

  Lists-Left : (q k : ℕ) → Lists (erase p xs) q k → Left xs p num_pages q k
  Lists-Left q k (m, lo) =
      let (m', ne) = mem-erase p q xs distinct m in (m', lo, λ same. absurd (ne same))

  module _ (entries : ℕ → ℕ → Pte) (mem : ℕ → Frame) (ft : ℕ → Fte) where
    abbrev t : ℕ
    t = table_at p

    abbrev free_mark : Fte
    free_mark = let f = ft t in record f { protected = 0; mapped = 0; referenced = 0 }

    abbrev released : ℕ → Fte
    released = update ft t free_mark

    module _ (h : Tables (Listed xs) table_at entries mem ft) where
      other_table : (q : ℕ) → q ∈ erase p xs → (q ∈ xs) × (table_at q ≢ t)
      other_table q m =
          let (m', ne) = mem-erase p q xs distinct m in
          (m', λ same. ne (h.distinct q p m' runs same))

      Tables-drop :
          (table_at' : ℕ → ℕ)
          → ((q : ℕ) → q ≢ p → table_at' q ≡ table_at q)
          → Tables (Listed (erase p xs)) table_at' entries mem released
      Tables-drop table_at' same = record {
        frame_zero =
            rw (update_ne ft t free_mark 0 (λ z. (h.table p runs).nonzero (sym z))) h.frame_zero;
        table = λ q m.
            let (m', apart) = other_table q m in
            let f = h.table q m' in
            let eq = kept q m in
            record {
              nonzero = λ z. f.nonzero (sym eq ∙ z);
              in_memory = omega (arith, eq, f.in_memory);
              protected = rw (eq, update_ne ft t free_mark (table_at q) apart) f.protected;
              holds = ap mem eq ∙ f.holds;
            };
        distinct = λ q q' m m' eq.
            h.distinct q q' (other_table q m).0 (other_table q' m').0
              (sym (kept q m) ∙ eq ∙ kept q' m');
        only = λ f lo prot. elim (Bool-cases (f == t)) [
          | inl is_t ↦ absurd (rw is_t at prot refl)
          | inr other ↦ elim (h.only f lo (rw other at prot)) [
            | inl z ↦ inl z
            | inr (q, m, at) ↦
                let ne : q ≢ p = λ z. ground (arith, ap table_at z) in
                inr (q, erase-mem p q xs m ne, same q ne ∙ at)
          ]
        ];
      }
        where
          kept : (q : ℕ) → q ∈ erase p xs → table_at' q ≡ table_at q
          kept q m = same q (mem-erase p q xs distinct m).1

      Pages-drop :
          Pages (Left xs p num_pages) entries ft → Pages (Lists (erase p xs)) entries released
      Pages-drop pages =
          Pages-relive
            (Pages-idle pages t free_mark (inl (h.table p runs).protected) (inr refl) (omega arith))
            (Lists (erase p xs)) entries (λ q k l valid. (Lists-Left q k l, refl))
            (λ q k l valid. (Left-Lists q k l, refl))

  Contents-drop :
      {entries : ℕ → ℕ → Pte} {mem : ℕ → Frame} {queue : SwapQueue} {m : Memory}
      → Contents (Left xs p num_pages) entries mem queue m
      → Contents (Lists (erase p xs)) entries mem queue m
  Contents-drop {entries} {mem} {queue} {m} c =
      Contents-relive c (Lists (erase p xs)) mem m entries
        λ q k l. inr (refl, (Lists-Left q k l, refl, (λ s. s), λ valid. refl))

  Paged-Left :
      (m : Memory) (room : ℕ) (entries : ℕ → ℕ → Pte) (v : Vm)
      → Paged (Listed xs) table_at (Lists xs) m room entries v
      → Paged (Listed xs) table_at (Left xs p 0) m room entries v
  Paged-Left m room entries v h = record {
    tables = h.tables;
    pages =
        Pages-relive h.pages (Left xs p 0) entries (λ q k (l, lo, later) valid. ((l, lo), refl))
          (λ q k (l, lo) valid. ((l, lo, λ same. omega arith), refl));
    contents =
        Contents-relive h.contents (Left xs p 0) v.mem m entries
          (λ q k (l, lo, later). inr (refl, ((l, lo), refl, (λ s. s), λ valid. refl)));
    covered =
        Covers-relive h.covered (Left xs p 0) entries
          (λ q k (l, lo). ((l, lo, λ same. omega arith), refl));
    addresses = h.addresses;
    queue = h.queue;
    lives = λ q k (l, lo, later). (l, lo);
    strategy = h.strategy;
    few = h.few;
    tokens = h.tokens;
  }

  -- What is left of the others.
  unfoldable pub Stops : Memory → ℕ → Vm → Type 0
  Stops m room u =
      (entries : ℕ → ℕ → Pte) × ((procs : ℕ → Pcb)
        → ((q : ℕ) → q ≢ p → (procs q).saved_ptbr ≡ table_at q)
        → Paged (Listed (erase p xs)) (λ q. (procs q).saved_ptbr) (Lists (erase p xs)) m room
            entries (record u { procs = procs }))

  pub proc_cleanup-Stops :
      (m : Memory) (room : ℕ) (entries : ℕ → ℕ → Pte) (v : Vm)
      → Paged (Listed xs) table_at (Lists xs) m room entries v
      → (v.procs p).saved_ptbr ≡ table_at p
      → Returns (Stops m room) (proc_cleanup p v)
  unfolding proc_cleanup Stops
  proc_cleanup-Stops m room entries v h table = rw table (
      Returns-bind (Clears xs p runs table_at m room num_pages) (Stops m room)
        (cleanup_pages (table_at p) num_pages 0 v) _
        (cleanup_pages-Clears xs p runs table_at m room num_pages 0 v (omega arith)
          (entries, Paged-Left m room entries v h))
        λ u _ (entries', k). (
          entries',
          λ procs same. record {
            tables =
                Tables-drop entries' u.mem u.frame_table k.tables (λ q. (procs q).saved_ptbr) same;
            pages = Pages-drop entries' u.mem u.frame_table k.tables k.pages;
            contents = Contents-drop k.contents;
            covered =
                Covers-relive k.covered (Lists (erase p xs)) entries'
                  (λ q n l. (Left-Lists q n l, refl));
            addresses = k.addresses;
            queue = k.queue;
            lives = λ q n l. l;
            strategy = k.strategy;
            few = k.few;
            tokens = k.tokens;
          },
        ))
