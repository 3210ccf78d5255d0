-- ===== src/Vm/Flat/Stop.antt =====
-- The pages of a process that ends, one by one (the loop of `proc_cleanup` in
-- Virtual_Memory/student-src/paging.c).
use ece.Prelude.{
  none, ℕ, zero, suc, ◌+◌, ◌<◌, ◌≤◌, ◌≡◌, ◌≢◌, ◌⊎◌, inl, inr, refl, ap, ◌∙◌, ◌==◌, ltb, true, some,
  arith, List, ◌∈◌, update_ne, update, Bool-cases, subst, Returns, Returns-bind, if◌then◌else◌,
}
use ece.Vm.Types.{num_pages, num_frames, Pte, Frame, page_table, SwapQueue, Vm}
use ece.Vm.Swap.{swap_free}
use ece.Vm.Paging.{set_fte, unmap, cleanup_page, cleanup_pages}
use ece.Vm.SwapSpace.Unlink.{without}
use ece.Vm.SwapSpace.Look.{page_of, page_of-locate, page_of-zero}
use ece.Vm.SwapSpace.Free.{Freed, swap_free-Freed}
use ece.Vm.Flat.Tables.{
  put_entry, put_entry_ne, put_entry_self, same_page, Tables-put, Tables-remark, Tables_apart,
}
use ece.Vm.Flat.Pages.{Pages}
use ece.Vm.Flat.Mapping.{Pages-leave, Pages-relive}
use ece.Vm.Flat.Covered.{Covers, Covers-put}
use ece.Vm.Flat.Contents.{Memory, Contents, Contents-put}
use ece.Vm.Flat.Paged.{Paged, read_pte-some, write_pte-some}
use ece.Vm.Flat.Start.{Listed}

-- Of process `p` the pages from `i` on are left.
abbrev pub Left : List ℕ → ℕ → ℕ → ℕ → ℕ → Type 0
Left xs p i q n = (q ∈ xs) × (n < num_pages) × (q ≡ p → i ≤ n)

module _ (xs : List ℕ) (p : ℕ) (runs : p ∈ xs) (table_at : ℕ → ℕ) (m : Memory) (room : ℕ) where
  abbrev pub Clears : ℕ → Vm → Type 0
  Clears i t = (entries : ℕ → ℕ → Pte) × Paged (Listed xs) table_at (Left xs p i) m room entries t

  module _ (i : ℕ) (lo : i < num_pages) (entries : ℕ → ℕ → Pte) (v : Vm)
      (h : Paged (Listed xs) table_at (Left xs p i) m room entries v) where
    abbrev e : Pte
    e = entries p i

    lives : Left xs p i p i
    lives = (runs, lo, λ same. omega arith)

    apart_of : (q k : ℕ) → Left xs p (suc i) q k → (q ≢ p) ⊎ (k ≢ i)
    apart_of q k (m, lo', later) = elim (Bool-cases (q == p)) [
      | inl same ↦ inr (λ z. let le = later (ground arith) in omega (arith, le, z))
      | inr other ↦ inl (ground arith)
    ]

    sooner : (q k : ℕ) → Left xs p (suc i) q k → Left xs p i q k
    sooner q k (m, lo', later) = (m, lo', λ same. omega (arith, later same))

    still : (q k : ℕ) → Left xs p i q k → (q ≢ p) ⊎ (k ≢ i) → Left xs p (suc i) q k
    still q k (m, lo', later) apart = (
      m,
      lo',
      λ same. elim apart [ inl ne ↦ absurd (ne same) | inr ne ↦ omega (arith, later same, ne) ],
    )

    -- The machine behind the test of the valid bit.
    abbrev unmapped : Vm
    unmapped =
        let f = v.frame_table e.pfn in
        (if e.valid == 0 then v else set_fte e.pfn (record f { mapped = 0 }) v)

    unmapped-Pages :
        (e' : Pte) → Pages (Left xs p (suc i)) (put_entry entries p i e') unmapped.frame_table
    unmapped-Pages e' = elim (Bool-cases (e.valid == 0)) [
      | inl invalid ↦ rw invalid (
          Pages-relive h.pages (Left xs p (suc i)) (put_entry entries p i e')
            (λ q k l valid. (sooner q k l, put_entry_ne entries p i e' q k (apart_of q k l)))
            (λ q k l valid. elim (same_page p i q k) [
              | inl (is_p, is_n) ↦ absurd (valid (rw (is_p, is_n) (ground arith)))
              | inr apart ↦ (still q k l apart, put_entry_ne entries p i e' q k apart)
            ]))
      | inr valid ↦ rw valid (
          Pages-leave h.pages (Left xs p (suc i)) p i e.pfn e' lives (ground arith) refl
            (λ q k l valid'. (sooner q k l, apart_of q k l)) still)
    ]

    cleared-Contents :
        (e' : Pte) (mem : ℕ → Frame) (q : SwapQueue)
        → ((s : ℕ) → s ≢ e.swap → page_of q s ≡ page_of v.swap_queue s)
        → ((r k : ℕ)
            → Left xs p (suc i) r k
            → (entries r k).valid ≢ 0
            → mem (entries r k).pfn ≡ v.mem (entries r k).pfn)
        → Contents (Left xs p (suc i)) (put_entry entries p i e') mem q m
    cleared-Contents e' mem q keeps frames =
        Contents-put h.contents (Left xs p (suc i)) mem m p i e' q e.swap keeps
          (λ r k l apart. (
            sooner r k l,
            refl,
            (λ s same.
                h.contents.unique p i r k lives (sooner r k l) apart (λ z. s (same ∙ z)) same),
            frames r k l,
          ))
          (λ l. absurd (elim (apart_of p i l) [ inl ne ↦ ne refl | inr ne ↦ ne refl ]))

    unmapped_same :
        (unmapped.mem ≡ v.mem)
        × (unmapped.swap_queue ≡ v.swap_queue)
        × (unmapped.replacement ≡ v.replacement)
        × ((f : ℕ) → (unmapped.frame_table f).protected ≡ (v.frame_table f).protected)
    unmapped_same = elim (Bool-cases (e.valid == 0)) [
      | inl invalid ↦ rw invalid (refl, refl, refl, λ f. refl)
      | inr valid ↦ rw valid (refl, refl, refl, λ f. ground arith)
    ]

    cleared-Covers :
        (e' : Pte) (q : SwapQueue)
        → ((s : ℕ) → page_of q s ≢ none → (s ≢ e.swap) × (page_of v.swap_queue s ≢ none))
        → Covers (Left xs p (suc i)) (put_entry entries p i e') q
    cleared-Covers e' q before =
        Covers-put h.covered (Left xs p (suc i)) p i e' q (λ s there. inr (before s there)) still

    kept-Clears : e.swap ≡ 0 → Clears (suc i) unmapped
    kept-Clears unswapped =
        let (mem, queue, strategy, marks) = unmapped_same in
        let self = put_entry_self entries p i in
        (
          entries,
          record {
            tables =
                rw mem (Tables-remark (Listed xs) table_at h.tables unmapped.frame_table marks);
            pages =
                subst (λ (x : ℕ → ℕ → Pte). Pages (Left xs p (suc i)) x unmapped.frame_table) self
                  (unmapped-Pages e);
            contents =
                rw (mem, queue)
                  (subst (λ (x : ℕ → ℕ → Pte). Contents (Left xs p (suc i)) x v.mem v.swap_queue m)
                    self
                    (cleared-Contents e v.mem v.swap_queue (λ s ne. refl) (λ r k l valid. refl)));
            covered = rw queue (
                subst (λ (x : ℕ → ℕ → Pte). Covers (Left xs p (suc i)) x v.swap_queue) self
                  (cleared-Covers e v.swap_queue λ s there. (
                    (λ same. there (
                        ap (page_of v.swap_queue) (same ∙ unswapped)
                        ∙ page_of-zero v.swap_queue h.addresses h.queue)),
                    there,
                  )));
            addresses = h.addresses;
            queue = rw queue h.queue;
            lives = λ q k (l, lo', later). (l, lo');
            strategy = strategy ∙ h.strategy;
            few = rw queue h.few;
            tokens = rw queue h.tokens;
          },
        )

    freed-Clears :
        (a : ℕ) (e' : Pte) (q : SwapQueue)
        → Freed v.swap_queue e h.addresses a (e', q)
        → (t : Vm) → t.mem ≡ update v.mem (table_at p) (page_table (update (entries p) i e'))
        → t.frame_table ≡ unmapped.frame_table
        → t.swap_queue ≡ q
        → t.replacement ≡ v.replacement
        → Clears (suc i) t
    freed-Clears a e' q f t mem ft queue strategy =
        let (_, _, _, marks) = unmapped_same in
        (
          put_entry entries p i e',
          record {
            tables =
                rw (mem, ft)
                  (Tables-remark (Listed xs) table_at
                    (Tables-put (Listed xs) table_at h.tables p i e' runs) unmapped.frame_table
                    marks);
            pages = rw ft (unmapped-Pages e');
            contents =
                rw (mem, queue)
                  (cleared-Contents e'
                    (update v.mem (table_at p) (page_table (update (entries p) i e'))) q
                    (λ s ne. f.pages (record { valid = 0; dirty = 0; pfn = 0; swap = s }) ne)
                    (λ r k l valid.
                      update_ne v.mem (table_at p) (page_table (update (entries p) i e'))
                        (entries r k).pfn
                        (Tables_apart (Listed xs) table_at h.tables p (entries r k).pfn runs
                          (h.pages.held r k (sooner r k l) valid).unprotected)));
            covered = rw queue (
                cleared-Covers e' q λ s there.
                  let ne : s ≢ e.swap = λ same. there (ap (page_of q) same ∙ f.gone) in
                  (
                    ne,
                    λ z.
                        there (f.pages (record { valid = 0; dirty = 0; pfn = 0; swap = s }) ne ∙ z),
                  ));
            addresses = without a h.addresses;
            queue = rw queue f.queue;
            lives = λ q k (l, lo', later). (l, lo');
            strategy = strategy ∙ h.strategy;
            few = rw queue (omega (arith, h.few, f.entries));
            tokens = rw queue (omega (arith, h.tokens, f.next_token));
          },
        )

    unmaps : (if e.valid == 0 then some v else unmap e.pfn v) ≡ some unmapped
    unfolding unmap
    unmaps = elim (Bool-cases (e.valid == 0)) [
      | inl invalid ↦ rw invalid refl
      | inr valid ↦
          let below : ltb e.pfn num_frames ≡ true =
            ground (arith, (h.pages.held p i lives (ground arith)).in_memory) in
          rw (valid, below) refl
    ]

    cleanup_page-Clears : Returns (Clears (suc i)) (cleanup_page (table_at p) i v)
    unfolding cleanup_page
    cleanup_page-Clears =
        let in_memory = (h.tables.table p runs).in_memory in
        let holds = (h.tables.table p runs).holds in
        let (mem, queue, strategy, marks) = unmapped_same in
        rw (read_pte-some v (table_at p) i (entries p) in_memory holds lo, unmaps)
          (elim (Bool-cases (e.swap == 0)) [
            | inl unswapped ↦ rw unswapped (kept-Clears (ground arith))
            | inr swapped ↦
                let (a, found) =
                  page_of-locate v.swap_queue e.swap h.addresses h.queue
                    ((h.contents.stored p i lives).findable (ground arith)) in
                rw (swapped, queue)
                  (Returns-bind (Freed v.swap_queue e h.addresses a) (Clears (suc i))
                    (swap_free v.swap_queue e) _
                    (swap_free-Freed v.swap_queue e h.queue (omega (arith, h.few)) a found)
                    λ (e', q) _ f.
                      rw
                        (write_pte-some (record unmapped { swap_queue = q }) (table_at p) i e'
                          (entries p) in_memory (ap (λ (x : ℕ → Frame). x (table_at p)) mem ∙ holds)
                          lo)
                        (freed-Clears a e' q f _
                          (ap
                            (λ (x : ℕ → Frame).
                              update x (table_at p) (page_table (update (entries p) i e')))
                            mem)
                          refl refl strategy))
          ])

  pub cleanup_pages-Clears :
      (rounds i : ℕ) (v : Vm)
      → i + rounds ≤ num_pages
      → Clears i v
      → Returns (Clears (i + rounds)) (cleanup_pages (table_at p) rounds i v)
  unfolding cleanup_pages
  cleanup_pages-Clears zero i v fits c = let at : i + 0 ≡ i = omega arith in rw at c
  cleanup_pages-Clears (suc rounds) i v fits (entries, h) =
      let at : i + suc rounds ≡ suc i + rounds = omega arith in
      rw at (
        Returns-bind (Clears (suc i)) (Clears (suc i + rounds)) (cleanup_page (table_at p) i v) _
          (cleanup_page-Clears i (omega arith) entries v h)
          λ u _ c. cleanup_pages-Clears rounds (suc i) u (omega arith) c)
