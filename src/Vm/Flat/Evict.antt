-- ===== src/Vm/Flat/Evict.antt =====
-- The eviction of a page (`free_frame` of Virtual_Memory/student-src/page_replacement.c).
use ece.Prelude.{
  none, ℕ, suc, ◌<◌, ◌≡◌, ◌≢◌, ◌⊎◌, inl, inr, refl, sym, ap, ◌∙◌, ◌==◌, arith, update_ne, update,
  some, Bool-cases, if◌then◌else◌, Returns, Returns-bind,
}
use ece.Vm.Types.{num_frames, Pte, page, page_table, Vm}
use ece.Vm.Paging.{set_fte, evict, free_frame}
use ece.Vm.Victim.{IsEvictable, IsVictim, select_victim_frame-IsVictim}
use ece.Vm.SwapSpace.Look.{page_of}
use ece.Vm.Flat.Tables.{
  put_entry, put_entry_ne, put_entry_at, Tables_apart, same_page, Tables-put, Tables-remark,
}
use ece.Vm.Flat.Mapping.{Pages-leave, unmap_fte}
use ece.Vm.Flat.Covered.{Covers-put}
use ece.Vm.Flat.Contents.{Memory, load_page-page_of, Contents-put}
use ece.Vm.Flat.Paged.{
  Paged, Paged-same, Paged-remark, Paged-room, referenced-SameMarks, read_pte-some, write_pte-some,
  Cleaned, clean-Cleaned,
}

module _ (runs : ℕ → Type 0) (table_at : ℕ → ℕ) (live : ℕ → ℕ → Type 0) (m : Memory) (room : ℕ)
    (entries : ℕ → ℕ → Pte) where
  -- The frame is free in `t`, and the pages are as before.
  pub record Vacates (f : ℕ) (t : Vm) : Type 0 where
    pub entries' : ℕ → ℕ → Pte
    pub paged : Paged runs table_at live m room entries' t
    pub free : (t.frame_table f).mapped ≡ 0
    pub unprotected : (t.frame_table f).protected ≡ 0
    pub invalid : (p n : ℕ) → (entries p n).valid ≡ 0 → (entries' p n).valid ≡ 0

  module _ (v : Vm) (h : Paged runs table_at live m (suc room) entries v) (p n f : ℕ)
      (lives : live p n) (valid : (entries p n).valid ≢ 0) (points : (entries p n).pfn ≡ f) where
    -- The machine after the entry and the frame were written.
    evicted :
        (e : Pte) (v' : Vm)
        → Cleaned (m p n) (entries p n) v (e, v')
        → Vacates f (
            set_fte f (unmap_fte (v'.frame_table f)) (record v' {
              mem =
                  update v'.mem
                    (table_at p)
                    (page_table (update (entries p) n (record e { valid = 0 })));
            }))
    evicted e v' c =
        let (runs_p, lo) = h.lives p n lives in
        let hold = h.pages.held p n lives valid in
        let unprotected : (v.frame_table f).protected ≡ 0 =
          ap (λ (x : ℕ). (v.frame_table x).protected) (sym points) ∙ hold.unprotected in
        let others : (r k : ℕ)
            → live r k
            → (r ≢ p) ⊎ (k ≢ n)
            → (entries r k).swap ≢ 0
            → (entries r k).swap ≢ e.swap =
          λ r k l apart s same. elim c.token [
            | inl old ↦
                h.contents.unique p n r k lives l apart (λ z. s (same ∙ old ∙ z)) (same ∙ old)
            | inr (new, _) ↦
                (h.contents.stored r k l).findable s (ap (page_of v.swap_queue) same ∙ new)
          ] in
        let covers : (s : ℕ)
            → page_of v'.swap_queue s ≢ none
            → ((s ≡ e.swap) × live p n)
              ⊎ ((s ≢ (entries p n).swap) × (page_of v.swap_queue s ≢ none)) =
          λ s there. elim (Bool-cases (s == e.swap)) [
            | inl hit ↦ inl (ground arith, lives)
            | inr other ↦
                let before : page_of v.swap_queue s ≢ none =
                  λ z. there (c.others s (ground arith) ∙ z) in
                inr (
                  λ same. elim c.token [
                    | inl old ↦ ground arith
                    | inr (_, gone) ↦ before (ap (page_of v.swap_queue) same ∙ gone)
                  ],
                  before,
                )
          ] in
        let e' = record e { valid = 0 } in
        let is_mem : v'.mem ≡ v.mem = ap (λ (x : Vm). x.mem) c.same in
        let is_ft : v'.frame_table ≡ v.frame_table = ap (λ (x : Vm). x.frame_table) c.same in
        let strategy : v'.replacement ≡ v.replacement = ap (λ (x : Vm). x.replacement) c.same in
        rw (is_mem, is_ft)
          (record {
            entries' = put_entry entries p n e';
            paged = record {
              tables =
                  Tables-remark runs table_at (Tables-put runs table_at h.tables p n e' runs_p)
                    (update v.frame_table f (unmap_fte (v.frame_table f))) (λ g. ground arith);
              pages =
                  Pages-leave h.pages live p n f e' lives valid points
                    (λ q k l v. (
                      l,
                      elim (same_page p n q k) [
                        | inl at ↦
                            absurd (v (ap (λ (x : Pte). x.valid) (put_entry_at entries p n e' at)))
                        | inr apart ↦ apart
                      ],
                    ))
                    (λ q k l apart. l);
              contents =
                  Contents-put h.contents live
                    (update v.mem (table_at p) (page_table (update (entries p) n e'))) m p n e'
                    v'.swap_queue e.swap c.others
                    (λ r k l apart. (
                      l,
                      refl,
                      others r k l apart,
                      λ valid'. update_ne v.mem (table_at p) _ (entries r k).pfn (
                          Tables_apart runs table_at h.tables p (entries r k).pfn runs_p
                            (h.pages.held r k l valid').unprotected),
                    ))
                    (λ l. (
                      record {
                        valid_flag = omega arith;
                        dirty_flag = omega (arith, c.clean);
                        in_frame = λ bad. absurd (bad refl);
                        backed = λ why.
                            load_page-page_of e' v'.swap_queue
                            ∙ sym (load_page-page_of e v'.swap_queue)
                            ∙ c.backed;
                        findable = c.findable;
                      },
                      λ s. refl,
                    ));
              covered = Covers-put h.covered live p n e' v'.swap_queue covers (λ r k l apart. l);
              addresses = c.addresses;
              queue = c.queue;
              lives = h.lives;
              strategy = strategy ∙ h.strategy;
              few = omega (arith, h.few, c.size);
              tokens = omega (arith, h.tokens, c.next_token);
            };
            free = ground arith;
            unprotected = ground (arith, unprotected);
            invalid = λ q k z. elim (same_page p n q k) [
              | inl at ↦ ap (λ (x : Pte). x.valid) (put_entry_at entries p n e' at)
              | inr apart ↦ ap (λ (x : Pte). x.valid) (put_entry_ne entries p n e' q k apart) ∙ z
            ];
          })

  evict-Vacates :
      (v : Vm) (f : ℕ)
      → Paged runs table_at live m (suc room) entries v
      → ((p : ℕ) → (v.procs p).saved_ptbr ≡ table_at p)
      → f < num_frames
      → (v.frame_table f).protected ≡ 0
      → (v.frame_table f).mapped ≢ 0
      → Returns (Vacates f) (evict f v)
  unfolding evict
  evict-Vacates v f h tables lo open_frame used =
      let o = h.pages.owned f lo open_frame used in
      let p = o.process in
      let n = o.vpn in
      let hold = h.pages.held p n o.lives o.valid in
      let process : (v.frame_table f).process ≡ some p =
        ap (λ (x : ℕ). (v.frame_table x).process) (sym o.points) ∙ hold.process in
      let vpn : (v.frame_table f).vpn ≡ n =
        ap (λ (x : ℕ). (v.frame_table x).vpn) (sym o.points) ∙ hold.vpn in
      let (runs_p, in_table) = h.lives p n o.lives in
      let in_memory = (h.tables.table p runs_p).in_memory in
      let holds = (h.tables.table p runs_p).holds in
      let stored = h.contents.stored p n o.lives in
      let here : v.mem f ≡ page (m p n) = ap v.mem (sym o.points) ∙ stored.in_frame o.valid in
      let read = read_pte-some v (table_at p) n (entries p) in_memory holds in_table in
      rw (process, vpn, tables, read)
        (Returns-bind (Cleaned (m p n) (entries p n) v) (Vacates f) _ _
          (clean-Cleaned f (m p n) (entries p n) v h.queue stored (omega (arith, h.few))
            (omega (arith, h.tokens)) here)
          λ (e, v') _ c.
            let holds' = ap (λ (x : Vm). x.mem (table_at p)) c.same ∙ holds in
            rw
              (write_pte-some v' (table_at p) n (record e { valid = 0 }) (entries p) in_memory
                holds' in_table)
              (evicted v h p n f o.lives o.valid o.points e v' c))

  -- The reference bit is reset.
  reset :
      (f : ℕ) (u : Vm)
      → Vacates f u
      → Vacates f (set_fte f (let g = u.frame_table f in record g { referenced = 0 }) u)
  reset f u c =
      let same = referenced-SameMarks u.frame_table f 0 in
      record {
        entries' = c.entries';
        paged = Paged-remark c.paged _ same;
        free = (same f).mapped ∙ c.free;
        unprotected = (same f).protected ∙ c.unprotected;
        invalid = c.invalid;
      }

  vacated :
      (v : Vm) (f : ℕ)
      → Paged runs table_at live m (suc room) entries v
      → ((p : ℕ) → (v.procs p).saved_ptbr ≡ table_at p)
      → f < num_frames
      → (v.frame_table f).protected ≡ 0
      → Returns (Vacates f) (if (v.frame_table f).mapped == 1 then evict f v else some v)
  vacated v f h tables lo open_frame = elim (Bool-cases ((v.frame_table f).mapped == 1)) [
    | inl used ↦ rw used (evict-Vacates v f h tables lo open_frame (ground arith))
    | inr free ↦
        let once = h.pages.once f in
        rw free (record {
          entries' = entries;
          paged = Paged-room h room (omega arith);
          free = ground arith;
          unprotected = open_frame;
          invalid = λ p n z. z;
        })
  ]

  -- Where some frame of memory is not protected, freeing a frame does not fail.
  pub free_frame-Vacates :
      (v : Vm) (f : ℕ)
      → Paged runs table_at live m (suc room) entries v
      → ((p : ℕ) → (v.procs p).saved_ptbr ≡ table_at p)
      → IsEvictable v.frame_table f
      → Returns (λ (i, t). (i < num_frames) × Vacates i t) (free_frame v)
  unfolding free_frame
  free_frame-Vacates v f h tables open_frame =
      Returns-bind (λ (i, t). IsVictim v i t) (λ (i, t). (i < num_frames) × Vacates i t) _ _
        (select_victim_frame-IsVictim v f open_frame h.strategy)
        λ (i, t) _ c.
          let eq : t ≡ record v { rng = t.rng } = (elim c.choice [
            | inl (_, _, same) ↦ same ∙ ap (λ (x : Vm). record v { rng = x.rng }) (sym same)
            | inr (_, same) ↦ same
          ]) in
          let h' =
            Paged-same h t (ap (λ (x : Vm). x.mem) eq) (ap (λ (x : Vm). x.frame_table) eq)
              (ap (λ (x : Vm). x.swap_queue) eq) (ap (λ (x : Vm). x.replacement) eq) in
          let open_frame' : (t.frame_table i).protected ≡ 0 =
            ap (λ (x : Vm). (x.frame_table i).protected) eq ∙ c.evictable.1 in
          Returns-bind (Vacates i) (λ (i, t). (i < num_frames) × Vacates i t) _
            (λ u. let g = u.frame_table i in some (i, set_fte i (record g { referenced = 0 }) u))
            (vacated t i h' (λ p. ap (λ (x : Vm). (x.procs p).saved_ptbr) eq ∙ tables p)
              c.evictable.0 open_frame')
            λ u _ k. (c.evictable.0, reset i u k)
