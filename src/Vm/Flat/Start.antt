-- ===== src/Vm/Flat/Start.antt =====
-- A process that gets its page table (`proc_init` of Virtual_Memory/student-src/paging.c).
use ece.Prelude.{
  ℕ, ◌<◌, ◌≡◌, ◌≢◌, ◌⊎◌, inl, inr, sym, ap, ◌∙◌, ◌==◌, arith, List, ◌∷◌, ◌∈◌, ◌∉◌, update_ne,
  update_eq, update, Bool-cases, subst,
}
use ece.Vm.Types.{num_frames, num_pages, Pte, Fte, Frame, page_table, SwapQueue}
use ece.Vm.Paging.{zero_pte}
use ece.Vm.Flat.Tables.{Tables, IsTableFrame, Tables_apart}
use ece.Vm.Flat.Pages.{Pages, Pages-idle}
use ece.Vm.Flat.Mapping.{Pages-relive}
use ece.Vm.Flat.Contents.{Memory, zero_page, Contents, Contents-relive}

-- The pages of the listed processes.
abbrev pub Listed : List ℕ → ℕ → Type 0
Listed xs p = p ∈ xs

abbrev pub Lists : List ℕ → ℕ → ℕ → Type 0
Lists xs p n = (p ∈ xs) × (n < num_pages)

pub listed : (p : ℕ) (xs : List ℕ) (q : ℕ) → q ∈ p ∷ xs → (q ≡ p) ⊎ ((q ≢ p) × (q ∈ xs))
listed p xs q m = elim (Bool-cases (q == p)) [
  | inl same ↦ inl (ground arith)
  | inr other ↦ inr (ground arith, ground arith)
]

pub member_apart : (p : ℕ) (xs : List ℕ) (q : ℕ) → p ∉ xs → q ∈ xs → q ≢ p
member_apart p xs q out m same = let m' : p ∈ xs = subst (λ (x : ℕ). x ∈ xs) same m in ground arith

abbrev pub new_entries : ℕ → (ℕ → ℕ → Pte) → ℕ → ℕ → Pte
new_entries p entries = update entries p (λ n. zero_pte)

module _ (xs : List ℕ) (table_at table_at' : ℕ → ℕ) (p i : ℕ) (out : p ∉ xs)
    (at_p : table_at' p ≡ i) (at_others : (q : ℕ) → q ≢ p → table_at' q ≡ table_at q)
    (lo : i < num_frames) where
  module _ (entries : ℕ → ℕ → Pte) (mem : ℕ → Frame) (ft : ℕ → Fte) where
    abbrev new_mem : ℕ → Frame
    new_mem = update mem i (page_table (λ n. zero_pte))

    abbrev new_mark : Fte
    new_mark = let f = ft i in record f { protected = 1 }

    abbrev new_table : ℕ → Fte
    new_table = update ft i new_mark

    module _ (unprotected : (ft i).protected ≡ 0)
        (h : Tables (Listed xs) table_at entries mem ft) where
      nonzero : 0 ≢ i
      nonzero z = h.frame_zero (ap (λ (x : ℕ). (ft x).protected) z ∙ unprotected)

      old_frame : (q : ℕ) → q ∈ xs → (table_at q ≢ i) × (table_at' q ≡ table_at q)
      old_frame q m = (
        (λ same. Tables_apart (Listed xs) table_at h q i m unprotected (sym same)),
        at_others q (member_apart p xs q out m),
      )

      first_frame :
          IsTableFrame (Listed (p ∷ xs)) table_at' (new_entries p entries) new_mem new_table p
      first_frame = record {
        nonzero = λ z. nonzero (sym (sym at_p ∙ z));
        in_memory = omega (arith, at_p);
        protected = rw (at_p, update_eq ft i new_mark) (λ z. ground arith);
        holds = rw at_p (
            update_eq mem i (page_table (λ n. zero_pte))
            ∙ ap (λ (x : ℕ → Pte). page_table x) (sym (update_eq entries p (λ n. zero_pte))));
      }

      later_frame :
          (q : ℕ)
          → q ∈ xs
          → IsTableFrame (Listed (p ∷ xs)) table_at' (new_entries p entries) new_mem new_table q
      later_frame q m =
          let (apart, same) = old_frame q m in
          let t = h.table q m in
          let ne = member_apart p xs q out m in
          record {
            nonzero = λ z. t.nonzero (sym same ∙ z);
            in_memory = omega (arith, same, t.in_memory);
            protected = rw (same, update_ne ft i new_mark (table_at q) apart) t.protected;
            holds =
                rw
                  (
                    same,
                    update_ne mem i (page_table (λ n. zero_pte)) (table_at q) apart,
                    update_ne entries p (λ n. zero_pte) q ne,
                  )
                  t.holds;
          }

      distinct_frames : (q q' : ℕ) → q ∈ p ∷ xs → q' ∈ p ∷ xs → table_at' q ≡ table_at' q' → q ≡ q'
      distinct_frames q q' m m' same = elim (listed p xs q m) [
        | inl is_p ↦ elim (listed p xs q' m') [
          | inl is_p' ↦ is_p ∙ sym is_p'
          | inr (ne', old') ↦
              let (apart, kept) = old_frame q' old' in
              absurd (apart (sym kept ∙ sym same ∙ ap table_at' is_p ∙ at_p))
        ]
        | inr (ne, old) ↦
            let (apart, kept) = old_frame q old in
            elim (listed p xs q' m') [
              | inl is_p' ↦ absurd (apart (sym kept ∙ same ∙ ap table_at' is_p' ∙ at_p))
              | inr (ne', old') ↦ h.distinct q q' old old' (sym kept ∙ same ∙ (old_frame q' old').1)
            ]
      ]

      pub Tables-add : Tables (Listed (p ∷ xs)) table_at' (new_entries p entries) new_mem new_table
      Tables-add = record {
        frame_zero = rw (update_ne ft i new_mark 0 nonzero) h.frame_zero;
        table = λ q m. elim (listed p xs q m) [
          | inl same ↦ rw same first_frame
          | inr (ne, m') ↦ later_frame q m'
        ];
        distinct = distinct_frames;
        only = λ f lo' prot. elim (Bool-cases (f == i)) [
          | inl same ↦ inr (p, ground arith, at_p ∙ ground arith)
          | inr other ↦ elim (h.only f lo' (rw other at prot)) [
            | inl z ↦ inl z
            | inr (q, m, at) ↦ inr (q, ground arith, (old_frame q m).1 ∙ at)
          ]
        ];
      }

    pub Pages-add :
        Pages (Lists xs) entries ft
        → (ft i).mapped ≡ 0
        → Pages (Lists (p ∷ xs)) (new_entries p entries) new_table
    Pages-add h free =
        Pages-relive
          (Pages-idle h i new_mark (inr free) (inl (λ z. ground arith)) (omega (arith, free)))
          (Lists (p ∷ xs)) (new_entries p entries)
          (λ q k (m, lo') valid. elim (listed p xs q m) [
            | inl same ↦ absurd (
                valid (
                  rw same
                    (ap (λ (x : ℕ → Pte). (x k).valid) (update_eq entries p (λ n. zero_pte)))))
            | inr (ne, m') ↦
                ((m', lo'), ap (λ (x : ℕ → Pte). x k) (update_ne entries p (λ n. zero_pte) q ne))
          ])
          (λ q k (m, lo') valid.
            let ne = member_apart p xs q out m in
            (
              (ground arith, lo'),
              ap (λ (x : ℕ → Pte). x k) (update_ne entries p (λ n. zero_pte) q ne),
            ))

    pub Contents-add :
        {queue : SwapQueue} {m : Memory}
        → Pages (Lists xs) entries ft
        → Contents (Lists xs) entries mem queue m
        → (ft i).mapped ≡ 0
        → Contents
            (Lists (p ∷ xs))
            (new_entries p entries)
            new_mem
            queue
            (update m p (λ n. zero_page))
    Contents-add {m = m} h c free =
        Contents-relive c (Lists (p ∷ xs)) new_mem (update m p (λ n. zero_page))
          (new_entries p entries)
          (λ q k (l, lo'). elim (listed p xs q l) [
            | inl same ↦ inl (
              rw same (ap (λ (x : ℕ → Pte). x k) (update_eq entries p (λ n. zero_pte))),
              rw same (ap (λ (x : ℕ → ℕ → ℕ). x k) (update_eq m p (λ n. zero_page))),
            )
            | inr (ne, l') ↦ inr (
              ap (λ (x : ℕ → Pte). x k) (update_ne entries p (λ n. zero_pte) q ne),
              (
                (l', lo'),
                ap (λ (x : ℕ → ℕ → ℕ). x k) (update_ne m p (λ n. zero_page) q ne),
                (λ s. s),
                λ valid. update_ne mem i (page_table (λ n. zero_pte)) (entries q k).pfn (λ same.
                    (h.held q k (l', lo') valid).mapped
                      (ap (λ (x : ℕ). (ft x).mapped) same ∙ free)),
              ),
            )
          ])
