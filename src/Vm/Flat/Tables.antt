-- ===== src/Vm/Flat/Tables.antt =====
-- The page tables of the running processes, and the frames that hold them (paging.c in
-- Virtual_Memory/student-src).
use ece.Prelude.{
  ℕ, ◌<◌, ◌≡◌, ◌≢◌, ◌⊎◌, inl, inr, refl, sym, ap, ◌∙◌, ◌==◌, arith, update, fun_ext, Bool-cases,
  false, true,
}
use ece.Vm.Types.{num_frames, Pte, Fte, Frame, page_table}

-- Entry `e` at page `n` of process `p`, in a table of one for each page of each process.
abbrev pub put_entry {ℓ} : {A : Type ℓ} → (ℕ → ℕ → A) → ℕ → ℕ → A → ℕ → ℕ → A
put_entry entries p n e = update entries p (update (entries p) n e)

-- Where the entry is not replaced.
pub put_entry_ne {ℓ} :
    {A : Type ℓ} (entries : ℕ → ℕ → A) (p n : ℕ) (e : A) (p' n' : ℕ)
    → (p' ≢ p) ⊎ (n' ≢ n)
    → put_entry entries p n e p' n' ≡ entries p' n'
put_entry_ne entries p n e p' n' apart = elim (Bool-cases (p' == p)) [
  | inr other ↦ rw other refl
  | inl same ↦ elim (Bool-cases (n' == n)) [
    | inr other ↦ rw (same, other) (ap (λ (x : ℕ). entries x n') (ground arith))
    | inl same' ↦ absurd (ground arith)
  ]
]

pub put_entry_eq {ℓ} :
    {A : Type ℓ} (entries : ℕ → ℕ → A) (p n : ℕ) (e : A) → put_entry entries p n e p n ≡ e
put_entry_eq entries p n e =
    let here : (p == p) ≡ true = ground arith in
    let here' : (n == n) ≡ true = ground arith in rw (here, here') refl

pub put_entry_at {ℓ} :
    {A : Type ℓ} (entries : ℕ → ℕ → A) (p n : ℕ) (e : A) {p' n' : ℕ}
    → (p' ≡ p) × (n' ≡ n)
    → put_entry entries p n e p' n' ≡ e
put_entry_at entries p n e (is_p, is_n) = rw (is_p, is_n) (put_entry_eq entries p n e)

-- The entry that is replaced, or another one.
pub same_page : (p n p' n' : ℕ) → ((p' ≡ p) × (n' ≡ n)) ⊎ ((p' ≢ p) ⊎ (n' ≢ n))
same_page p n p' n' = elim (Bool-cases (p' == p)) [
  | inr other ↦ inr (inl (ground arith))
  | inl same ↦ elim (Bool-cases (n' == n)) [
    | inr other ↦ inr (inr (ground arith))
    | inl same' ↦ inl (ground arith, ground arith)
  ]
]

pub put_entry_self {ℓ} :
    {A : Type ℓ} (entries : ℕ → ℕ → A) (p n : ℕ) → put_entry entries p n (entries p n) ≡ entries
put_entry_self entries p n = fun_ext (λ q. fun_ext (λ k. elim (same_page p n q k) [
  | inl (is_p, is_n) ↦ put_entry_at entries p n (entries p n) (is_p, is_n) ∙ rw (is_p, is_n) refl
  | inr apart ↦ put_entry_ne entries p n (entries p n) q k apart
]))

-- Each process of `runs` has a protected frame, `table_at` of it, that holds the table of its
-- `entries`. No other frame but 0 is protected.
module _ (runs : ℕ → Type 0) (table_at : ℕ → ℕ) where
  pub record IsTableFrame (entries : ℕ → ℕ → Pte) (mem : ℕ → Frame) (ft : ℕ → Fte) (p : ℕ)
      : Type 0 where
    pub nonzero : table_at p ≢ 0
    pub in_memory : table_at p < num_frames
    pub protected : (ft (table_at p)).protected ≢ 0
    pub holds : mem (table_at p) ≡ page_table (entries p)

  pub record Tables (entries : ℕ → ℕ → Pte) (mem : ℕ → Frame) (ft : ℕ → Fte) : Type 0 where
    pub frame_zero : (ft 0).protected ≢ 0
    pub table : (p : ℕ) → runs p → IsTableFrame entries mem ft p
    pub distinct : (p p' : ℕ) → runs p → runs p' → table_at p ≡ table_at p' → p ≡ p'
    pub only :
        (f : ℕ)
        → f < num_frames
        → (ft f).protected ≢ 0
        → (f ≡ 0) ⊎ ((p : ℕ) × runs p × (table_at p ≡ f))

  module _ {entries : ℕ → ℕ → Pte} {mem : ℕ → Frame} {ft : ℕ → Fte}
      (h : Tables entries mem ft) where
    -- A frame that is not protected holds no page table.
    pub Tables_apart : (p f : ℕ) → runs p → (ft f).protected ≡ 0 → f ≢ table_at p
    Tables_apart p f r open_frame same =
        (h.table p r).protected (ap (λ (x : ℕ). (ft x).protected) (sym same) ∙ open_frame)

    -- Other marks of the frames may change.
    pub Tables-remark :
        (ft' : ℕ → Fte) → ((f : ℕ) → (ft' f).protected ≡ (ft f).protected) → Tables entries mem ft'
    Tables-remark ft' same = record {
      frame_zero = ground (arith, same 0, h.frame_zero);
      table = λ p r.
          let t = h.table p r in
          record {
            nonzero = t.nonzero;
            in_memory = t.in_memory;
            protected = ground (arith, same (table_at p), t.protected);
            holds = t.holds;
          };
      distinct = h.distinct;
      only = λ f lo prot. h.only f lo (ground (arith, same f));
    }

    -- Frames that are not protected may be written.
    pub Tables-fill :
        (f : ℕ) (c : Frame) → (ft f).protected ≡ 0 → Tables entries (update mem f c) ft
    Tables-fill f c open_frame = record {
      frame_zero = h.frame_zero;
      table = λ p r.
          let t = h.table p r in
          record {
            nonzero = t.nonzero;
            in_memory = t.in_memory;
            protected = t.protected;
            holds =
                let other : (table_at p == f) ≡ false = elim (Bool-cases (table_at p == f)) [
                  | inr other ↦ other
                  | inl same ↦
                      let eq : table_at p ≡ f = ground arith in
                      absurd (t.protected (ap (λ (x : ℕ). (ft x).protected) eq ∙ open_frame))
                ] in
                rw other t.holds;
          };
      distinct = h.distinct;
      only = h.only;
    }

    -- An entry is replaced in memory.
    pub Tables-put :
        (p n : ℕ) (e : Pte)
        → runs p
        → Tables
            (put_entry entries p n e)
            (update mem (table_at p) (page_table (update (entries p) n e)))
            ft
    Tables-put p n e runs_p = record {
      frame_zero = h.frame_zero;
      table = λ q r.
          let t = h.table q r in
          record {
            nonzero = t.nonzero;
            in_memory = t.in_memory;
            protected = t.protected;
            holds = elim (Bool-cases (q == p)) [
              | inl same ↦
                  let eq : q ≡ p = ground arith in
                  let eq' : (table_at q == table_at p) ≡ true = rw eq (ground arith) in
                  rw (same, eq') refl
              | inr other ↦
                  let apart : (table_at q == table_at p) ≡ false =
                    elim (Bool-cases (table_at q == table_at p)) [
                      | inr other' ↦ other'
                      | inl same' ↦
                          let eq = h.distinct q p r runs_p (ground arith) in absurd (ground arith)
                    ] in
                  rw (other, apart) t.holds
            ];
          };
      distinct = h.distinct;
      only = h.only;
    }
