-- ===== src/Vm/Flat/Contents.antt =====
-- Where the bytes of each page are, in its frame or in the swap space (page_fault.c and
-- page_replacement.c in Virtual_Memory/student-src).
use ece.Prelude.{
  ℕ, ◌≤◌, ◌≡◌, ◌≢◌, ◌⊎◌, inl, inr, refl, sym, ap, ◌∙◌, ◌==◌, arith, some, none, Bool-cases,
  if◌then◌else◌,
}
use ece.Vm.Types.{Pte, Frame, page, SwapQueue}
use ece.Vm.Paging.{load_page, zero_pte}
use ece.Vm.SwapSpace.Look.{page_of, swap_read-page_of}
use ece.Vm.Flat.Tables.{put_entry, put_entry_ne, put_entry_eq, same_page}

-- The byte at each offset of each page of each process.
abbrev pub Memory : Type 0
Memory = ℕ → ℕ → ℕ → ℕ

abbrev pub zero_page : ℕ → ℕ
zero_page = λ i. 0

-- The entry leads to the bytes: through its frame if it is valid, and through the swap space if
-- the frame is not valid or not dirty.
pub record IsStored (mem : ℕ → Frame) (q : SwapQueue) (bytes : ℕ → ℕ) (e : Pte) : Type 0 where
  pub valid_flag : e.valid ≤ 1
  pub dirty_flag : e.dirty ≤ 1
  pub in_frame : e.valid ≢ 0 → mem e.pfn ≡ page bytes
  pub backed : (e.valid ≡ 0) ⊎ (e.dirty ≡ 0) → load_page e q ≡ some bytes
  pub findable : e.swap ≢ 0 → page_of q e.swap ≢ none

pub load_page-page_of :
    (e : Pte) (q : SwapQueue)
    → load_page e q ≡ (if e.swap == 0 then some zero_page else page_of q e.swap)
unfolding load_page
load_page-page_of e q = rw (swap_read-page_of q e) refl

pub load_page_same :
    (e : Pte) (q q' : SwapQueue)
    → (e.swap ≢ 0 → page_of q' e.swap ≡ page_of q e.swap)
    → load_page e q' ≡ load_page e q
load_page_same e q q' same = elim (Bool-cases (e.swap == 0)) [
  | inl none_there ↦ rw (load_page-page_of e q, load_page-page_of e q', none_there) refl
  | inr there ↦ rw (load_page-page_of e q, load_page-page_of e q', there) (same (ground arith))
]

IsStored-frame :
    {mem mem' : ℕ → Frame} {q q' : SwapQueue} {bytes : ℕ → ℕ} {e : Pte}
    → (e.valid ≢ 0 → mem' e.pfn ≡ mem e.pfn)
    → (e.swap ≢ 0 → page_of q' e.swap ≡ page_of q e.swap)
    → IsStored mem q bytes e
    → IsStored mem' q' bytes e
IsStored-frame {q = q} {q'} {e = e} same same' h = record {
  valid_flag = h.valid_flag;
  dirty_flag = h.dirty_flag;
  in_frame = λ v. same v ∙ h.in_frame v;
  backed = λ c. load_page_same e q q' same' ∙ h.backed c;
  findable = λ s lost. h.findable s (sym (same' s) ∙ lost);
}

pub IsStored-zero : (mem : ℕ → Frame) (q : SwapQueue) → IsStored mem q zero_page zero_pte
unfolding load_page
IsStored-zero mem q = record {
  valid_flag = omega arith;
  dirty_flag = omega arith;
  in_frame = λ v. absurd (v refl);
  backed = λ c. refl;
  findable = λ s. absurd (s refl);
}

IsStored-eq :
    {mem : ℕ → Frame} {q : SwapQueue} {bytes bytes' : ℕ → ℕ} {e e' : Pte}
    → e' ≡ e
    → bytes' ≡ bytes
    → IsStored mem q bytes e
    → IsStored mem q bytes' e'
IsStored-eq same same' h = rw (same, same') h

-- Each page of `live` is stored, and no two have the same token.
pub record Contents (live : ℕ → ℕ → Type 0) (entries : ℕ → ℕ → Pte) (mem : ℕ → Frame)
    (q : SwapQueue) (m : Memory) : Type 0 where
  pub stored : (p n : ℕ) → live p n → IsStored mem q (m p n) (entries p n)
  pub unique :
      (p n p' n' : ℕ)
      → live p n
      → live p' n'
      → (p' ≢ p) ⊎ (n' ≢ n)
      → (entries p n).swap ≢ 0
      → (entries p' n').swap ≢ (entries p n).swap

flip_apart : {p n p' n' : ℕ} → (p' ≢ p) ⊎ (n' ≢ n) → (p ≢ p') ⊎ (n ≢ n')
flip_apart (inl ne) = inl (λ e. ne (sym e))
flip_apart (inr ne) = inr (λ e. ne (sym e))

swap_of : {e e' : Pte} → e ≡ e' → e.swap ≡ e'.swap
swap_of same = ap (λ (e : Pte). e.swap) same

module _ {live : ℕ → ℕ → Type 0} {entries : ℕ → ℕ → Pte} {mem : ℕ → Frame} {q : SwapQueue}
    {m : Memory} (h : Contents live entries mem q m) (live' : ℕ → ℕ → Type 0) (mem' : ℕ → Frame)
    (m' : Memory) where
  -- A page that is neither replaced nor has the token `t`.
  abbrev pub KeepsPage : ℕ → ℕ → ℕ → Type 0
  KeepsPage t r k =
      live r k
      × (m' r k ≡ m r k)
      × ((entries r k).swap ≢ 0 → (entries r k).swap ≢ t)
      × ((entries r k).valid ≢ 0 → mem' (entries r k).pfn ≡ mem (entries r k).pfn)

  -- The entry of one page is replaced, with what the swap space has under one token.
  pub Contents-put :
      (p n : ℕ) (e : Pte) (q' : SwapQueue) (t : ℕ)
      → ((s : ℕ) → s ≢ t → page_of q' s ≡ page_of q s)
      → ((r k : ℕ) → live' r k → (r ≢ p) ⊎ (k ≢ n) → KeepsPage t r k)
      → (live' p n → IsStored mem' q' (m' p n) e × (e.swap ≢ 0 → e.swap ≡ t))
      → Contents live' (put_entry entries p n e) mem' q' m'
  Contents-put p n e q' t keeps others here =
      let kept : (r k : ℕ)
          → live' r k
          → (r ≢ p) ⊎ (k ≢ n)
          → IsStored mem' q' (m' r k) (entries r k) =
        λ r k l apart.
          let (l', same, ne, frame) = others r k l apart in
          IsStored-eq refl same
            (IsStored-frame frame (λ s. keeps (entries r k).swap (ne s)) (h.stored r k l')) in
      record {
        stored = λ r k l. elim (same_page p n r k) [
          | inl (is_p, is_n) ↦
              let l' : live' p n = rw (← is_p, ← is_n) l in
              rw (is_p, is_n) (IsStored-eq (put_entry_eq entries p n e) refl (here l').0)
          | inr apart ↦ IsStored-eq (put_entry_ne entries p n e r k apart) refl (kept r k l apart)
        ];
        unique = λ r k r' k' l l' apart s same. elim (same_page p n r k) [
          | inl (is_p, is_n) ↦
              let is_e : put_entry entries p n e r k ≡ e =
                rw (is_p, is_n) (put_entry_eq entries p n e) in
              let away : (r' ≢ p) ⊎ (k' ≢ n) = rw (← is_p, ← is_n) apart in
              let (_, _, ne, _) = others r' k' l' away in
              let kept' = swap_of (put_entry_ne entries p n e r' k' away) in
              let token = (here (rw (← is_p, ← is_n) l)).1 (λ z. s (swap_of is_e ∙ z)) in
              let at_t = sym kept' ∙ same ∙ swap_of is_e ∙ token in
              ne (λ z. s (sym same ∙ kept' ∙ z)) at_t
          | inr away ↦
              let (l₁, _, ne, _) = others r k l away in
              let kept₁ = swap_of (put_entry_ne entries p n e r k away) in
              elim (same_page p n r' k') [
                | inl (is_p, is_n) ↦
                    let is_e : put_entry entries p n e r' k' ≡ e =
                      rw (is_p, is_n) (put_entry_eq entries p n e) in
                    let token =
                      (here (rw (← is_p, ← is_n) l')).1 (λ z. s (sym same ∙ swap_of is_e ∙ z)) in
                    ne (λ z. s (kept₁ ∙ z)) (sym kept₁ ∙ sym same ∙ swap_of is_e ∙ token)
                | inr away' ↦
                    let (l₂, _, _, _) = others r' k' l' away' in
                    let kept₂ = swap_of (put_entry_ne entries p n e r' k' away') in
                    h.unique r k r' k' l₁ l₂ apart (λ z. s (kept₁ ∙ z)) (sym kept₂ ∙ same ∙ kept₁)
              ]
        ];
      }

  -- Pages of zeros are added, or pages left out.
  pub Contents-relive :
      (entries' : ℕ → ℕ → Pte)
      → ((r k : ℕ)
          → live' r k
          → ((entries' r k ≡ zero_pte) × (m' r k ≡ zero_page))
            ⊎ ((entries' r k ≡ entries r k) × KeepsPage 0 r k))
      → Contents live' entries' mem' q m'
  Contents-relive entries' pages = record {
    stored = λ r k l. elim (pages r k l) [
      | inl (is_zero, zeros) ↦ IsStored-eq is_zero zeros (IsStored-zero mem' q)
      | inr (same, (l', same', ne, frame)) ↦
          IsStored-eq same same' (IsStored-frame frame (λ s. refl) (h.stored r k l'))
    ];
    unique = λ r k r' k' l l' apart s same. elim (pages r k l) [
      | inl (is_zero, zeros) ↦ s (swap_of is_zero)
      | inr (kept₁, keep₁) ↦ elim (pages r' k' l') [
        | inl (is_zero, zeros) ↦ s (sym same ∙ swap_of is_zero)
        | inr (kept₂, keep₂) ↦
            h.unique r k r' k' keep₁.0 keep₂.0 apart (λ z. s (swap_of kept₁ ∙ z))
              (sym (swap_of kept₂) ∙ same ∙ swap_of kept₁)
      ]
    ];
  }
