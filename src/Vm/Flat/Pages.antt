-- ===== src/Vm/Flat/Pages.antt =====
-- The frames of the frame table and the entries that point to them (paging.c, page_fault.c and
-- page_replacement.c in Virtual_Memory/student-src).
use ece.Prelude.{
  ℕ, ◌<◌, ◌≤◌, ◌≡◌, ◌≢◌, ◌⊎◌, inl, inr, refl, sym, ap, ◌∙◌, ◌==◌, arith, update, some, Bool-cases,
  false, some-eq-some, subst,
}
use ece.Vm.Types.{num_frames, Pte, Fte}
use ece.Vm.Flat.Tables.{put_entry, put_entry_ne, put_entry_eq, same_page}

-- The frame is mapped for page `n` of process `p`.
pub record Holds (ft : ℕ → Fte) (p n f : ℕ) : Type 0 where
  pub in_memory : f < num_frames
  pub unprotected : (ft f).protected ≡ 0
  pub mapped : (ft f).mapped ≢ 0
  pub process : (ft f).process ≡ some p
  pub vpn : (ft f).vpn ≡ n

-- What may be changed in a frame table entry at any time.
pub record SameMarks (a b : Fte) : Type 0 where
  pub protected : b.protected ≡ a.protected
  pub mapped : b.mapped ≡ a.mapped
  pub process : b.process ≡ a.process
  pub vpn : b.vpn ≡ a.vpn

-- No page is in the frame.
abbrev pub IsIdle : Fte → Type 0
IsIdle e = (e.protected ≢ 0) ⊎ (e.mapped ≡ 0)

pub Holds-remark :
    {ft ft' : ℕ → Fte} {p n f : ℕ} → SameMarks (ft f) (ft' f) → Holds ft p n f → Holds ft' p n f
Holds-remark s h = record {
  in_memory = h.in_memory;
  unprotected = s.protected ∙ h.unprotected;
  mapped = λ e. h.mapped (sym s.mapped ∙ e);
  process = s.process ∙ h.process;
  vpn = s.vpn ∙ h.vpn;
}

pub SameMarks-update :
    (ft : ℕ → Fte) (f : ℕ) (e : Fte) (g : ℕ) → g ≢ f → SameMarks (ft g) (update ft f e g)
SameMarks-update ft f e g ne =
    let other : (g == f) ≡ false = ground arith in
    let same : update ft f e g ≡ ft g = rw other refl in
    record {
      protected = ap (λ (x : Fte). x.protected) same;
      mapped = ap (λ (x : Fte). x.mapped) same;
      process = ap (λ (x : Fte). x.process) same;
      vpn = ap (λ (x : Fte). x.vpn) same;
    }

pub Holds-apart :
    {ft : ℕ → Fte} {p n p' n' f g : ℕ}
    → Holds ft p n f
    → Holds ft p' n' g
    → (p' ≢ p) ⊎ (n' ≢ n)
    → g ≢ f
Holds-apart {ft} h k (inl ne) same =
    ne (some-eq-some (sym k.process ∙ ap (λ (x : ℕ). (ft x).process) same ∙ h.process))
Holds-apart {ft} h k (inr ne) same = ne (sym k.vpn ∙ ap (λ (x : ℕ). (ft x).vpn) same ∙ h.vpn)

-- The valid entries of the pages of `live` are exactly what the mapped frames hold.
module _ (live : ℕ → ℕ → Type 0) where
  -- A valid entry points to the frame.
  pub record Owner (entries : ℕ → ℕ → Pte) (f : ℕ) : Type 0 where
    pub process : ℕ
    pub vpn : ℕ
    pub lives : live process vpn
    pub valid : (entries process vpn).valid ≢ 0
    pub points : (entries process vpn).pfn ≡ f

  pub record Pages (entries : ℕ → ℕ → Pte) (ft : ℕ → Fte) : Type 0 where
    pub once : (f : ℕ) → (ft f).mapped ≤ 1
    pub held : (p n : ℕ) → live p n → (entries p n).valid ≢ 0 → Holds ft p n (entries p n).pfn
    pub owned :
        (f : ℕ) → f < num_frames → (ft f).protected ≡ 0 → (ft f).mapped ≢ 0 → Owner entries f

module _ {live : ℕ → ℕ → Type 0} {entries : ℕ → ℕ → Pte} {ft : ℕ → Fte}
    (h : Pages live entries ft) where
  pub Pages-remark : (ft' : ℕ → Fte) → ((f : ℕ) → SameMarks (ft f) (ft' f)) → Pages live entries ft'
  Pages-remark ft' same = record {
    once = λ f. omega (arith, (same f).mapped, h.once f);
    held = λ p n l valid. Holds-remark (same (entries p n).pfn) (h.held p n l valid);
    owned = λ f lo prot used.
        h.owned f lo (sym (same f).protected ∙ prot) (λ e. used ((same f).mapped ∙ e));
  }

  -- A frame without a page gets other marks, and stays without one.
  pub Pages-idle :
      (f : ℕ) (e : Fte)
      → IsIdle (ft f)
      → IsIdle e
      → e.mapped ≤ 1
      → Pages live entries (update ft f e)
  Pages-idle f e was is once = record {
    once = λ g. ground (arith, h.once g);
    held = λ p n l valid.
        let k = h.held p n l valid in
        let ne : (entries p n).pfn ≢ f = λ same. elim was [
          | inl prot ↦ prot (sym (ap (λ (x : ℕ). (ft x).protected) same) ∙ k.unprotected)
          | inr free ↦ k.mapped (ap (λ (x : ℕ). (ft x).mapped) same ∙ free)
        ] in
        Holds-remark (SameMarks-update ft f e (entries p n).pfn ne) k;
    owned = λ g lo prot used. elim (Bool-cases (g == f)) [
      | inl same ↦
          absurd (elim is [ inl prot' ↦ prot' (rw same at prot) | inr free ↦ rw same at used free ])
      | inr other ↦ h.owned g lo (rw other at prot) (rw other at used)
    ];
  }

  -- An entry that keeps its frame and its valid bit.
  pub Pages-edit :
      (p n : ℕ) (e : Pte)
      → e.valid ≡ (entries p n).valid
      → e.pfn ≡ (entries p n).pfn
      → Pages live (put_entry entries p n e) ft
  Pages-edit p n e valid pfn =
      let same_valid : (p' n' : ℕ) → (put_entry entries p n e p' n').valid ≡ (entries p' n').valid =
        λ p' n'. elim (same_page p n p' n') [
          | inl (is_p, is_n) ↦
              rw (is_p, is_n) (ap (λ (x : Pte). x.valid) (put_entry_eq entries p n e) ∙ valid)
          | inr apart ↦ ap (λ (x : Pte). x.valid) (put_entry_ne entries p n e p' n' apart)
        ] in
      let same_pfn : (p' n' : ℕ) → (put_entry entries p n e p' n').pfn ≡ (entries p' n').pfn =
        λ p' n'. elim (same_page p n p' n') [
          | inl (is_p, is_n) ↦
              rw (is_p, is_n) (ap (λ (x : Pte). x.pfn) (put_entry_eq entries p n e) ∙ pfn)
          | inr apart ↦ ap (λ (x : Pte). x.pfn) (put_entry_ne entries p n e p' n' apart)
        ] in
      record {
        once = h.once;
        held = λ p' n' l v.
            subst (λ (f : ℕ). Holds ft p' n' f) (sym (same_pfn p' n'))
              (h.held p' n' l (λ z. v (same_valid p' n' ∙ z)));
        owned = λ f lo prot used.
            let o = h.owned f lo prot used in
            record {
              process = o.process;
              vpn = o.vpn;
              lives = o.lives;
              valid = λ z. o.valid (sym (same_valid o.process o.vpn) ∙ z);
              points = same_pfn o.process o.vpn ∙ o.points;
            };
      }
