-- ===== src/Vm/Flat/Covered.antt =====
-- Each page that the swap space of Virtual_Memory holds belongs to a page of a running process.
use ece.Prelude.{ℕ, ◌≡◌, ◌≢◌, ◌⊎◌, inl, inr, sym, ap, ◌∙◌, ◌==◌, arith, none, Bool-cases}
use ece.Vm.Types.{Pte, SwapQueue}
use ece.Vm.SwapSpace.Look.{page_of}
use ece.Vm.Flat.Tables.{put_entry, put_entry_ne, put_entry_eq, same_page}

-- A token that gives a page is the token of a live page.
pub record Covers (live : ℕ → ℕ → Type 0) (entries : ℕ → ℕ → Pte) (q : SwapQueue) : Type 0 where
  pub owner : (t : ℕ) → page_of q t ≢ none → (p : ℕ) × (n : ℕ) × live p n × ((entries p n).swap ≡ t)

module _ {live : ℕ → ℕ → Type 0} {entries : ℕ → ℕ → Pte} {q : SwapQueue}
    (h : Covers live entries q) where
  pub Covers-put :
      (live' : ℕ → ℕ → Type 0) (p n : ℕ) (e : Pte) (q' : SwapQueue)
      → ((s : ℕ)
          → page_of q' s ≢ none
          → ((s ≡ e.swap) × live' p n) ⊎ ((s ≢ (entries p n).swap) × (page_of q s ≢ none)))
      → ((r k : ℕ) → live r k → (r ≢ p) ⊎ (k ≢ n) → live' r k)
      → Covers live' (put_entry entries p n e) q'
  Covers-put live' p n e q' origin still = record {
    owner = λ t there. elim (origin t there) [
      | inl (is_e, l) ↦ (p, n, l, ap (λ (x : Pte). x.swap) (put_entry_eq entries p n e) ∙ sym is_e)
      | inr (other, before) ↦
          let (r, k, l, token) = h.owner t before in
          elim (same_page p n r k) [
            | inl (is_p, is_n) ↦ absurd (
                other (
                  sym token
                  ∙ ap (λ (x : ℕ). (entries x k).swap) is_p
                  ∙ ap (λ (x : ℕ). (entries p x).swap) is_n))
            | inr apart ↦ (
              r,
              k,
              still r k l apart,
              ap (λ (x : Pte). x.swap) (put_entry_ne entries p n e r k apart) ∙ token,
            )
          ]
    ];
  }

  -- The entry keeps its token.
  pub Covers-edit :
      (p n : ℕ) (e : Pte)
      → live p n
      → e.swap ≡ (entries p n).swap
      → Covers live (put_entry entries p n e) q
  Covers-edit p n e l same =
      Covers-put live p n e q
        (λ s there. elim (Bool-cases (s == e.swap)) [
          | inl hit ↦ inl (ground arith, l)
          | inr other ↦ inr (ground arith, there)
        ])
        (λ r k l' apart. l')

  pub Covers-relive :
      (live' : ℕ → ℕ → Type 0) (entries' : ℕ → ℕ → Pte)
      → ((r k : ℕ) → live r k → live' r k × (entries' r k ≡ entries r k))
      → Covers live' entries' q
  Covers-relive live' entries' still = record {
    owner = λ t there.
        let (r, k, l, token) = h.owner t there in
        let (l', same) = still r k l in (r, k, l', ap (λ (x : Pte). x.swap) same ∙ token);
  }
