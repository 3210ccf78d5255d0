-- ===== src/Vm/SwapSpace/Save.antt =====
-- What `swap_write` of swapops.c (Virtual_Memory/simulator-src) leaves of all pages, the one that is
-- written and the others.
use ece.Prelude.{
  ℕ, suc, ◌<◌, ◌≤◌, ◌≡◌, ◌≢◌, ◌⊎◌, refl, sym, ap, ◌∙◌, none, some, List, ◌∷◌, [], ◌++◌, arith, ◌∈◌,
  ◌==◌, Bool-cases, Option-cases, inl, inr, some-eq-some, Returns, Returns-mono, u64_mod,
}
use ece.Vm.Types.{SwapInfo, SwapQueue, Pte}
use ece.Vm.Swap.{swap_write, store_page, write_entry}
use ece.Vm.SwapSpace.Search.{locate, locate-some, swap_queue_find-locate}
use ece.Vm.SwapSpace.Queue.{IsQueue, ends}
use ece.Vm.SwapSpace.Append.{Appends, Appends-IsQueue, Appends-Swapped}
use ece.Vm.SwapSpace.RoundTrip.{replaced, replaced-IsQueue, replaced-Swapped, Added, add_entry}
use ece.Vm.SwapSpace.Look.{
  swap_read-page_of, page_of, page_of-look, SamePage, look-frame, look-append, look-none,
  look-eq-none,
}

-- The page is stored under the entry's token, an old one or one that no page had, and every other
-- token has the page it had.
pub record Saved (src : ℕ → ℕ) (q : SwapQueue) (pte : Pte) (r : Pte × SwapQueue) : Type 0 where
  pub addresses : List ℕ
  pub queue : IsQueue (r.1) addresses
  pub saved : page_of (r.1) (r.0).swap ≡ some src
  pub marked : (r.0).swap ≢ 0
  pub entry : r.0 ≡ record pte { swap = (r.0).swap }
  pub token :
      ((r.0).swap ≡ pte.swap) ⊎ ((page_of q (r.0).swap ≡ none) × (page_of q pte.swap ≡ none))
  pub others : (s : ℕ) → s ≢ (r.0).swap → page_of (r.1) s ≡ page_of q s
  pub tokens : r.1.next_token ≤ suc q.next_token
  pub entries : r.1.size ≤ suc q.size

module _ (src : ℕ → ℕ) (pte : Pte) (q : SwapQueue) {xs : List ℕ} (v : IsQueue q xs) where
  -- An old entry keeps its token and its page when another is appended.
  Appends-SamePage :
      (q' : SwapQueue) (t a : ℕ) → Appends src q q' xs → a ∈ xs → SamePage q.heap q'.heap t a
  Appends-SamePage q' t a h m i e = elim (ends xs a) [
    | inl last ↦ (record i { next = some q.fresh }, h.end_at a i last e, refl, λ same. refl)
    | inr inner ↦ (i, h.others a m inner ∙ e, refl, λ same. refl)
  ]

  appended :
      locate q.heap pte.swap xs ≡ none
      → (r : Pte × SwapQueue) → (r.0 ≡ record pte { swap = q.next_token }) × Appends src q (r.1) xs
      → Saved src q pte r
  appended absent (pte', q') (is_new, h) =
      let new_entry : SwapInfo = record { token = q.next_token; page_data = src; next = none } in
      let u = Appends-IsQueue src q q' v h in
      let swap : pte'.swap ≡ q.next_token = ap (λ (e : Pte). e.swap) is_new in
      let s = Appends-Swapped src q q' pte v h in
      record {
        addresses = xs ++ q.fresh ∷ [];
        queue = u;
        saved =
            ap (page_of q') swap
            ∙ sym (swap_read-page_of q' (record pte { swap = q.next_token }))
            ∙ s.readable;
        marked = omega (arith, v.started, swap);
        entry = ground (arith, is_new);
        token = inr (
          ap (page_of q) swap
              ∙ page_of-look q q.next_token xs v
              ∙ look-none q.next_token v.linked
                  (λ a i m e same. omega (arith, v.tokens a i m e, same)),
          page_of-look q pte.swap xs v ∙ look-eq-none pte.swap v.linked absent,
        );
        others = λ t ne.
            page_of-look q' t (xs ++ q.fresh ∷ []) u
            ∙ look-append t q.fresh new_entry v.linked (λ a m. Appends-SamePage q' t a h m)
                h.fresh_at (λ same. ne (ground arith))
            ∙ sym (page_of-look q t xs v);
        tokens = omega (arith, h.next_token);
        entries = omega (arith, h.size);
      }

  overwritten :
      (p : ℕ)
      → locate q.heap pte.swap xs ≡ some p
      → Returns (Saved src q pte) (write_entry (some p) pte src q)
  unfolding write_entry store_page
  overwritten p found =
      let (i, at, token, m) = locate-some pte.swap p v.linked found in
      let q' = replaced src pte q v p i at in
      let u = replaced-IsQueue src pte q v p i at in
      let s = replaced-Swapped src pte q v p i at found in
      rw at (record {
        addresses = xs;
        queue = u;
        saved = sym (swap_read-page_of q' pte) ∙ s.readable;
        marked = s.marked;
        entry = refl;
        token = inl refl;
        others = λ t ne.
            page_of-look q' t xs u
            ∙ look-frame t v.linked (λ a n. replaced-SamePage p i at token t ne a)
            ∙ sym (page_of-look q t xs v);
        tokens = omega arith;
        entries = omega arith;
      })
    where
      replaced-SamePage :
          (p : ℕ) (i : SwapInfo) (at : q.heap p ≡ some i)
          → i.token ≡ pte.swap
          → (t : ℕ) → t ≢ pte.swap
          → (a : ℕ) → SamePage q.heap (replaced src pte q v p i at).heap t a
      replaced-SamePage p i at token t ne a j e = elim (Bool-cases (a == p)) [
        | inl same ↦
            let i_is_j : some i ≡ some j = ground arith in
            let eq : i ≡ j = some-eq-some i_is_j in
            (
              record i { page_data = src },
              ground arith,
              ground (arith, eq),
              λ hit. absurd (ne (ground (arith, eq))),
            )
        | inr other ↦ (j, ground arith, refl, λ hit. refl)
      ]

-- On a well-formed swap queue with room for one more entry and one more token, writing a page does
-- not fail. A read of the token that the entry then has gives the page; it is the token that the
-- entry had, or one that gave no page before. A read of any other token gives what it gave before.
pub swap_write-Saved :
    (src : ℕ → ℕ) (pte : Pte) (q : SwapQueue) {xs : List ℕ}
    → IsQueue q xs
    → suc q.size < u64_mod
    → suc q.next_token < u64_mod
    → Returns (Saved src q pte) (swap_write q pte src)
unfolding swap_write
swap_write-Saved src pte q {xs} v few left =
    rw (swap_queue_find-locate q pte.swap xs v.linked (omega (arith, v.counted)))
      (elim (Option-cases (locate q.heap pte.swap xs)) [
        | inl absent ↦ rw absent (
            Returns-mono (Added src pte q few left xs) (Saved src q pte)
              (write_entry none pte src q) (add_entry src pte q few left xs v)
              (appended src pte q v absent))
        | inr (p, found) ↦ rw found (overwritten src pte q v p found)
      ])
