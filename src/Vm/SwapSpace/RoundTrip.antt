-- ===== src/Vm/SwapSpace/RoundTrip.antt =====
-- A page that `swap_write` of swapops.c (Virtual_Memory/simulator-src) stores is what `swap_read`
-- finds.
use ece.Prelude.{
  subst, ap, Returns-mono, ℕ, suc, ◌<◌, ◌≡◌, refl, sym, ◌∙◌, true, false, Option, none, some, List,
  [], ◌∷◌, arith, ◌∈◌, ◌==◌, Bool-cases, inl, inr, some-eq-some, update, Returns, Option-cases,
  u64_mod, inc64,
}
use ece.Vm.Types.{SwapInfo, SwapQueue, Pte}
use ece.Vm.Swap.{
  create_entry, set_next, link, count_entry, swap_queue_enqueue, store_page, write_entry,
  swap_write,
}
use ece.Vm.SwapSpace.Linked.{Linked, nil, cons, SameLink, frame, last, last-mem}
use ece.Vm.SwapSpace.Search.{
  locate, swap_queue_find-locate, locate-some, locate-frame, Linked-mem, swap_read-locate,
}
use ece.Vm.SwapSpace.Queue.{IsQueue, Swapped}
use ece.Vm.SwapSpace.Append.{Appends, Appends-Swapped}

-- The page of an entry that is there is replaced.
module _ (src : ℕ → ℕ) (pte : Pte) (q : SwapQueue) {xs : List ℕ} (v : IsQueue q xs) (p : ℕ)
    (i : SwapInfo) (at : q.heap p ≡ some i) where
  abbrev pub replaced : SwapQueue
  replaced = record q { heap = update q.heap p (some (record i { page_data = src })) }

  replaced-SameLink : (a : ℕ) → SameLink q.heap replaced.heap a
  replaced-SameLink a j e = elim (Bool-cases (a == p)) [
    | inl same ↦
        let i_is_j : some i ≡ some j = ground arith in
        let eq : i ≡ j = some-eq-some i_is_j in
        (record i { page_data = src }, ground arith, ground (arith, eq), ground (arith, eq))
    | inr other ↦ (j, ground arith, refl, refl)
  ]

  replaced_token :
      (a : ℕ) (j k : SwapInfo) → q.heap a ≡ some j → replaced.heap a ≡ some k → j.token ≡ k.token
  replaced_token a j k e e' =
      let (j', at, _, token) = replaced-SameLink a j e in
      sym token ∙ ap (λ (x : SwapInfo). x.token) (some-eq-some (sym at ∙ e'))

  pub replaced-IsQueue : IsQueue replaced xs
  replaced-IsQueue = record {
    linked = frame v.linked λ a m. replaced-SameLink a;
    at_end = v.at_end;
    counted = v.counted;
    old = v.old;
    tokens = λ a j m e. ground (arith, v.tokens a i m, v.tokens a j m);
    started = v.started;
    single = λ a b j k m m' e e' same.
        let (j₀, at) = Linked-mem a v.linked m in
        let (k₀, at') = Linked-mem b v.linked m' in
        v.single a b j₀ k₀ m m' at at'
          (replaced_token a j₀ j at e ∙ same ∙ sym (replaced_token b k₀ k at' e'));
  }

  pub replaced-Swapped : locate q.heap pte.swap xs ≡ some p → Swapped src pte replaced
  replaced-Swapped found =
      let (j, at_p, token, m) = locate-some pte.swap p v.linked found in
      let (positive, _) = v.tokens p j m at_p in
      record {
        addresses = xs;
        queue = replaced-IsQueue;
        readable =
            swap_read-locate replaced pte xs p (record i { page_data = src })
              replaced-IsQueue.linked (omega (arith, v.counted))
              (locate-frame pte.swap v.linked (λ a n. replaced-SameLink a) ∙ found) (ground arith);
        marked = ground arith;
      }

Linked_head :
    {heap : ℕ → Option SwapInfo} {p : Option ℕ} {xs : List ℕ}
    → Linked heap p xs
    → p ≡ (elim xs [ [] ↦ none | a ∷ ys ↦ some a ])
Linked_head nil = refl
Linked_head (cons e n out c) = refl

module _ (src : ℕ → ℕ) (pte : Pte) (q : SwapQueue) (few : suc q.size < u64_mod)
    (tokens_left : suc q.next_token < u64_mod) where
  abbrev pub Added : List ℕ → Pte × SwapQueue → Type 0
  Added xs (pte', q') = (pte' ≡ record pte { swap = q.next_token }) × Appends src q q' xs

  add_first : q.head ≡ none → Returns (Added []) (write_entry none pte src q)
  unfolding write_entry create_entry swap_queue_enqueue set_next link count_entry store_page inc64
  add_first at_head =
      let here : (q.fresh == q.fresh) ≡ true = ground arith in
      rw (here, at_head, here)
        (
          refl,
          record {
            fresh_at = ground arith;
            others = λ b m ne. cc;
            end_at = λ l j e. cc;
            head = refl;
            tail = refl;
            size = ground arith;
            fresh = refl;
            next_token = ground arith;
          },
        )

  add_behind :
      (a : ℕ) (ys : List ℕ) (l : ℕ) (i : SwapInfo)
      → q.head ≡ some a
      → q.tail ≡ some l
      → last a ys ≡ l
      → q.heap l ≡ some i
      → l < q.fresh
      → ((b : ℕ) → b ∈ a ∷ ys → b < q.fresh)
      → Returns (Added (a ∷ ys)) (write_entry none pte src q)
  unfolding write_entry create_entry swap_queue_enqueue set_next link count_entry store_page inc64
  add_behind a ys l i at_head at_tail is_last at below old =
      let here : (q.fresh == q.fresh) ≡ true = ground arith in
      let apart : (l == q.fresh) ≡ false = ground arith in
      let apart' : (q.fresh == l) ≡ false = ground arith in
      rw (here, at_head, at_tail, apart, at, apart', here)
        (
          refl,
          record {
            fresh_at = ground arith;
            others = λ b m ne. ground (arith, old b m);
            end_at = λ k j e f. ground arith;
            head = ground arith;
            tail = refl;
            size = ground arith;
            fresh = refl;
            next_token = ground arith;
          },
        )

  pub add_entry : (xs : List ℕ) → IsQueue q xs → Returns (Added xs) (write_entry none pte src q)
  add_entry [] v = add_first (Linked_head v.linked)
  add_entry (a ∷ ys) v =
      let (i, at) = Linked-mem (last a ys) v.linked (last-mem a ys) in
      add_behind a ys (last a ys) i (Linked_head v.linked) v.at_end refl at
        (v.old (last a ys) (last-mem a ys)) v.old

  write_found :
      (xs : List ℕ) (p : ℕ)
      → IsQueue q xs
      → locate q.heap pte.swap xs ≡ some p
      → Returns (λ (pte', q'). Swapped src pte' q') (write_entry (some p) pte src q)
  unfolding write_entry store_page
  write_found xs p v found =
      let (i, at, _, _) = locate-some pte.swap p v.linked found in
      rw at (replaced-Swapped src pte q v p i at found)

  -- On a queue whose tokens have been given out, with room for one more entry and one
  -- more token, writing a page does not fail. It leaves such a queue again, and an entry with a token
  -- other than 0, for which a read gives the page.
  pub swap_write-Swapped :
      (xs : List ℕ)
      → IsQueue q xs
      → Returns (λ (pte', q'). Swapped src pte' q') (swap_write q pte src)
  unfolding swap_write
  swap_write-Swapped xs v =
      rw (swap_queue_find-locate q pte.swap xs v.linked (omega (arith, v.counted)))
        (elim (Option-cases (locate q.heap pte.swap xs)) [
          | inl absent ↦ rw absent (
              Returns-mono (Added xs) (λ (pte', q'). Swapped src pte' q')
                (write_entry none pte src q) (add_entry xs v)
                λ (pte', q') (same, h).
                  subst (λ (x : Pte). Swapped src x q') (sym same)
                    (Appends-Swapped src q q' pte v h))
          | inr (p, found) ↦ rw found (write_found xs p v found)
        ])
