-- ===== src/Vm/SwapSpace/Free.antt =====
-- `swap_free` of swapops.c (Virtual_Memory/simulator-src): the entry is taken out of the queue, and
-- the other pages stay.
use ece.Prelude.{
  ℕ, suc, ◌<◌, ◌≤◌, ◌≡◌, ◌≢◌, refl, sym, ap, ◌∙◌, false, Option, none, some, List, [], ◌∷◌, arith,
  ◌∈◌, ◌==◌, ◌>>=◌, Bool-cases, inl, inr, some-eq-some, Returns, u64_mod,
}
use ece.Vm.Types.{SwapInfo, SwapQueue, Pte}
use ece.Vm.Swap.{swap_queue_dequeue, swap_read, swap_free}
use ece.Vm.SwapSpace.Linked.{Linked, nil, cons}
use ece.Vm.SwapSpace.Search.{locate, locate_first, locate-some, swap_queue_find-locate}
use ece.Vm.SwapSpace.Queue.{IsQueue}
use ece.Vm.SwapSpace.Look.{page_of, page_of-look, look-none}
use ece.Vm.SwapSpace.Unlink.{without, pred_of, unlink, dequeue_from-unlink}
use ece.Vm.SwapSpace.Without.{mem-without, length-without}
use ece.Vm.SwapSpace.Removal.{
  Keeps, Removes, unlink-Removes, Removes-Keeps, Removes-old, Removes-IsQueue,
}

-- Tokens are looked for as before, where the entry at `p` has another.
locate-without :
    {heap heap' : ℕ → Option SwapInfo} (t p : ℕ) (i : SwapInfo) {c : Option ℕ} {xs : List ℕ}
    → Linked heap c xs
    → heap p ≡ some i
    → i.token ≢ t
    → ((b : ℕ) → Keeps heap heap' p b)
    → locate heap' t (without p xs) ≡ locate heap t xs
locate-without t p i nil at ne keeps = refl
locate-without {heap = heap} {heap' = heap'} t p i (cons {a} {i = j} {xs} e n out l) at ne keeps =
    elim (Bool-cases (a == p)) [
      | inl same ↦
          let entry : j ≡ i = some-eq-some (sym e ∙ ap heap (ground arith) ∙ at) in
          let pass : (j.token == t) ≡ false =
            ground (arith, ap (λ (x : SwapInfo). x.token) entry) in
          rw (same, locate_first heap t a j xs e, pass)
            (rest xs l (λ b mem same'. ground (arith, out)))
      | inr other ↦
          let (k, here, token, _) = keeps a (ground arith) j e in
          let ih = locate-without t p i l at ne keeps in
          rw
            (
              other,
              locate_first heap t a j xs e,
              locate_first heap' t a k (without p xs) here,
              token,
              ih,
            )
            refl
    ]
  where
    rest :
        {d : Option ℕ} (ys : List ℕ)
        → Linked heap d ys
        → ((b : ℕ) → b ∈ ys → b ≢ p)
        → locate heap' t ys ≡ locate heap t ys
    rest [] nil apart = refl
    rest (b ∷ ys) (cons {i = j'} e' n' out' l') apart =
        let (k, here, token, _) = keeps b (apart b (ground arith)) j' e' in
        rw
          (
            locate_first heap t b j' ys e',
            locate_first heap' t b k ys here,
            token,
            rest ys l' (λ d mem. apart d (ground arith)),
          )
          refl

-- What a freed entry leaves.
pub record Freed (q : SwapQueue) (pte : Pte) (xs : List ℕ) (p : ℕ) (r : Pte × SwapQueue)
    : Type 0 where
  pub cleared : r.0 ≡ record pte { swap = 0 }
  pub queue : IsQueue (r.1) (without p xs)
  pub next_token : r.1.next_token ≡ q.next_token
  pub entries : r.1.size ≤ q.size
  pub gone : page_of (r.1) pte.swap ≡ none
  pub pages : (e : Pte) → e.swap ≢ pte.swap → swap_read (r.1) e ≡ swap_read q e

swap_read-lem :
    (q : SwapQueue) (e : Pte) (xs : List ℕ)
    → IsQueue q xs
    → swap_read q e ≡ (locate q.heap e.swap xs >>= λ p. q.heap p >>= λ info. some info.page_data)
unfolding swap_read
swap_read-lem q e xs v =
    rw (swap_queue_find-locate q e.swap xs v.linked (omega (arith, v.counted))) refl

module _ (q : SwapQueue) (pte : Pte) {xs : List ℕ} (v : IsQueue q xs) (few : q.size < u64_mod) where
  freed :
      (q' : SwapQueue) (p : ℕ) (i : SwapInfo)
      → q.heap p ≡ some i
      → i.token ≡ pte.swap
      → p ∈ xs
      → Removes q q' xs p i
      → Freed q pte xs p (record pte { swap = 0 }, q')
  freed q' p i at token m h =
      let keeps = Removes-Keeps q q' p i v m at few h in
      let u = Removes-IsQueue q q' p i v m at few h in
      record {
        cleared = refl;
        queue = u;
        next_token = h.next_token;
        entries = omega (arith, h.size, v.counted, few, length-without p xs m);
        gone =
            page_of-look q' pte.swap (without p xs) u
            ∙ look-none pte.swap u.linked λ b j mem e same.
              let (k, was, at', token') = Removes-old q q' p i v m at few h b j mem e in
              let (_, ne) = mem-without p b v.linked mem in
              ne (v.single b p k i was m at' at (token' ∙ same ∙ sym token));
        pages = λ e ne.
            let same = locate-without e.swap p i v.linked at (λ x. ne (sym x ∙ token)) keeps in
            rw (swap_read-lem q' e (without p xs) u, swap_read-lem q e xs v, same)
              (page e ne (locate q.heap e.swap xs) refl);
      }
    where
      page :
          (e : Pte)
          → e.swap ≢ pte.swap
          → (o : Option ℕ) → locate q.heap e.swap xs ≡ o
          → (o >>= λ b. q'.heap b >>= λ info. some info.page_data)
            ≡ (o >>= λ b. q.heap b >>= λ info. some info.page_data)
      page e ne none found = refl
      page e ne (some b) found =
          let (j, e', token', mem) = locate-some e.swap b v.linked found in
          let other : b ≢ p = λ same.
            let entry : j ≡ i = some-eq-some (sym e' ∙ ap q.heap same ∙ at) in
            ne (sym token' ∙ ap (λ (x : SwapInfo). x.token) entry ∙ token) in
          let (k, here, _, data') = Removes-Keeps q q' p i v m at few h b other j e' in
          rw (here, e') (ap (λ (x : ℕ → ℕ). some x) data')

  finish :
      (p : ℕ) (i : SwapInfo)
      → q.heap p ≡ some i
      → i.token ≡ pte.swap
      → p ∈ xs
      → (o : Option SwapQueue) → Returns (λ q'. Removes q q' xs p i) o
      → Returns (Freed q pte xs p) (o >>= λ q'. some (record pte { swap = 0 }, q'))
  finish p i at token m none r = r
  finish p i at token m (some q') r = freed q' p i at token m r

  -- On a well-formed swap queue of fewer than 2 ^ 64 entries that has an entry with the token of
  -- `pte`, freeing that entry does not fail. It clears the token in the page table entry, takes the
  -- first entry with the token out of the list, with the tail pointer and the size to match, and
  -- leaves the result of a read of every other token as it was, also where there is none. The queue
  -- grows no longer and gives out no token.
  pub swap_free-Freed :
      (p : ℕ) → locate q.heap pte.swap xs ≡ some p → Returns (Freed q pte xs p) (swap_free q pte)
  unfolding swap_free swap_queue_dequeue
  swap_free-Freed p found =
      let (i, at, token, m) = locate-some pte.swap p v.linked found in
      let walk =
        dequeue_from-unlink (suc q.size) pte.swap none q p i v.linked (omega (arith, v.counted))
          found at in
      rw (swap_queue_find-locate q pte.swap xs v.linked (omega (arith, v.counted)), found, walk)
        (finish p i at token m (unlink (pred_of none p xs) p i q) (unlink-Removes q p i v.linked m))
