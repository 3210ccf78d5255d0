-- ===== src/Vm/SwapSpace/Removal.antt =====
-- The swap queue without one of its entries (`swap_queue_dequeue` of swap.c in
-- Virtual_Memory/simulator-src).
use ece.Prelude.{
  ℕ, ◌+◌, ◌-◌, ◌%◌, ◌<◌, ◌≡◌, ◌≢◌, refl, sym, ap, ◌∙◌, true, Option, none, some, List, [], ◌∷◌,
  arith, ◌∈◌, ◌==◌, if◌then◌else◌, Bool-cases, inl, inr, some-eq-some, Returns, u64_mod,
}
use ece.Vm.Types.{SwapInfo, SwapQueue}
use ece.Vm.Swap.{bypass, set_next, points_to}
use ece.Vm.SwapSpace.Linked.{Linked}
use ece.Vm.SwapSpace.Search.{Linked-mem}
use ece.Vm.SwapSpace.Queue.{IsQueue}
use ece.Vm.SwapSpace.Unlink.{without, pred_of, unlink}
use ece.Vm.SwapSpace.Without.{
  tail_of-without, mem-without, length-without, pred-mem, pred-ne, new_head, unlinked,
}

-- The entries of the list that are not at `p` keep token and page.
abbrev pub Keeps : (ℕ → Option SwapInfo) → (ℕ → Option SwapInfo) → ℕ → ℕ → Type 0
Keeps heap heap' p b =
    b ≢ p
    → (i : SwapInfo) → heap b ≡ some i
    → (j : SwapInfo) × (heap' b ≡ some j) × (j.token ≡ i.token) × (j.page_data ≡ i.page_data)

-- How the queue differs without its entry `i` at `p`.
pub record Removes (q q' : SwapQueue) (xs : List ℕ) (p : ℕ) (i : SwapInfo) : Type 0 where
  pub head : q'.head ≡ new_head i.next p q.head xs
  pub tail : q'.tail ≡ (if points_to q.tail p then pred_of none p xs else q.tail)
  pub size : q'.size ≡ (q.size + (u64_mod - 1)) % u64_mod
  pub fresh : q'.fresh ≡ q.fresh
  pub next_token : q'.next_token ≡ q.next_token
  pub before :
      (b : ℕ) (j : SwapInfo)
      → b ≢ p
      → pred_of none p xs ≡ some b
      → q.heap b ≡ some j
      → q'.heap b ≡ some (record j { next = i.next })
  pub others : (b : ℕ) → b ≢ p → pred_of none p xs ≢ some b → q'.heap b ≡ q.heap b

pred-some : (b p : ℕ) (xs : List ℕ) → (k : ℕ) × (pred_of (some b) p xs ≡ some k)
pred-some b p [] = (b, refl)
pred-some b p (a ∷ xs) = elim (Bool-cases (a == p)) [
  | inl same ↦ (b, rw same refl)
  | inr other ↦ let (k, e) = pred-some a p xs in (k, rw other e)
]

pub unlink-Removes :
    (q : SwapQueue) {xs : List ℕ} (p : ℕ) (i : SwapInfo)
    → Linked q.heap q.head xs
    → p ∈ xs
    → Returns (λ q'. Removes q q' xs p i) (unlink (pred_of none p xs) p i q)
unfolding bypass set_next
unlink-Removes q {xs = []} p i l m = cc m
unlink-Removes q {xs = a ∷ xs} p i l m = elim (Bool-cases (a == p)) [
  | inl same ↦ rw same (record {
    head = rw same refl;
    tail = rw same refl;
    size = refl;
    fresh = refl;
    next_token = refl;
    before = λ b j ne pred. let bad : none ≡ some b = rw same at pred in cc;
    others = λ b ne pred. ground arith;
  })
  | inr other ↦
      let (k, e) = pred-some a p xs in
      let (j, at) = Linked-mem k l (pred-mem a p k xs e) in
      let pred : pred_of none p (a ∷ xs) ≡ some k = rw other e in
      rw (other, e, at)
        (record {
          head = rw other refl;
          tail = rw pred refl;
          size = refl;
          fresh = refl;
          next_token = refl;
          before = λ b j' ne pred' at'.
              let same : k ≡ b = some-eq-some (sym pred ∙ pred') in
              let entry : j ≡ j' = some-eq-some (sym at ∙ ap q.heap same ∙ at') in
              ground (arith, entry);
          others = λ b ne ne'.
              let apart : b ≢ k = λ same. ne' (pred ∙ ap (λ (x : ℕ). some x) (sym same)) in
              ground arith;
        })
]

module _ (q q' : SwapQueue) {xs : List ℕ} (p : ℕ) (i : SwapInfo) (v : IsQueue q xs) (m : p ∈ xs)
    (at : q.heap p ≡ some i) (few : q.size < u64_mod) (h : Removes q q' xs p i) where
  pub Removes-Keeps : (b : ℕ) → Keeps q.heap q'.heap p b
  Removes-Keeps b ne j e = elim (Bool-cases (points_to (pred_of none p xs) b)) [
    | inl hit ↦ (
      record j { next = i.next },
      h.before b j ne (points-some (pred_of none p xs) b hit) e,
      refl,
      refl,
    )
    | inr pass ↦ (
      j,
      h.others b ne (λ pred. ground (arith, ap (λ (x : Option ℕ). points_to x b) pred)) ∙ e,
      refl,
      refl,
    )
  ]
    where
      points-some : (o : Option ℕ) (b : ℕ) → points_to o b ≡ true → o ≡ some b
      points-some none b hit = cc hit
      points-some (some a) b hit = ground arith

  Removes-Linked : Linked q'.heap q'.head (without p xs)
  Removes-Linked = rw h.head (
      unlinked none p i v.linked m at (λ b mem e. cc e)
        (λ b mem pred.
          let (j, e) = Linked-mem b v.linked mem in
          let ne : b ≢ p =
            λ same. pred-ne none p xs m (λ x. cc x) (pred ∙ ap (λ (x : ℕ). some x) same) in
          (record j { next = i.next }, h.before b j ne pred e, refl))
        λ b mem ne pred j e. (j, h.others b ne pred ∙ e, refl, refl))

  -- An entry that is left, as it was.
  pub Removes-old :
      (b : ℕ) (j : SwapInfo)
      → b ∈ without p xs
      → q'.heap b ≡ some j
      → (k : SwapInfo) × (b ∈ xs) × (q.heap b ≡ some k) × (k.token ≡ j.token)
  Removes-old b j mem e =
      let (was, ne) = mem-without p b v.linked mem in
      let (k, at) = Linked-mem b v.linked was in
      let (j', here, token, _) = Removes-Keeps b ne k at in
      (k, was, at, sym token ∙ ap (λ (x : SwapInfo). x.token) (some-eq-some (sym here ∙ e)))

  pub Removes-IsQueue : IsQueue q' (without p xs)
  Removes-IsQueue = record {
    linked = Removes-Linked;
    at_end = h.tail ∙ rw (← v.at_end) at (tail_of-without p v.linked m);
    counted = omega (arith, h.size, v.counted, few, length-without p xs m);
    old =
        λ b mem. let (was, _) = mem-without p b v.linked mem in omega (arith, v.old b was, h.fresh);
    tokens = λ b j mem e.
        let (was, ne) = mem-without p b v.linked mem in
        let (j', e') = Linked-mem b v.linked was in
        let (k, here, token, _) = Removes-Keeps b ne j' e' in
        let entry : j ≡ k = some-eq-some (sym e ∙ here) in
        let (low, high) = v.tokens b j' was e' in
        let same : j.token ≡ j'.token = ap (λ (x : SwapInfo). x.token) entry ∙ token in
        (omega (arith, low, same), omega (arith, high, same, h.next_token));
    started = omega (arith, v.started, h.next_token);
    single = λ b c j k mem mem' e e' same.
        let (j₀, was, at_b, token) = Removes-old b j mem e in
        let (k₀, was', at_c, token') = Removes-old c k mem' e' in
        v.single b c j₀ k₀ was was' at_b at_c (token ∙ same ∙ sym token');
  }
