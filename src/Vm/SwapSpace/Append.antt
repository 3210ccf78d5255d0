-- ===== src/Vm/SwapSpace/Append.antt =====
-- The swap queue with a new entry at its end (`swap_queue_enqueue` of swap.c in
-- Virtual_Memory/simulator-src).
use ece.Prelude.{
  ℕ, suc, ◌<◌, ◌≡◌, ◌≢◌, ◌⊎◌, ap, refl, sym, ◌∙◌, Option, none, some, List, [], ◌∷◌, ◌++◌, arith,
  ◌∈◌, ◌∉◌, length-append, has-append, ◌==◌, Bool-cases, inl, inr, some-eq-some,
}
use ece.Vm.Types.{SwapInfo, SwapQueue, Pte}
use ece.Vm.SwapSpace.Linked.{Linked, nil, cons, last, extend}
use ece.Vm.SwapSpace.Search.{locate, locate-append, Linked-mem, swap_read-locate}
use ece.Vm.SwapSpace.Queue.{tail_of, IsQueue, Swapped, unused, tail_of-append, ends}

-- A new entry at the end of the queue.
module _ (src : ℕ → ℕ) (q q' : SwapQueue) where
  -- How `q'` differs from `q`, whose addresses are `xs`.
  pub record Appends (xs : List ℕ) : Type 0 where
    pub fresh_at :
        q'.heap q.fresh ≡ some (record { token = q.next_token; page_data = src; next = none })
    pub others : (b : ℕ) → b ∈ xs → tail_of xs ≢ some b → q'.heap b ≡ q.heap b
    pub end_at :
        (l : ℕ) (j : SwapInfo)
        → tail_of xs ≡ some l
        → q.heap l ≡ some j
        → q'.heap l ≡ some (record j { next = some q.fresh })
    pub head : q'.head ≡ (elim xs [ [] ↦ some q.fresh | a ∷ ys ↦ q.head ])
    pub tail : q'.tail ≡ some q.fresh
    pub size : q'.size ≡ suc q.size
    pub fresh : q'.fresh ≡ suc q.fresh
    pub next_token : q'.next_token ≡ suc q.next_token

  -- An old entry keeps its token.
  Appends-token :
      {xs : List ℕ} (b : ℕ) (i : SwapInfo)
      → Appends xs
      → b ∈ xs
      → q.heap b ≡ some i
      → (j : SwapInfo) × (q'.heap b ≡ some j) × (j.token ≡ i.token)
  Appends-token {xs} b i h m e = elim (ends xs b) [
    | inl last ↦ (record i { next = some q.fresh }, h.end_at b i last e, refl)
    | inr inner ↦ (i, h.others b m inner ∙ e, refl)
  ]

  Appends-Linked_cons :
      {p : Option ℕ} {a : ℕ} {ys : List ℕ}
      → Linked q.heap p (a ∷ ys)
      → Appends (a ∷ ys)
      → q.fresh ∉ a ∷ ys
      → Linked q'.heap p (a ∷ (ys ++ q.fresh ∷ []))
  Appends-Linked_cons (cons e n out c) h new =
      extend e n out c new (λ l at. h.end_at _ l refl at) h.fresh_at refl
        λ b m ne i at. (i, h.others b m (λ same. ne (sym (some-eq-some same))) ∙ at, refl, refl)

  Appends-Linked :
      {xs : List ℕ} → IsQueue q xs → Appends xs → Linked q'.heap q'.head (xs ++ q.fresh ∷ [])
  Appends-Linked {xs = []} v h = rw h.head (cons h.fresh_at refl refl nil)
  Appends-Linked {xs = a ∷ ys} v h =
      rw h.head (Appends-Linked_cons v.linked h (unused (a ∷ ys) q.fresh v.old))

  Appends-tokens :
      {xs : List ℕ} (a : ℕ) (i : SwapInfo)
      → IsQueue q xs
      → Appends xs
      → a ∈ xs ++ q.fresh ∷ []
      → q'.heap a ≡ some i
      → (0 < i.token) × (i.token < q'.next_token)
  Appends-tokens {xs} a i v h m e = elim (Bool-cases (a == q.fresh)) [
    | inl same ↦ ground (arith, h.fresh_at, h.next_token, v.started)
    | inr other ↦
        let old : a ∈ xs = ground (arith, has-append a xs (q.fresh ∷ [])) in
        let (i', e') = Linked-mem a v.linked old in
        let (j, at, token) = Appends-token a i' h old e' in
        ground (arith, v.tokens a i' old e', h.next_token)
  ]

  -- The new entry, or an old one with the token that it had.
  Appends-cases :
      {xs : List ℕ} (a : ℕ) (i : SwapInfo)
      → IsQueue q xs
      → Appends xs
      → a ∈ xs ++ q.fresh ∷ []
      → q'.heap a ≡ some i
      → ((a ≡ q.fresh) × (i.token ≡ q.next_token))
        ⊎ ((k : SwapInfo) × (a ∈ xs) × (q.heap a ≡ some k) × (k.token ≡ i.token))
  Appends-cases {xs} a i v h m e = elim (Bool-cases (a == q.fresh)) [
    | inl same ↦
        let new_entry : SwapInfo = record { token = q.next_token; page_data = src; next = none } in
        let at : q'.heap a ≡ some new_entry = ap q'.heap (ground arith) ∙ h.fresh_at in
        inl (ground arith, ap (λ (x : SwapInfo). x.token) (some-eq-some (sym e ∙ at)))
    | inr other ↦
        let old : a ∈ xs = ground (arith, has-append a xs (q.fresh ∷ [])) in
        let (k, at) = Linked-mem a v.linked old in
        let (j, at', token) = Appends-token a k h old at in
        inr (k, old, at, sym token ∙ ap (λ (x : SwapInfo). x.token) (some-eq-some (sym at' ∙ e)))
  ]

  Appends-single :
      {xs : List ℕ} (a b : ℕ) (i j : SwapInfo)
      → IsQueue q xs
      → Appends xs
      → a ∈ xs ++ q.fresh ∷ []
      → b ∈ xs ++ q.fresh ∷ []
      → q'.heap a ≡ some i
      → q'.heap b ≡ some j
      → i.token ≡ j.token
      → a ≡ b
  Appends-single a b i j v h m m' e e' same = elim (Appends-cases a i v h m e) [
    | inl (is_fresh, token) ↦ elim (Appends-cases b j v h m' e') [
      | inl (is_fresh', token') ↦ is_fresh ∙ sym is_fresh'
      | inr (k, old, at, token') ↦ absurd (omega (arith, v.tokens b k old at, token, token', same))
    ]
    | inr (k, old, at, token) ↦ elim (Appends-cases b j v h m' e') [
      | inl (is_fresh', token') ↦ absurd (omega (arith, v.tokens a k old at, token, token', same))
      | inr (k', old', at', token') ↦ v.single a b k k' old old' at at' (token ∙ same ∙ sym token')
    ]
  ]

  pub Appends-IsQueue : {xs : List ℕ} → IsQueue q xs → Appends xs → IsQueue q' (xs ++ q.fresh ∷ [])
  Appends-IsQueue {xs} v h = record {
    linked = Appends-Linked v h;
    at_end = h.tail ∙ sym (tail_of-append xs q.fresh);
    counted = omega (arith, h.size, v.counted, length-append xs (q.fresh ∷ []));
    old = λ a m. ground (arith, has-append a xs (q.fresh ∷ []), v.old a, h.fresh);
    tokens = λ a i m e. Appends-tokens a i v h m e;
    started = omega (arith, h.next_token);
    single = λ a b i j m m' e e' same. Appends-single a b i j v h m m' e e' same;
  }

  pub Appends-Swapped :
      {xs : List ℕ} (pte : Pte)
      → IsQueue q xs
      → Appends xs
      → Swapped src (record pte { swap = q.next_token }) q'
  Appends-Swapped {xs} pte v h =
      let u = Appends-IsQueue v h in
      let new_entry : SwapInfo = record { token = q.next_token; page_data = src; next = none } in
      let not_before = locate-append q'.heap q.next_token xs (q.fresh ∷ []) λ a m.
        let (i, e) = Linked-mem a v.linked m in
        let (j, at, token) = Appends-token a i h m e in
        (j, at, omega (arith, v.tokens a i m e, token)) in
      let here : locate q'.heap q.next_token (q.fresh ∷ []) ≡ some q.fresh =
        rw (locate, h.fresh_at) (ground arith) in
      record {
        addresses = xs ++ q.fresh ∷ [];
        queue = u;
        readable =
            swap_read-locate q' (record pte { swap = q.next_token }) (xs ++ q.fresh ∷ []) q.fresh
              new_entry u.linked (omega (arith, u.counted)) (not_before ∙ here) h.fresh_at;
        marked = omega (arith, v.started);
      }
