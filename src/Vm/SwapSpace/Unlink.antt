-- ===== src/Vm/SwapSpace/Unlink.antt =====
-- `swap_queue_dequeue` of swap.c in Virtual_Memory/simulator-src: the walk, and the list without the
-- entry that it takes out.
use ece.Prelude.{
  ℕ, zero, suc, ◌+◌, ◌-◌, ◌%◌, ◌<◌, ◌≡◌, refl, sym, ap, ◌∙◌, true, false, Option, none, some, List,
  [], ◌∷◌, arith, length, ◌==◌, if◌then◌else◌, ◌>>=◌, Bool-cases, inl, inr, some-eq-some, update,
  u64_mod,
}
use ece.Vm.Types.{SwapInfo, SwapQueue}
use ece.Vm.Swap.{bypass, points_to, dequeue_from}
use ece.Vm.SwapSpace.Linked.{Linked, nil, cons}
use ece.Vm.SwapSpace.Search.{locate, locate_first, locate-some}

abbrev pub without : ℕ → List ℕ → List ℕ
without p [] = []
without p (a ∷ xs) = if a == p then xs else a ∷ without p xs

-- The address before `p`, if any; `prev` is before the list.
abbrev pub pred_of : Option ℕ → ℕ → List ℕ → Option ℕ
pred_of prev p [] = prev
pred_of prev p (a ∷ xs) = if a == p then prev else pred_of (some a) p xs

-- What the walk does where it has found the entry `i` at `p`.
abbrev pub unlink : Option ℕ → ℕ → SwapInfo → SwapQueue → Option SwapQueue
unlink prev p i q = do
  q' ← bypass prev i.next q
  some (record q' {
    tail = if points_to q'.tail p then prev else q'.tail;
    size = (q'.size + (u64_mod - 1)) % u64_mod;
    heap = update q'.heap p none;
  })

dequeue_from_first :
    (fuel token : ℕ) (prev : Option ℕ) (a : ℕ) (i : SwapInfo) (q : SwapQueue)
    → q.heap a ≡ some i
    → dequeue_from (suc fuel) token prev (some a) q
      ≡ (if i.token == token then unlink prev a i q else dequeue_from fuel token (some a) i.next q)
unfolding dequeue_from
dequeue_from_first fuel token prev a i q e =
    rw e
      (elim (i.token == token)
        as (λ b.
          (elim b [ true ↦ unlink prev a i q | false ↦ dequeue_from fuel token (some a) i.next q ])
          ≡ (if b then unlink prev a i q else dequeue_from fuel token (some a) i.next q)) [
            | true ↦ refl
            | false ↦ refl
          ])

pub dequeue_from-unlink :
    (fuel token : ℕ) (prev : Option ℕ) (q : SwapQueue) {c : Option ℕ} {xs : List ℕ} (p : ℕ)
    (i : SwapInfo)
    → Linked q.heap c xs
    → length xs < fuel
    → locate q.heap token xs ≡ some p
    → q.heap p ≡ some i
    → dequeue_from fuel token prev c q ≡ unlink (pred_of prev p xs) p i q
dequeue_from-unlink zero token prev q p i l fits found at = absurd (omega arith)
dequeue_from-unlink (suc fuel) token prev q p i nil fits found at = cc
dequeue_from-unlink (suc fuel) token prev q p i (cons {a} {i = j} {xs} e n out l) fits found at =
    elim (Bool-cases (j.token == token)) [
      | inl hit ↦
          let same : some a ≡ some p =
            rw hit at (sym (locate_first q.heap token a j xs e) ∙ found) in
          let here : a ≡ p = some-eq-some same in
          let entry : j ≡ i = some-eq-some (sym e ∙ ap q.heap here ∙ at) in
          let test : (a == p) ≡ true = ground arith in
          rw (dequeue_from_first fuel token prev a j q e, hit, test, here, entry) refl
      | inr pass ↦
          let rest : locate q.heap token xs ≡ some p =
            rw pass at (sym (locate_first q.heap token a j xs e) ∙ found) in
          let ih = dequeue_from-unlink fuel token (some a) q p i l (omega arith) rest at in
          let (i', at', tok, _) = locate-some token p l rest in
          let found_token : (i.token == token) ≡ true =
            ground (arith, tok, ap (λ (x : SwapInfo). x.token) (some-eq-some (sym at ∙ at'))) in
          let other : (a == p) ≡ false = not_first a p j i e at pass found_token in
          rw (dequeue_from_first fuel token prev a j q e, pass, n, other) ih
    ]
  where
    not_first :
        (a p : ℕ) (j i : SwapInfo)
        → q.heap a ≡ some j
        → q.heap p ≡ some i
        → (j.token == token) ≡ false
        → (i.token == token) ≡ true
        → (a == p) ≡ false
    not_first a p j i e at pass hit = elim (Bool-cases (a == p)) [
      | inr ne ↦ ne
      | inl same ↦
          let here : a ≡ p = ground arith in
          let entry : j ≡ i = some-eq-some (sym e ∙ ap q.heap here ∙ at) in ground (arith, entry)
    ]
