-- ===== src/Vm/SwapSpace/Without.antt =====
-- The list of entries of swap.c (Virtual_Memory/simulator-src) without one of them.
use ece.Prelude.{
  ℕ, suc, ◌≡◌, ◌≢◌, refl, sym, ap, ◌∙◌, true, false, Option, none, some, List, [], ◌∷◌, arith, ◌∈◌,
  ◌∉◌, length, ◌==◌, if◌then◌else◌, Bool-cases, inl, inr, some-eq-some,
}
use ece.Vm.Types.{SwapInfo}
use ece.Vm.Swap.{points_to}
use ece.Vm.SwapSpace.Linked.{Linked, nil, cons, SameLink, frame, last}
use ece.Vm.SwapSpace.Queue.{tail_of}
use ece.Vm.SwapSpace.Unlink.{without, pred_of}

-- The last address, or `prev`.
abbrev last_or : Option ℕ → List ℕ → Option ℕ
last_or prev [] = prev
last_or prev (a ∷ xs) = last_or (some a) xs

last_or-last : (a : ℕ) (xs : List ℕ) → last_or (some a) xs ≡ some (last a xs)
last_or-last a [] = refl
last_or-last a (x ∷ xs) = last_or-last x xs

tail_of-last_or : (xs : List ℕ) → tail_of xs ≡ last_or none xs
tail_of-last_or [] = refl
tail_of-last_or (a ∷ xs) = sym (last_or-last a xs)

not_last : (p b : ℕ) (xs : List ℕ) → p ∉ b ∷ xs → points_to (last_or (some b) xs) p ≡ false
not_last p b [] out = ground arith
not_last p b (x ∷ xs) out = not_last p x xs (ground arith)

last_or-without :
    {heap : ℕ → Option SwapInfo} (prev : Option ℕ) (p : ℕ) {c : Option ℕ} {xs : List ℕ}
    → Linked heap c xs
    → p ∈ xs
    → last_or prev (without p xs)
      ≡ (if points_to (last_or prev xs) p then pred_of prev p xs else last_or prev xs)
last_or-without prev p nil m = cc m
last_or-without prev p (cons {a} {xs} e n out c) m = elim (Bool-cases (a == p)) [
  | inl same ↦ rw same (first xs (ground arith) (ground (arith, out)))
  | inr other ↦ rw other (last_or-without (some a) p c (ground arith))
]
  where
    first :
        (ys : List ℕ)
        → a ≡ p
        → p ∉ ys
        → last_or prev ys
          ≡ (if points_to (last_or (some a) ys) p then prev else last_or (some a) ys)
    first [] same free = let test : (p == a) ≡ true = ground arith in rw test refl
    first (b ∷ ys) same free = rw (not_last p b ys free) refl

pub tail_of-without :
    {heap : ℕ → Option SwapInfo} (p : ℕ) {c : Option ℕ} {xs : List ℕ}
    → Linked heap c xs
    → p ∈ xs
    → (if points_to (tail_of xs) p then pred_of none p xs else tail_of xs) ≡ tail_of (without p xs)
tail_of-without p {xs = xs} l m =
    rw (tail_of-last_or xs, tail_of-last_or (without p xs)) (sym (last_or-without none p l m))

not-mem-without : (a p : ℕ) (xs : List ℕ) → a ∉ xs → a ∉ without p xs
not-mem-without a p [] out = refl
not-mem-without a p (b ∷ xs) out = ground (arith, not-mem-without a p xs)

pub mem-without :
    {heap : ℕ → Option SwapInfo} (p b : ℕ) {c : Option ℕ} {xs : List ℕ}
    → Linked heap c xs
    → b ∈ without p xs
    → (b ∈ xs) × (b ≢ p)
mem-without p b nil m = cc m
mem-without p b (cons {a} {xs} e n out c) m = ground (arith, mem-without p b c, out)

pub length-without : (p : ℕ) (xs : List ℕ) → p ∈ xs → suc (length (without p xs)) ≡ length xs
length-without p [] m = cc m
length-without p (a ∷ xs) m = ground (arith, length-without p xs)

pub pred-mem : (b p k : ℕ) (xs : List ℕ) → pred_of (some b) p xs ≡ some k → k ∈ b ∷ xs
pred-mem b p k [] e = ground arith
pred-mem b p k (a ∷ xs) e = ground (arith, pred-mem a p k xs)

pub pred-ne :
    (prev : Option ℕ) (p : ℕ) (xs : List ℕ) → p ∈ xs → prev ≢ some p → pred_of prev p xs ≢ some p
pred-ne prev p [] m ne = ne
pred-ne prev p (a ∷ xs) m ne = elim (Bool-cases (a == p)) [
  | inl same ↦ rw same ne
  | inr other ↦
      rw other (pred-ne (some a) p xs (ground arith) (λ e. ground (arith, some-eq-some e)))
]

abbrev pub new_head : Option ℕ → ℕ → Option ℕ → List ℕ → Option ℕ
new_head next p c [] = c
new_head next p c (a ∷ xs) = if a == p then next else c

-- The entry before `p` points behind it, and the others keep their links.
pub unlinked :
    {heap heap' : ℕ → Option SwapInfo} (prev : Option ℕ) (p : ℕ) (i : SwapInfo) {c : Option ℕ}
    {xs : List ℕ}
    → Linked heap c xs
    → p ∈ xs
    → heap p ≡ some i
    → ((b : ℕ) → b ∈ xs → prev ≢ some b)
    → ((b : ℕ)
        → b ∈ xs
        → pred_of prev p xs ≡ some b
        → (j : SwapInfo) × (heap' b ≡ some j) × (j.next ≡ i.next))
    → ((b : ℕ) → b ∈ xs → b ≢ p → pred_of prev p xs ≢ some b → SameLink heap heap' b)
    → Linked heap' (new_head i.next p c xs) (without p xs)
unlinked prev p i nil m at apart relinked kept = cc m
unlinked {heap = heap} {heap' = heap'} prev p i (cons {a} {i = j} {q} {xs} e n out l) m at apart
      relinked kept =
    elim (Bool-cases (a == p)) [
      | inl same ↦
          let entry : j ≡ i = some-eq-some (sym e ∙ ap heap (ground arith) ∙ at) in
          let next : i.next ≡ q = sym (ap (λ (x : SwapInfo). x.next) entry) ∙ n in
          rw (same, next)
            (frame l λ b mem.
              kept b (ground arith) (ground (arith, out)) (rw same (apart b (ground arith))))
      | inr other ↦
          let rest =
            unlinked (some a) p i l (ground arith) at
              (λ b mem same. ground (arith, some-eq-some same))
              (λ b mem pred. relinked b (ground arith) (rw other pred))
              (λ b mem ne pred. kept b (ground arith) ne (rw other pred)) in
          rw other (
            behind xs l out rest other (ground arith) (relinked a (ground arith))
              (kept a (ground arith) (ground arith)))
    ]
  where
    behind :
        (ys : List ℕ)
        → Linked heap q ys
        → a ∉ ys
        → Linked heap' (new_head i.next p q ys) (without p ys)
        → (a == p) ≡ false
        → p ∈ ys
        → (pred_of prev p (a ∷ ys) ≡ some a
            → (k : SwapInfo) × (heap' a ≡ some k) × (k.next ≡ i.next))
        → (pred_of prev p (a ∷ ys) ≢ some a → SameLink heap heap' a)
        → Linked heap' (some a) (a ∷ without p ys)
    behind [] l out rest ne m relinked kept = cc m
    behind (b ∷ ys) l out rest ne m relinked kept = elim (Bool-cases (b == p)) [
      | inl same ↦
          let (k, here, next) = relinked (rw (ne, same) refl) in
          rw same (cons here next (ground arith) (rw same at rest))
      | inr other ↦
          let (k, here, next, _) =
            kept (rw (ne, other) (λ pred. ground (arith, pred-mem b p a ys pred, out))) j e in
          rw other (
            cons here (next ∙ n) (rw other at (not-mem-without a p (b ∷ ys) out))
              (rw other at rest))
    ]
