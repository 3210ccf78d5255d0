-- ===== src/Vm/SwapSpace/Search.antt =====
-- `swap_queue_find` of swap.c in Virtual_Memory/simulator-src gives the first entry with the token.
use ece.Prelude.{
  ℕ, zero, suc, ◌<◌, ◌≤◌, ◌≡◌, ◌≢◌, refl, sym, ◌∙◌, false, Option, none, some, List, [], ◌∷◌, ◌++◌,
  arith, ◌∈◌, length, ◌==◌, if◌then◌else◌, Bool-cases, inl, inr,
}
use ece.Vm.Types.{SwapInfo, SwapQueue, Pte}
use ece.Vm.Swap.{find_from, swap_queue_find, swap_read}
use ece.Vm.SwapSpace.Linked.{Linked, nil, cons, SameLink}

-- The first of the addresses whose entry has the token.
abbrev pub locate : (ℕ → Option SwapInfo) → ℕ → List ℕ → Option ℕ
locate heap token [] = none
locate heap token (a ∷ xs) = elim (heap a) [
  | none ↦ none
  | some i ↦ if i.token == token then some a else locate heap token xs
]

pub locate_first :
    (heap : ℕ → Option SwapInfo) (token a : ℕ) (i : SwapInfo) (xs : List ℕ)
    → heap a ≡ some i
    → locate heap token (a ∷ xs) ≡ (if i.token == token then some a else locate heap token xs)
locate_first heap token a i xs e = rw (locate, e) refl

find_from_first :
    (q : SwapQueue) (token a : ℕ) (i : SwapInfo) (fuel : ℕ)
    → q.heap a ≡ some i
    → find_from (suc fuel) q token (some a)
      ≡ (if i.token == token then some (some a) else find_from fuel q token i.next)
unfolding find_from
find_from_first q token a i fuel e = rw e refl

find_from-locate :
    (fuel : ℕ) (q : SwapQueue) (token : ℕ) {p : Option ℕ} {xs : List ℕ}
    → Linked q.heap p xs
    → length xs < fuel
    → find_from fuel q token p ≡ some (locate q.heap token xs)
unfolding find_from
find_from-locate zero q token c fits = absurd (omega arith)
find_from-locate (suc fuel) q token nil fits = refl
find_from-locate (suc fuel) q token (cons {a} {i} {xs} e n out c) fits =
    let rest = find_from-locate fuel q token c (omega arith) in
    rw (find_from_first q token a i fuel e, locate_first q.heap token a i xs e)
      (elim (Bool-cases (i.token == token)) [
        | inl hit ↦ rw hit refl
        | inr pass ↦ rw (pass, n) rest
      ])

pub swap_queue_find-locate :
    (q : SwapQueue) (token : ℕ) (xs : List ℕ)
    → Linked q.heap q.head xs
    → length xs ≤ q.size
    → swap_queue_find q token ≡ some (locate q.heap token xs)
unfolding swap_queue_find
swap_queue_find-locate q token xs c fits = find_from-locate (suc q.size) q token c (omega arith)

-- The entry that was found.
pub locate-some :
    {heap : ℕ → Option SwapInfo} (token : ℕ) {p : Option ℕ} {xs : List ℕ} (a : ℕ)
    → Linked heap p xs
    → locate heap token xs ≡ some a
    → (i : SwapInfo) × (heap a ≡ some i) × (i.token ≡ token) × (a ∈ xs)
locate-some token a nil h = cc
locate-some {heap = heap} token a (cons {a = b} {i} {xs} e n out c) h =
    elim (Bool-cases (i.token == token)) [
      | inl hit ↦
          let same : some b ≡ some a = rw hit at (sym (locate_first heap token b i xs e) ∙ h) in
          (i, ground arith, ground arith, ground arith)
      | inr pass ↦
          let (j, e', t, m) =
            locate-some token a c (rw pass at (sym (locate_first heap token b i xs e) ∙ h)) in
          (j, e', t, ground arith)
    ]

-- Entries that keep their tokens are found as before.
pub locate-frame :
    {heap heap' : ℕ → Option SwapInfo} (token : ℕ) {p : Option ℕ} {xs : List ℕ}
    → Linked heap p xs
    → ((a : ℕ) → a ∈ xs → SameLink heap heap' a)
    → locate heap' token xs ≡ locate heap token xs
locate-frame token nil same = refl
locate-frame {heap = heap} {heap' = heap'} token (cons {a} {i} {xs} e n out c) same =
    let (j, e', next, t) = same a (ground arith) i e in
    rw
      (
        locate_first heap token a i xs e,
        locate_first heap' token a j xs e',
        t,
        locate-frame token c (λ b m. same b (ground arith)),
      )
      refl

-- A token that none of the first entries has is looked for behind them.
pub locate-append :
    (heap : ℕ → Option SwapInfo) (token : ℕ) (xs ys : List ℕ)
    → ((a : ℕ) → a ∈ xs → (i : SwapInfo) × (heap a ≡ some i) × (i.token ≢ token))
    → locate heap token (xs ++ ys) ≡ locate heap token ys
locate-append heap token [] ys other = refl
locate-append heap token (a ∷ xs) ys other =
    let (i, e, ne) = other a (ground arith) in
    let differs : (i.token == token) ≡ false = ground arith in
    rw (locate_first heap token a i (xs ++ ys) e, differs)
      (locate-append heap token xs ys λ b m. other b (ground arith))

-- Each address of the list has an entry.
pub Linked-mem :
    {heap : ℕ → Option SwapInfo} {p : Option ℕ} {xs : List ℕ} (a : ℕ)
    → Linked heap p xs
    → a ∈ xs
    → (i : SwapInfo) × (heap a ≡ some i)
Linked-mem a nil m = cc
Linked-mem a (cons {a = b} {i} e n out c) m = elim (Bool-cases (a == b)) [
  | inl same ↦ (i, ground arith)
  | inr other ↦ Linked-mem a c (ground arith)
]

pub swap_read-locate :
    (q : SwapQueue) (pte : Pte) (xs : List ℕ) (a : ℕ) (i : SwapInfo)
    → Linked q.heap q.head xs
    → length xs ≤ q.size
    → locate q.heap pte.swap xs ≡ some a
    → q.heap a ≡ some i
    → swap_read q pte ≡ some i.page_data
unfolding swap_read
swap_read-locate q pte xs a i c fits found at =
    rw (swap_queue_find-locate q pte.swap xs c fits, found, at) refl
