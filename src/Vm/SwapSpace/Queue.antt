-- ===== src/Vm/SwapSpace/Queue.antt =====
-- A well-formed swap queue (swap.c of Virtual_Memory/simulator-src).
use ece.Prelude.{
  ap, has, ◌⊎◌, ℕ, ◌<◌, ◌≡◌, ◌≢◌, refl, Option, none, some, List, [], ◌∷◌, ◌++◌, arith, ◌∈◌, ◌∉◌,
  length, ◌==◌, Bool-cases, inl, inr,
}
use ece.Vm.Types.{SwapInfo, SwapQueue, Pte}
use ece.Vm.Swap.{swap_read}
use ece.Vm.SwapSpace.Linked.{Linked, last, last-append}

abbrev pub tail_of : List ℕ → Option ℕ
tail_of [] = none
tail_of (a ∷ xs) = some (last a xs)

-- The queue holds the entries at the addresses `xs`, with tokens that have been given out, each once.
pub record IsQueue (q : SwapQueue) (xs : List ℕ) : Type 0 where
  pub linked : Linked q.heap q.head xs
  pub at_end : q.tail ≡ tail_of xs
  pub counted : q.size ≡ length xs
  pub old : (a : ℕ) → a ∈ xs → a < q.fresh
  pub tokens :
      (a : ℕ) (i : SwapInfo) → a ∈ xs → q.heap a ≡ some i → (0 < i.token) × (i.token < q.next_token)
  pub started : 0 < q.next_token
  pub single :
      (a b : ℕ) (i j : SwapInfo)
      → a ∈ xs
      → b ∈ xs
      → q.heap a ≡ some i
      → q.heap b ≡ some j
      → i.token ≡ j.token
      → a ≡ b

-- What `swap_write` leaves: a queue, from which the entry's token gives the page.
pub record Swapped (src : ℕ → ℕ) (pte : Pte) (q : SwapQueue) : Type 0 where
  pub addresses : List ℕ
  pub queue : IsQueue q addresses
  pub readable : swap_read q pte ≡ some src
  pub marked : pte.swap ≢ 0

pub unused : (xs : List ℕ) (n : ℕ) → ((a : ℕ) → a ∈ xs → a < n) → n ∉ xs
unused xs n old = elim (Bool-cases (has n xs)) [
  | inl m ↦ absurd (omega (arith, old n m))
  | inr out ↦ out
]

pub tail_of-append : (xs : List ℕ) (n : ℕ) → tail_of (xs ++ n ∷ []) ≡ some n
tail_of-append [] n = refl
tail_of-append (a ∷ xs) n = ap (λ (m : ℕ). some m) (last-append a n xs)

pub ends : (xs : List ℕ) (b : ℕ) → (tail_of xs ≡ some b) ⊎ (tail_of xs ≢ some b)
ends [] b = inr (λ e. cc)
ends (a ∷ ys) b = elim (Bool-cases (last a ys == b)) [
  | inl same ↦ inl (ground arith)
  | inr other ↦ inr (ground arith)
]
