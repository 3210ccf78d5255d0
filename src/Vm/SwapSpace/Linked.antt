-- ===== src/Vm/SwapSpace/Linked.antt =====
-- The entries that a list of `next` pointers of swap.c leads through.
use ece.Prelude.{
  ℕ, ◌≡◌, ◌≢◌, refl, ◌∙◌, Option, none, some, List, [], ◌∷◌, ◌++◌, arith, ◌∈◌, ◌∉◌, has-append,
}
use ece.Vm.Types.{SwapInfo}

-- From `p` the `next` pointers lead through the distinct addresses of the list to NULL.
pub data Linked (heap : ℕ → Option SwapInfo) : Option ℕ → List ℕ → Type 0 where
  nil : Linked heap none []
  cons :
      {a : ℕ} {i : SwapInfo} {q : Option ℕ} {xs : List ℕ}
      → heap a ≡ some i
      → i.next ≡ q
      → a ∉ xs
      → Linked heap q xs
      → Linked heap (some a) (a ∷ xs)

-- The entry at `a` keeps its token and its pointer.
abbrev pub SameLink : (ℕ → Option SwapInfo) → (ℕ → Option SwapInfo) → ℕ → Type 0
SameLink heap heap' a =
    (i : SwapInfo)
    → heap a ≡ some i
    → (j : SwapInfo) × (heap' a ≡ some j) × (j.next ≡ i.next) × (j.token ≡ i.token)

pub frame :
    {heap heap' : ℕ → Option SwapInfo} {p : Option ℕ} {xs : List ℕ}
    → Linked heap p xs
    → ((a : ℕ) → a ∈ xs → SameLink heap heap' a)
    → Linked heap' p xs
frame nil same = nil
frame {heap' = heap'} (cons {a} {i} e n out c) same =
    let (j, e', next, _) = same a (ground arith) i e in
    cons e' (next ∙ n) out (frame c λ b m. same b (ground arith))

-- The last address of the list `a ∷ xs`.
abbrev pub last : ℕ → List ℕ → ℕ
last a [] = a
last a (x ∷ xs) = last x xs

pub last-mem : (a : ℕ) (xs : List ℕ) → last a xs ∈ a ∷ xs
last-mem a [] = ground arith
last-mem a (x ∷ xs) = ground (arith, last-mem x xs)

pub last-append : (a n : ℕ) (xs : List ℕ) → last a (xs ++ n ∷ []) ≡ n
last-append a n [] = refl
last-append a n (x ∷ xs) = last-append x n xs

-- Where the last entry is made to point to `fresh`, and `fresh` to NULL, the list is longer by
-- `fresh`.
pub extend :
    {heap heap' : ℕ → Option SwapInfo} {a fresh : ℕ} {i k : SwapInfo} {q : Option ℕ} {xs : List ℕ}
    → heap a ≡ some i
    → i.next ≡ q
    → a ∉ xs
    → Linked heap q xs
    → fresh ∉ a ∷ xs
    → ((l : SwapInfo)
        → heap (last a xs) ≡ some l
        → heap' (last a xs) ≡ some (record l { next = some fresh }))
    → heap' fresh ≡ some k
    → k.next ≡ none
    → ((b : ℕ) → b ∈ a ∷ xs → b ≢ last a xs → SameLink heap heap' b)
    → Linked heap' (some a) (a ∷ (xs ++ fresh ∷ []))
extend {i = i} e n out nil new link end stop same =
    cons (link i e) refl (ground arith) (cons end stop refl nil)
extend {a} {fresh} {i = i} e n out (cons {a = a'} {i = i'} {xs = xs} e' n' out' c) new link end stop
      same =
    let (j, here, next, _) = same a (ground arith) (ground (arith, last-mem a' xs)) i e in
    cons here (next ∙ n) (ground (arith, has-append a xs (fresh ∷ [])))
      (extend e' n' out' c (ground arith) link end stop λ b m ne. same b (ground arith) ne)
