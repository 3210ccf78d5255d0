-- ===== src/Vm/SwapSpace/Look.antt =====
-- What a read of a token gives (`swap_read` of swapops.c in Virtual_Memory/simulator-src), as a search of
-- the list of entries.
use ece.Prelude.{
  true, ℕ, ◌≡◌, ◌≢◌, refl, sym, ◌∙◌, Option, none, some, List, [], ◌∷◌, ◌++◌, arith, ◌∈◌, ◌==◌,
  false, if◌then◌else◌, ◌>>=◌, Bool-cases, Option-cases, inl, inr, ap,
}
use ece.Vm.Types.{SwapInfo, SwapQueue, Pte}
use ece.Vm.Swap.{swap_read}
use ece.Vm.SwapSpace.Linked.{Linked, nil, cons}
use ece.Vm.SwapSpace.Search.{Linked-mem, locate, locate_first, swap_queue_find-locate}
use ece.Vm.SwapSpace.Queue.{IsQueue}

-- The page that the swap space holds under a token.
abbrev pub page_of : SwapQueue → ℕ → Option (ℕ → ℕ)
page_of q token = swap_read q (record { valid = 0; dirty = 0; pfn = 0; swap = token })

pub swap_read-page_of : (q : SwapQueue) (e : Pte) → swap_read q e ≡ page_of q e.swap
unfolding swap_read
swap_read-page_of q e = refl

-- The page of the first entry with the token.
abbrev pub look : (ℕ → Option SwapInfo) → ℕ → List ℕ → Option (ℕ → ℕ)
look heap token [] = none
look heap token (a ∷ xs) = elim (heap a) [
  | none ↦ none
  | some i ↦ if i.token == token then some i.page_data else look heap token xs
]

look_first :
    (heap : ℕ → Option SwapInfo) (token a : ℕ) (i : SwapInfo) (xs : List ℕ)
    → heap a ≡ some i
    → look heap token (a ∷ xs) ≡ (if i.token == token then some i.page_data else look heap token xs)
look_first heap token a i xs e = rw (look, e) refl

look-locate :
    {heap : ℕ → Option SwapInfo} (token : ℕ) {p : Option ℕ} {xs : List ℕ}
    → Linked heap p xs
    → (locate heap token xs >>= λ a. heap a >>= λ info. some info.page_data) ≡ look heap token xs
look-locate token nil = refl
look-locate {heap = heap} token (cons {a} {i} {xs} e n out c) =
    rw (locate_first heap token a i xs e, look_first heap token a i xs e)
      (elim (Bool-cases (i.token == token)) [
        | inl hit ↦ rw (hit, e) refl
        | inr pass ↦ rw pass (look-locate token c)
      ])

pub page_of-look :
    (q : SwapQueue) (token : ℕ) (xs : List ℕ)
    → IsQueue q xs
    → page_of q token ≡ look q.heap token xs
unfolding swap_read
page_of-look q token xs v =
    rw (swap_queue_find-locate q token xs v.linked (omega (arith, v.counted)))
      (look-locate token v.linked)

-- The entry at `a` keeps its token, and its page if it has the token `t`.
abbrev pub SamePage : (ℕ → Option SwapInfo) → (ℕ → Option SwapInfo) → ℕ → ℕ → Type 0
SamePage heap heap' t a =
    (i : SwapInfo)
    → heap a ≡ some i
    → (j : SwapInfo) × (heap' a ≡ some j)
      × (j.token ≡ i.token)
      × (i.token ≡ t → j.page_data ≡ i.page_data)

pub look-frame :
    {heap heap' : ℕ → Option SwapInfo} (t : ℕ) {p : Option ℕ} {xs : List ℕ}
    → Linked heap p xs
    → ((a : ℕ) → a ∈ xs → SamePage heap heap' t a)
    → look heap' t xs ≡ look heap t xs
look-frame t nil same = refl
look-frame {heap = heap} {heap' = heap'} t (cons {a} {i} {xs} e n out c) same =
    let (j, e', token, content) = same a (ground arith) i e in
    rw (look_first heap t a i xs e, look_first heap' t a j xs e', token)
      (elim (Bool-cases (i.token == t)) [
        | inl hit ↦ rw hit (ap (λ (x : ℕ → ℕ). some x) (content (ground arith)))
        | inr pass ↦ rw pass (look-frame t c (λ b m. same b (ground arith)))
      ])

-- A new entry with another token is passed.
pub look-append :
    {heap heap' : ℕ → Option SwapInfo} (t b : ℕ) (k : SwapInfo) {p : Option ℕ} {xs : List ℕ}
    → Linked heap p xs
    → ((a : ℕ) → a ∈ xs → SamePage heap heap' t a)
    → heap' b ≡ some k
    → k.token ≢ t
    → look heap' t (xs ++ b ∷ []) ≡ look heap t xs
look-append {heap' = heap'} t b k nil same at other =
    let pass : (k.token == t) ≡ false = ground arith in rw (look_first heap' t b k [] at, pass) refl
look-append {heap = heap} {heap' = heap'} t b k (cons {a} {i} {xs} e n out c) same at other =
    let (j, e', token, content) = same a (ground arith) i e in
    rw (look_first heap t a i xs e, look_first heap' t a j (xs ++ b ∷ []) e', token)
      (elim (Bool-cases (i.token == t)) [
        | inl hit ↦ rw hit (ap (λ (x : ℕ → ℕ). some x) (content (ground arith)))
        | inr pass ↦ rw pass (look-append t b k c (λ d m. same d (ground arith)) at other)
      ])

-- A token that no entry has gives no page.
pub look-none :
    {heap : ℕ → Option SwapInfo} (t : ℕ) {p : Option ℕ} {xs : List ℕ}
    → Linked heap p xs
    → ((a : ℕ) (i : SwapInfo) → a ∈ xs → heap a ≡ some i → i.token ≢ t)
    → look heap t xs ≡ none
look-none t nil other = refl
look-none {heap = heap} t (cons {a} {i} {xs} e n out c) other =
    let ne = other a i (ground arith) e in
    let pass : (i.token == t) ≡ false = ground arith in
    rw (look_first heap t a i xs e, pass) (look-none t c (λ b j m. other b j (ground arith)))

-- A page is found only where an entry is.
pub look-eq-none :
    {heap : ℕ → Option SwapInfo} (t : ℕ) {p : Option ℕ} {xs : List ℕ}
    → Linked heap p xs
    → locate heap t xs ≡ none
    → look heap t xs ≡ none
look-eq-none t l e = sym (look-locate t l) ∙ rw e refl

-- A token that gives a page is found.
pub page_of-locate :
    (q : SwapQueue) (token : ℕ) (xs : List ℕ)
    → IsQueue q xs
    → page_of q token ≢ none
    → (a : ℕ) × (locate q.heap token xs ≡ some a)
page_of-locate q token xs v there = elim (Option-cases (locate q.heap token xs)) [
  | inr found ↦ found
  | inl lost ↦ absurd (there (page_of-look q token xs v ∙ look-eq-none token v.linked lost))
]

-- No page has the token 0.
pub page_of-zero : (q : SwapQueue) (xs : List ℕ) → IsQueue q xs → page_of q 0 ≡ none
page_of-zero q xs v =
    page_of-look q 0 xs v
    ∙ look-none 0 v.linked (λ a i m e same. omega (arith, v.tokens a i m e, same))

-- A queue that gives no page is empty.
pub IsQueue-nil :
    (q : SwapQueue) (xs : List ℕ) → IsQueue q xs → ((t : ℕ) → page_of q t ≡ none) → xs ≡ []
IsQueue-nil q [] v no_page = refl
IsQueue-nil q (a ∷ xs) v no_page =
    let (i, at) = Linked-mem a v.linked (ground arith) in
    let here : (i.token == i.token) ≡ true = ground arith in
    let e = sym (page_of-look q i.token (a ∷ xs) v) ∙ no_page i.token in
    let e' : some i.page_data ≡ none = rw here at (sym (look_first q.heap i.token a i xs at) ∙ e) in
    cc e'
