-- ===== src/Sched/Queue/Chain.antt =====
-- The processes that a list of `next` pointers of student.c leads through.
use ece.Prelude.{
  ℕ, ◌≡◌, ◌≢◌, refl, Option, none, some, List, [], ◌∷◌, ◌++◌, arith, ◌∈◌, ◌∉◌, has-append,
}
use ece.Sched.Types.{Pcb}

-- From `p` the `next` pointers lead through the distinct processes of the list to NULL.
pub data Chain (procs : ℕ → Pcb) : Option ℕ → List ℕ → Type 0 where
  nil : Chain procs none []
  cons :
      {p : ℕ} {q : Option ℕ} {xs : List ℕ}
      → (procs p).next ≡ q
      → p ∉ xs
      → Chain procs q xs
      → Chain procs (some p) (p ∷ xs)

-- A chain survives a change that spares the pointers of its processes.
pub frame :
    {procs procs' : ℕ → Pcb} {p : Option ℕ} {xs : List ℕ}
    → Chain procs p xs
    → ((a : ℕ) → a ∈ xs → (procs' a).next ≡ (procs a).next)
    → Chain procs' p xs
frame nil same = nil
frame (cons {p} e out c) same =
    cons (ground (arith, same p)) out (frame c λ a i. same a (ground arith))

-- The last process of the list `p ∷ xs`.
abbrev pub last : ℕ → List ℕ → ℕ
last p [] = p
last p (x ∷ xs) = last x xs

pub last-mem : (p : ℕ) (xs : List ℕ) → last p xs ∈ p ∷ xs
last-mem p [] = ground arith
last-mem p (x ∷ xs) = ground (arith, last-mem x xs)

-- Where the last process is made to point to `fresh`, and `fresh` to NULL, the chain is longer by
-- `fresh`.
pub extend :
    {procs procs' : ℕ → Pcb} {p fresh : ℕ} {q : Option ℕ} {xs : List ℕ}
    → (procs p).next ≡ q
    → p ∉ xs
    → Chain procs q xs
    → fresh ∉ p ∷ xs
    → (procs' (last p xs)).next ≡ some fresh
    → (procs' fresh).next ≡ none
    → ((a : ℕ) → a ∈ p ∷ xs → a ≢ last p xs → (procs' a).next ≡ (procs a).next)
    → Chain procs' (some p) (p ∷ (xs ++ fresh ∷ []))
extend e out nil new link end same = cons link (ground arith) (cons end refl nil)
extend {p} {fresh} e out (cons {p = p'} {xs} e' out' c) new link end same =
    cons (ground (arith, same p, last-mem p' xs)) (ground (arith, has-append p xs (fresh ∷ [])))
      (extend e' out' c (ground arith) link end λ a i ne. same a (ground arith) ne)
