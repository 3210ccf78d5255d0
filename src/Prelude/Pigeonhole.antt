-- ===== src/Prelude/Pigeonhole.antt =====
-- Lists of distinct numbers: one whose members are below `n` has at most `n` members.
use Prim.Native.Nat.{ℕ, zero, suc, ◌≤◌, ◌<◌}
use mathlib.Core.Path.{◌≡◌, refl, ap}
use mathlib.Core.Logic.{◌≢◌, inl, inr}
use mathlib.Core.List.{List, [], ◌∷◌, ◌++◌}
use native.Mathlib.Omega.{arith}
use ece.Prelude.Tests.{◌==◌, if◌then◌else◌, Bool-cases}
use ece.Prelude.Lists.{length, ◌∈◌, ◌∉◌, has-append}

abbrev pub Distinct : List ℕ → Type 0
Distinct [] = Unit
Distinct (x ∷ xs) = (x ∉ xs) × Distinct xs

pub Distinct-append : (xs : List ℕ) (a : ℕ) → Distinct xs → a ∉ xs → Distinct (xs ++ a ∷ [])
Distinct-append [] a d out = (refl, tt)
Distinct-append (x ∷ xs) a d out =
    (ground (arith, has-append x xs (a ∷ [])), Distinct-append xs a d.1 (ground arith))

-- The list without the first `n` in it.
abbrev pub erase : ℕ → List ℕ → List ℕ
erase n [] = []
erase n (x ∷ xs) = if x == n then xs else x ∷ erase n xs

pub mem-erase : (n a : ℕ) (xs : List ℕ) → Distinct xs → a ∈ erase n xs → (a ∈ xs) × (a ≢ n)
mem-erase n a [] d m = cc
mem-erase n a (x ∷ xs) d m = ground (arith, mem-erase n a xs d.1)

pub erase-mem : (n a : ℕ) (xs : List ℕ) → a ∈ xs → a ≢ n → a ∈ erase n xs
erase-mem n a [] m ne = cc m
erase-mem n a (x ∷ xs) m ne = ground (arith, erase-mem n a xs)

not-mem-erase : (n a : ℕ) (xs : List ℕ) → a ∉ xs → a ∉ erase n xs
not-mem-erase n a [] out = refl
not-mem-erase n a (x ∷ xs) out = ground (arith, not-mem-erase n a xs)

pub erase-Distinct : (n : ℕ) (xs : List ℕ) → Distinct xs → Distinct (erase n xs)
erase-Distinct n [] d = d
erase-Distinct n (x ∷ xs) d = elim (Bool-cases (x == n)) [
  | inl same ↦ rw same d.1
  | inr other ↦ rw other (not-mem-erase n x xs d.0, erase-Distinct n xs d.1)
]

length-erase : (n : ℕ) (xs : List ℕ) → length xs ≤ suc (length (erase n xs))
length-erase n [] = omega arith
length-erase n (x ∷ xs) = ground (arith, length-erase n xs)

pub length-erase_mem : (n : ℕ) (xs : List ℕ) → n ∈ xs → suc (length (erase n xs)) ≡ length xs
length-erase_mem n [] m = cc m
length-erase_mem n (x ∷ xs) m = ground (arith, length-erase_mem n xs)

-- A list whose members have at least the images `1` to `n` has at least `n` members.
pub images-length-le :
    (f : ℕ → ℕ) (n : ℕ) (xs : List ℕ)
    → ((k : ℕ) → 0 < k → k ≤ n → (a : ℕ) × (a ∈ xs) × (f a ≡ k))
    → n ≤ length xs
images-length-le f zero xs all_hit = omega arith
images-length-le f (suc n) xs all_hit =
    let (a, m, at) = all_hit (suc n) (omega arith) (omega arith) in
    let rest = images-length-le f n (erase a xs) λ k lo hi.
      let (b, m', at') = all_hit k lo (omega arith) in
      let apart : b ≢ a = λ same. ground (arith, ap f same) in
      (b, erase-mem a b xs m' apart, at') in
    omega (arith, rest, length-erase_mem a xs m)

pub length-erase-le : (n : ℕ) (xs : List ℕ) → length (erase n xs) ≤ length xs
length-erase-le n [] = omega arith
length-erase-le n (x ∷ xs) = ground (arith, length-erase-le n xs)

pub Distinct-length-le :
    (n : ℕ) (xs : List ℕ) → Distinct xs → ((a : ℕ) → a ∈ xs → a < n) → length xs ≤ n
Distinct-length-le zero [] d below = omega arith
Distinct-length-le zero (x ∷ xs) d below = absurd (omega (arith, below x (ground arith)))
Distinct-length-le (suc n) xs d below =
    let rest =
      Distinct-length-le n (erase n xs) (erase-Distinct n xs d)
        λ a m. let (old, ne) = mem-erase n a xs d m in omega (arith, below a old) in
    omega (arith, length-erase n xs)
