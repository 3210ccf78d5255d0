-- ===== src/Prelude/Loops.antt =====
-- The two loops of the sources over an index: one that runs through, one that stops at the first
-- index that passes a test.
use Prim.Native.Nat.{ℕ, zero, suc, ◌+◌, ◌≤◌, ◌<◌}
use mathlib.Core.Path.{◌≡◌}
use mathlib.Core.Logic.{inl, inr}
use mathlib.Core.Bool.{Bool, true, false}
use mathlib.Core.Option.{Option, none, some}
use native.Mathlib.Omega.{arith}
use native.Mathlib.Decide.{ℕ_discrete}
use ece.Prelude.Tests.{if◌then◌else◌, Bool-cases, ◌>>=◌}

-- `for (i = from; i < from + rounds; i++) body(i)`.
unfoldable pub for_loop {ℓ} : {S : Type ℓ} → ℕ → ℕ → (ℕ → S → S) → S → S
for_loop zero from body s = s
for_loop (suc rounds) from body s = for_loop rounds (suc from) body (body from s)

-- `for (i = from; i < from + rounds; i++) if (test(i)) return i; return -1`.
unfoldable pub find_first : (ℕ → Bool) → ℕ → ℕ → Option ℕ
find_first test zero from = none
find_first test (suc rounds) from =
    let rest = find_first test rounds (suc from) in if test from then some from else rest

-- What the search answers: the least index that passes, or that none does.
pub data Finds (test : ℕ → Bool) (rounds from : ℕ) : Option ℕ → Type 0 where
  found :
      (i : ℕ)
      → from ≤ i
      → i < from + rounds
      → test i ≡ true
      → ((j : ℕ) → from ≤ j → j < i → test j ≡ false)
      → Finds test rounds from (some i)
  missing : ((j : ℕ) → from ≤ j → j < from + rounds → test j ≡ false) → Finds test rounds from none

Finds-skip :
    {test : ℕ → Bool} {rounds from : ℕ} {r : Option ℕ}
    → test from ≡ false
    → Finds test rounds (suc from) r
    → Finds test (suc rounds) from r
Finds-skip {test} {from} e (found i lo hi hit before) =
    found i (omega arith) (omega arith) hit
      (λ j a b. elim (ℕ_discrete j from) [ yes h ↦ rw h e | no h ↦ before j (omega arith) b ])
Finds-skip {test} {from} e (missing none_pass) = missing (λ j a b. elim (ℕ_discrete j from) [
  | yes h ↦ rw h e
  | no h ↦ none_pass j (omega arith) (omega arith)
])

pub find_first-Finds :
    (test : ℕ → Bool) (rounds from : ℕ) → Finds test rounds from (find_first test rounds from)
unfolding find_first
find_first-Finds test zero from = missing (λ j a b. absurd (omega arith))
find_first-Finds test (suc rounds) from = elim (Bool-cases (test from)) [
  | inl e ↦ rw e (found from (omega arith) (omega arith) e (λ j a b. absurd (omega arith)))
  | inr e ↦ rw e (Finds-skip e (find_first-Finds test rounds (suc from)))
]

-- A loop keeps what each round keeps; the rounds' indices are at hand.
pub for_loop_inv {ℓ κ} :
    {S : Type ℓ} (P : ℕ → S → Type κ) (body : ℕ → S → S) (rounds from : ℕ) (s : S)
    → ((i : ℕ) (s : S) → from ≤ i → i < from + rounds → P i s → P (suc i) (body i s))
    → P from s
    → P (from + rounds) (for_loop rounds from body s)
unfolding for_loop
for_loop_inv P body zero from s keep p = let e : from + 0 ≡ from = omega arith in rw e p
for_loop_inv P body (suc rounds) from s keep p =
    let e : from + suc rounds ≡ suc from + rounds = omega arith in
    rw e (
      for_loop_inv P body rounds (suc from) (body from s)
        (λ i t a b. keep i t (omega arith) (omega arith))
        (keep from s (omega arith) (omega arith) p))

-- `for (i = from; i < from + rounds; i++) body(i)`, where a round may end the program.
unfoldable pub for_each {ℓ} : {S : Type ℓ} → ℕ → ℕ → (ℕ → S → Option S) → S → Option S
for_each zero from body s = some s
for_each (suc rounds) from body s = do s' ← body from s; for_each rounds (suc from) body s'

-- A check answers exactly where `Ok` holds, and then what it leaves has `P`.
abbrev pub Checks {ℓ} : {S : Type ℓ} → Type 0 → (S → Type 0) → Option S → Type 0
Checks Ok P none = ¬ Ok
Checks Ok P (some s) = Ok × P s

pub Checks-bind {ℓ κ} :
    {S : Type ℓ} {T : Type κ} (Ok Next : Type 0) (P : S → Type 0) (Q : T → Type 0) (r : Option S)
    (f : S → Option T)
    → Checks Ok P r
    → ((s : S) → P s → Ok → Checks Next Q (f s))
    → Checks (Ok × Next) Q (r >>= f)
Checks-bind Ok Next P Q none f bad k = λ (good, _). bad good
Checks-bind {T = T} Ok Next P Q (some s) f (good, p) k = go (f s) (k s p good)
  where
    go : (o : Option T) → Checks Next Q o → Checks (Ok × Next) Q o
    go none bad = λ (_, next). bad next
    go (some t) (next, q) = ((good, next), q)

pub Checks-iff {ℓ} :
    {S : Type ℓ} (Ok Ok' : Type 0) (P P' : S → Type 0) (r : Option S)
    → Checks Ok P r
    → (Ok → Ok')
    → (Ok' → Ok)
    → ((s : S) → P s → P' s)
    → Checks Ok' P' r
Checks-iff Ok Ok' P P' none bad to back k = λ good. bad (back good)
Checks-iff Ok Ok' P P' (some s) (good, p) to back k = (to good, k s p)

-- A loop of checks passes exactly where each of them does.
pub for_each-Checks {ℓ} :
    {S : Type ℓ} (Ok : ℕ → Type 0) (P : ℕ → S → Type 0) (body : ℕ → S → Option S) (rounds from : ℕ)
    (s : S)
    → ((i : ℕ) (s : S)
        → from ≤ i
        → i < from + rounds
        → P i s
        → Checks (Ok i) (P (suc i)) (body i s))
    → P from s
    → Checks
        ((i : ℕ) → from ≤ i → i < from + rounds → Ok i)
        (P (from + rounds))
        (for_each rounds from body s)
unfolding for_each
for_each-Checks Ok P body zero from s step p =
    let e : from + 0 ≡ from = omega arith in ((λ i a b. absurd (omega arith)), rw e p)
for_each-Checks Ok P body (suc rounds) from s step p =
    let e : from + suc rounds ≡ suc from + rounds = omega arith in
    rw e (
      Checks-iff _ _ _ _ (body from s >>= for_each rounds (suc from) body)
        (Checks-bind (Ok from) ((i : ℕ) → suc from ≤ i → i < suc from + rounds → Ok i)
          (P (suc from)) (P (suc from + rounds)) (body from s) (for_each rounds (suc from) body)
          (step from s (omega arith) (omega arith) p)
          λ t q good.
            for_each-Checks Ok P body rounds (suc from) t
              (λ i u a b. step i u (omega arith) (omega arith)) q)
        (λ (first, rest) i a b. elim (ℕ_discrete i from) [
          | yes same ↦ rw same first
          | no other ↦ rest i (omega (arith, other)) b
        ])
        (λ good. (good from (omega arith) (omega arith), λ i a b. good i (omega arith) b)) λ t q. q)
