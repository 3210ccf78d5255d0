-- ===== src/Prelude/Arrays.antt =====
-- A C array is a function of its index; that the indices stay in range is a theorem of each user.
use Prim.Native.Nat.{ℕ}
use mathlib.Core.Path.{◌≡◌, refl}
use mathlib.Core.Logic.{◌≢◌}
use mathlib.Core.Bool.{true, false}
use native.Mathlib.Omega.{arith}
use ece.Prelude.Tests.{◌==◌, if◌then◌else◌}

-- `a[i] = v`.
abbrev pub update {ℓ} : {A : Type ℓ} → (ℕ → A) → ℕ → A → ℕ → A
update a i v j = if j == i then v else a j

pub update_ne {ℓ} : {A : Type ℓ} (a : ℕ → A) (i : ℕ) (v : A) (j : ℕ) → j ≢ i → update a i v j ≡ a j
update_ne a i v j ne = let other : (j == i) ≡ false = ground arith in rw other refl

pub update_eq {ℓ} : {A : Type ℓ} (a : ℕ → A) (i : ℕ) (v : A) → update a i v i ≡ v
update_eq a i v = let here : (i == i) ≡ true = ground arith in rw here refl
