-- ===== src/Prelude/Pow.antt =====
-- Powers of two, and the shifts of a 64-bit word.
use Prim.Native.Nat.{ℕ, zero, suc, ◌+◌, ◌*◌, ◌/◌, ◌%◌, ◌^◌, ◌<◌}
use mathlib.Core.Path.{◌≡◌, sym, ap, ◌∙◌}
use native.Mathlib.Omega.{arith}
use native.Mathlib.Nat.{
  pow-suc, add-zero, mul_comm, mod-lt, mod-eq_of_lt, add-mul-mod_self_right, mul-div_cancel,
  div-div-eq-div-mul, mod-add-div, div-lt_iff_lt-mul, mul-add-div, mul-add-mod_self_left,
}

abbrev pub u64_mod : ℕ
u64_mod = 0x1_0000_0000_0000_0000

-- `x << k` and `x >> k` on `unsigned long long`, for k < 64.
unfoldable pub shl64 : ℕ → ℕ → ℕ
shl64 x k = x * 2 ^ k % u64_mod

unfoldable pub shr64 : ℕ → ℕ → ℕ
shr64 x k = x / 2 ^ k

-- `c++` on a `counter_t`.
unfoldable pub inc64 : ℕ → ℕ
inc64 c = (c + 1) % u64_mod

pub pow_pos : (k : ℕ) → 0 < 2 ^ k
pow_pos zero = omega arith
pow_pos (suc k) = omega (arith, pow-suc 2 k, pow_pos k)

pub pow-add : (a b : ℕ) → 2 ^ (a + b) ≡ 2 ^ a * 2 ^ b
pow-add a zero = rw add-zero (omega arith)
pow-add a (suc b) =
    let e : a + suc b ≡ suc (a + b) = omega arith in
    rw (e, pow-suc 2 (a + b), pow-suc 2 b, pow-add a b) (omega arith)

-- A product kept below `a * b` loses the multiples of `b`.
pub mul-mod-div : (x a b : ℕ) → 0 < a → 0 < b → x * a % (a * b) / a ≡ x % b
mul-mod-div x a b ha hb =
    let split : x * a ≡ x % b * a + x / b * (a * b) =
      sym (ap (λ (t : ℕ). t * a) (mod-add-div x b)) ∙ omega arith in
    let small : x % b * a < a * b = grind (arith, mod-lt x hb) in
    rw (split, add-mul-mod_self_right (x % b * a) (x / b) (a * b), mod-eq_of_lt small)
      (mul-div_cancel (x % b) ha)

pub mod-mul-div : (x p q : ℕ) → 0 < p → 0 < q → x % (p * q) / p ≡ x / p % q
mod-mul-div x p q hp hq =
    let d = x / (p * q) in
    let r = x % (p * q) in
    let split : x ≡ p * (q * d) + r = sym (mod-add-div x (p * q)) ∙ omega arith in
    let quotient : x / p ≡ q * d + r / p = ap (λ (t : ℕ). t / p) split ∙ mul-add-div hp (q * d) r in
    let positive : 0 < p * q = grind arith in
    let below : r < q * p = omega (arith, mod-lt x positive) in
    let small : r / p < q = (div-lt_iff_lt-mul hp).1 below in
    rw (quotient, mul-add-mod_self_left q d (r / p), mod-eq_of_lt small)

-- Shifting up and down again by `t` keeps the low `k` bits, for t + k = 64.
pub shr64-shl64 : (x t k : ℕ) → t + k ≡ 64 → shr64 (shl64 x t) t ≡ x % 2 ^ k
unfolding shr64 shl64
shr64-shl64 x t k e =
    let word : u64_mod ≡ 2 ^ t * 2 ^ k = ap (λ (n : ℕ). 2 ^ n) (sym e) ∙ pow-add t k in
    rw word (mul-mod-div x (2 ^ t) (2 ^ k) (pow_pos t) (pow_pos k))

-- Of the low `o + i` bits, those above the lowest `o`.
pub shr64_mod : (x o i : ℕ) → shr64 (x % 2 ^ (o + i)) o ≡ x / 2 ^ o % 2 ^ i
unfolding shr64
shr64_mod x o i = rw (pow-add o i) (mod-mul-div x (2 ^ o) (2 ^ i) (pow_pos o) (pow_pos i))

pub shr64_add : (x o i : ℕ) → shr64 x (i + o) ≡ x / 2 ^ o / 2 ^ i
unfolding shr64
shr64_add x o i =
    let e : 2 ^ (i + o) ≡ 2 ^ o * 2 ^ i = pow-add i o ∙ mul_comm (2 ^ i) (2 ^ o) in
    rw e (sym (div-div-eq-div-mul x (2 ^ o) (2 ^ i)))
