-- ===== src/Prelude/Pow.antt =====
-- Powers of two at variable exponents, and the quotient and remainder of a number that is put
-- together from two fields.
use Prim.Native.Nat.{ℕ, zero, suc, ◌+◌, ◌-◌, ◌*◌, ◌/◌, ◌%◌, ◌^◌, ◌≤◌, ◌<◌}
use mathlib.Core.Path.{◌≡◌, ap, sym, ◌∙◌}
use native.Mathlib.Nat.{pow-suc, one-le-pow, add-zero, pow-le-pow_right, mul_assoc}
use native.Mathlib.Nat.{div-eq_of_lt-le, mod-eq-sub-div-mul, div-add-mod', mod-lt, mul-le-mul_right}
use native.Mathlib.Omega.{arith}

pub pow_pos : (k : ℕ) → 0 < 2 ^ k
pow_pos k = one-le-pow k 2 (omega arith)

pub pow-add : (a b : ℕ) → 2 ^ (a + b) ≡ 2 ^ a * 2 ^ b
pow-add a zero = rw add-zero (omega arith)
pow-add a (suc b) =
    ap (λ (t : ℕ). 2 ^ t) (omega arith)
    ∙ pow-suc 2 (a + b)
    ∙ ap (λ (t : ℕ). t * 2) (pow-add a b)
    ∙ mul_assoc (2 ^ a) (2 ^ b) 2
    ∙ ap (λ (t : ℕ). 2 ^ a * t) (sym (pow-suc 2 b))

pub pow-split : (a b : ℕ) → a ≤ b → 2 ^ b ≡ 2 ^ a * 2 ^ (b - a)
pow-split a b h = ap (λ (t : ℕ). 2 ^ t) {x = b} {y = a + (b - a)} (omega arith) ∙ pow-add a (b - a)

pub pow_mono : (a b : ℕ) → a ≤ b → 2 ^ a ≤ 2 ^ b
pow_mono a b h = pow-le-pow_right (omega arith) h

pub div-fields : (q m r : ℕ) → r < m → (q * m + r) / m ≡ q
div-fields q m r h = div-eq_of_lt-le m (omega arith) (omega arith)

pub mod-fields : (q m r : ℕ) → r < m → (q * m + r) % m ≡ r
mod-fields q m r h =
    omega (arith, mod-eq-sub-div-mul (q * m + r) m, ap (λ (t : ℕ). t * m) (div-fields q m r h))

-- A remainder by `m * k` takes its last digit to base `k` from the number, the rest from the
-- quotient.
pub mod-mul : (a m k : ℕ) → 0 < m → 0 < k → a % (m * k) ≡ a / k % m * k + a % k
mod-mul a m k hm hk =
    let quotient : a / k * k ≡ (a / k / m * m + a / k % m) * k =
      ap (λ (t : ℕ). t * k) (sym (div-add-mod' (a / k) m)) in
    let digits_of_a : a ≡ a / k / m * (m * k) + (a / k % m * k + a % k) =
      omega (arith, quotient, div-add-mod' a k) in
    let low : suc (a / k % m) * k ≤ m * k = mul-le-mul_right k (mod-lt (a / k) hm) in
    ap (λ (t : ℕ). t % (m * k)) digits_of_a
    ∙ mod-fields (a / k / m) (m * k) (a / k % m * k + a % k) (omega (arith, mod-lt a hk))
