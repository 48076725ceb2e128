-- ===== src/Prelude/Bits.antt =====
-- `|`, `&` and `^` of machine words as arithmetic. The native operations mean a recursion on
-- binary digits; from it come the laws for the lowest digit, and from those the laws for fields.
use Prim.Native.Nat.{ℕ, zero, suc, ◌+◌, ◌-◌, ◌*◌, ◌/◌, ◌%◌, ◌^◌, ◌≤◌, ◌<◌, min, max}
use Prim.Native.Nat.{bit_and, bit_or, digits, bit_and-bitwise, bit_or-bitwise}
use mathlib.Core.Path.{◌≡◌, refl, ap, subst}
use native.Mathlib.Nat.{pow-suc, one-le-pow, div-add-mod'}
use native.Mathlib.Omega.{arith}
use libchdr.Prelude.Pow.{mod-mul}

-- The recursion's count may be anything from the first number up.
digits_count :
    (z : ℕ → ℕ) (f : ℕ → ℕ → ℕ) (n m a b : ℕ) → a ≤ n → a ≤ m → digits z f n a b ≡ digits z f m a b
digits_count z f zero zero zero b p q = refl
digits_count z f zero (suc m) zero b p q = refl
digits_count z f (suc n) zero zero b p q = refl
digits_count z f (suc n) (suc m) zero b p q = refl
digits_count z f zero m (suc a) b p q = absurd (omega arith)
digits_count z f (suc n) zero (suc a) b p q = absurd (omega arith)
digits_count z f (suc n) (suc m) (suc a) b p q =
    ap (λ (t : ℕ). t * 2 + f (suc a % 2) (b % 2))
      (digits_count z f n m (suc a / 2) (b / 2) (omega arith) (omega arith))

-- The lowest digit of `a | b`, and the rest.
or_digit : (a b : ℕ) → bit_or a b ≡ bit_or (a / 2) (b / 2) * 2 + max (a % 2) (b % 2)
or_digit zero b = omega (arith, bit_or-bitwise 0 b, bit_or-bitwise 0 (b / 2))
or_digit (suc a) b = omega (
  arith,
  bit_or-bitwise (suc a) b,
  bit_or-bitwise (suc a / 2) (b / 2),
  digits_count (λ y. y) max a (suc a / 2) (suc a / 2) (b / 2) (omega arith) (omega arith),
)

and_digit : (a b : ℕ) → bit_and a b ≡ bit_and (a / 2) (b / 2) * 2 + min (a % 2) (b % 2)
and_digit zero b = omega (arith, bit_and-bitwise 0 b, bit_and-bitwise 0 (b / 2))
and_digit (suc a) b = omega (
  arith,
  bit_and-bitwise (suc a) b,
  bit_and-bitwise (suc a / 2) (b / 2),
  digits_count (λ y. 0) min a (suc a / 2) (suc a / 2) (b / 2) (omega arith) (omega arith),
)

or_zero_below : (n a : ℕ) → a ≤ n → bit_or a 0 ≡ a
or_zero_below n zero h = bit_or-bitwise 0 0
or_zero_below zero (suc a) h = absurd (omega arith)
or_zero_below (suc n) (suc a) h =
    omega (arith, or_digit (suc a) 0, or_zero_below n (suc a / 2) (omega arith))

and_zero_below : (n a : ℕ) → a ≤ n → bit_and a 0 ≡ 0
and_zero_below n zero h = bit_and-bitwise 0 0
and_zero_below zero (suc a) h = absurd (omega arith)
and_zero_below (suc n) (suc a) h =
    omega (arith, and_digit (suc a) 0, and_zero_below n (suc a / 2) (omega arith))

twice : (q k : ℕ) → q * 2 ^ suc k ≡ q * 2 ^ k * 2
twice q k = omega (arith, ap (λ (t : ℕ). q * t) (pow-suc 2 k))

-- `(q << k) | r` is a sum where `r` fits into `k` bits.
pub bit_or-fields : (k q r : ℕ) → r < 2 ^ k → bit_or (q * 2 ^ k) r ≡ q * 2 ^ k + r
bit_or-fields zero q r h = ground (arith, or_zero_below q q)
bit_or-fields (suc k) q r h =
    let p : 2 ^ suc k ≡ 2 ^ k * 2 = pow-suc 2 k in
    let half : q * 2 ^ suc k / 2 ≡ q * 2 ^ k = omega (arith, twice q k) in
    omega (
      arith,
      or_digit (q * 2 ^ suc k) r,
      twice q k,
      ap (λ (t : ℕ). bit_or t (r / 2)) half,
      bit_or-fields k q (r / 2) (omega arith),
    )

-- `a & (2^k - 1)` is the remainder by `2^k`.
pub bit_and-mask : (k a : ℕ) → bit_and a (2 ^ k - 1) ≡ a % 2 ^ k
bit_and-mask zero a = ground (arith, and_zero_below a a)
bit_and-mask (suc k) a =
    let p : 2 ^ suc k ≡ 2 ^ k * 2 = pow-suc 2 k in
    let one_up : 1 ≤ 2 ^ k = one-le-pow k 2 (omega arith) in
    let half : (2 ^ suc k - 1) / 2 ≡ 2 ^ k - 1 = omega arith in
    let odd : (2 ^ suc k - 1) % 2 ≡ 1 = omega arith in
    omega (
      arith,
      and_digit a (2 ^ suc k - 1),
      ap (λ (t : ℕ). bit_and (a / 2) t) half,
      bit_and-mask k (a / 2),
      ap (λ (t : ℕ). a % t) p,
      mod-mul a (2 ^ k) 2 one_up (omega arith),
    )

-- `x | y` is a sum where the bits of `y` lie below those of `x`.
pub bit_or-add : (k x y : ℕ) → x % 2 ^ k ≡ 0 → y < 2 ^ k → bit_or x y ≡ x + y
bit_or-add k x y whole h =
    let e : x / 2 ^ k * 2 ^ k ≡ x = omega (arith, div-add-mod' x (2 ^ k)) in
    subst (λ (t : ℕ). bit_or t y ≡ t + y) e (bit_or-fields k (x / 2 ^ k) y h)

or_comm_below : (n a b : ℕ) → a ≤ n → bit_or a b ≡ bit_or b a
or_comm_below n zero b h = omega (arith, bit_or-bitwise 0 b, or_zero_below b b)
or_comm_below zero (suc a) b h = absurd (omega arith)
or_comm_below (suc n) (suc a) b h = omega (
  arith,
  or_digit (suc a) b,
  or_digit b (suc a),
  or_comm_below n (suc a / 2) (b / 2) (omega arith),
)

pub bit_or_comm : (a b : ℕ) → bit_or a b ≡ bit_or b a
bit_or_comm a b = or_comm_below a a b (omega arith)
