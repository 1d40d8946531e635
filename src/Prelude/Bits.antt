-- ===== src/Prelude/Bits.antt =====
-- `|`, `&` and `^` as arithmetic: a field is shifted in, a mask takes the low bits.
use Prim.Native.Nat.{
  ℕ, zero, suc, ◌+◌, ◌-◌, ◌*◌, ◌/◌, ◌%◌, ◌^◌, ◌≤◌, ◌<◌, min, max, bit_and, bit_or, bit_xor, digits,
  bitwise, differ, bit_and-bitwise, bit_or-bitwise, bit_xor-bitwise,
}
use mathlib.Core.Path.{◌≡◌, refl, ap}
use native.Mathlib.Nat.{pow-suc, one-le-pow}
use native.Mathlib.Omega.{arith}

-- `x << k` and `x >> k` before any wrap-around, and the mask `(1 << k) - 1`.
abbrev pub shl : ℕ → ℕ → ℕ
shl x k = x * 2 ^ k

abbrev pub shr : ℕ → ℕ → ℕ
shr x k = x / 2 ^ k

abbrev pub mask : ℕ → ℕ
mask k = 2 ^ k - 1

-- A native operation is a digit recursion on fuel; any fuel from the first argument on will do.
same_digits :
    (z : ℕ → ℕ) (f : ℕ → ℕ → ℕ) (n m x y : ℕ) → x ≤ n → x ≤ m → digits z f n x y ≡ digits z f m x y
same_digits z f n m zero y hn hm = ends n m
  where
    ends : (n m : ℕ) → digits z f n zero y ≡ digits z f m zero y
    ends zero zero = refl
    ends zero (suc m) = refl
    ends (suc n) zero = refl
    ends (suc n) (suc m) = refl
same_digits z f zero m (suc x) y hn hm = absurd (omega arith)
same_digits z f (suc n) zero (suc x) y hn hm = absurd (omega arith)
same_digits z f (suc n) (suc m) (suc x) y hn hm =
    ap (λ (t : ℕ). t * 2 + f (suc x % 2) (y % 2))
      (same_digits z f n m (suc x / 2) (y / 2) (omega arith) (omega arith))

low_digit :
    (z : ℕ → ℕ) (f : ℕ → ℕ → ℕ) (x y : ℕ)
    → bitwise z f (suc x) y ≡ bitwise z f (suc x / 2) (y / 2) * 2 + f (suc x % 2) (y % 2)
low_digit z f x y =
    ap (λ (t : ℕ). t * 2 + f (suc x % 2) (y % 2))
      (same_digits z f x (suc x / 2) (suc x / 2) (y / 2) (omega arith) (omega arith))

pub bit_or_halves : (x y : ℕ) → bit_or x y ≡ bit_or (x / 2) (y / 2) * 2 + max (x % 2) (y % 2)
bit_or_halves zero y = simp bit_or-bitwise (omega arith)
bit_or_halves (suc x) y = simp bit_or-bitwise (low_digit (λ b. b) max x y)

pub bit_and_halves : (x y : ℕ) → bit_and x y ≡ bit_and (x / 2) (y / 2) * 2 + min (x % 2) (y % 2)
bit_and_halves zero y = simp bit_and-bitwise (omega arith)
bit_and_halves (suc x) y = simp bit_and-bitwise (low_digit (λ b. zero) min x y)

zero-bit_xor : (y : ℕ) → bit_xor 0 y ≡ y
zero-bit_xor y = simp bit_xor-bitwise

bit_xor_halves :
    (x y : ℕ) → bit_xor (suc x) y ≡ bit_xor (suc x / 2) (y / 2) * 2 + differ (suc x % 2) (y % 2)
bit_xor_halves x y = simp bit_xor-bitwise (low_digit (λ b. b) differ x y)

-- On zero, by descent over a bound.
bit_or-zero_below : (n x : ℕ) → x ≤ n → bit_or x 0 ≡ x
bit_or-zero_below n zero h = refl
bit_or-zero_below zero (suc x) h = absurd (omega arith)
bit_or-zero_below (suc n) (suc x) h =
    omega (arith, bit_or_halves (suc x) 0, bit_or-zero_below n (suc x / 2) (omega arith))

pub bit_and-zero_below : (n x : ℕ) → x ≤ n → bit_and x 0 ≡ 0
bit_and-zero_below n zero h = refl
bit_and-zero_below zero (suc x) h = absurd (omega arith)
bit_and-zero_below (suc n) (suc x) h =
    omega (arith, bit_and_halves (suc x) 0, bit_and-zero_below n (suc x / 2) (omega arith))

double_pow : (h k : ℕ) → h * 2 ^ suc k ≡ 2 * (h * 2 ^ k)
double_pow h k = omega (arith, ap (λ (t : ℕ). h * t) (pow-suc 2 k))

-- A field of `k` bits set below a shifted value is added to it.
pub bit_or-shl : (k h l : ℕ) → l < 2 ^ k → bit_or (shl h k) l ≡ h * 2 ^ k + l
bit_or-shl zero h l p = ground (arith, bit_or-zero_below h h)
bit_or-shl (suc k) h l p =
    ground
      (arith, double_pow h k, pow-suc 2 k, bit_or_halves (h * 2 ^ suc k) l, bit_or-shl k h (l / 2))

mask_halves : (k : ℕ) → (mask (suc k) / 2 ≡ mask k) × (mask (suc k) % 2 ≡ 1)
mask_halves k = omega (arith, pow-suc 2 k, one-le-pow k 2)

bit_and_split : (k h l : ℕ) → l < 2 ^ k → bit_and (h * 2 ^ k + l) (mask k) ≡ l
bit_and_split zero h l p = ground (arith, bit_and-zero_below (h * 1 + l) (h * 1 + l))
bit_and_split (suc k) h l p = ground (
  arith,
  double_pow h k,
  pow-suc 2 k,
  mask_halves k,
  bit_and_halves (h * 2 ^ suc k + l) (mask (suc k)),
  bit_and_split k h (l / 2),
)

-- `x & mask` is the remainder.
pub bit_and-mask : (k x : ℕ) → bit_and x (mask k) ≡ x % 2 ^ k
bit_and-mask k x = ground (arith, one-le-pow k 2, bit_and_split k (x / 2 ^ k) (x % 2 ^ k))

differ-le : (a b : ℕ) → a < 2 → b < 2 → differ a b ≤ 1
differ-le zero b ha hb = omega arith
differ-le (suc a) zero ha hb = omega arith
differ-le (suc zero) (suc zero) ha hb = omega arith
differ-le (suc (suc a)) (suc b) ha hb = absurd (omega arith)
differ-le (suc zero) (suc (suc b)) ha hb = absurd (omega arith)

-- `^` of two values of `k` bits has `k` bits.
pub bit_xor-lt : (k x y : ℕ) → x < 2 ^ k → y < 2 ^ k → bit_xor x y < 2 ^ k
bit_xor-lt k zero y hx hy = omega (arith, zero-bit_xor y)
bit_xor-lt zero (suc x) y hx hy = absurd (omega arith)
bit_xor-lt (suc k) (suc x) y hx hy = ground (
  arith,
  pow-suc 2 k,
  bit_xor_halves x y,
  differ-le (suc x % 2) (y % 2),
  bit_xor-lt k (suc x / 2) (y / 2),
)
