-- ===== src/Prelude/Flags.antt =====
-- A word as a set of flags: `word & (1 << i)`, `word |= 1 << i` and `word &= !(1 << i)` in 32 bits.
use Prim.Native.Nat.{ℕ, zero, suc, ◌-◌, ◌*◌, ◌/◌, ◌%◌, ◌^◌, ◌<◌, min, max, bit_and, bit_or}
use mathlib.Core.Path.{◌≡◌, refl, ap, ◌∙◌}
use mathlib.Core.Bool.{Bool, true, false, not, ◌&&◌, ◌||◌}
use native.Mathlib.Nat.{pow-suc, one-le-pow}
use native.Mathlib.Omega.{arith}
use clipboard_history.Prelude.Bits.{shl, bit_or_halves, bit_and_halves, bit_and-zero_below}
use clipboard_history.Prelude.Tests.{◌==◌, if◌then◌else◌}

abbrev pub width : ℕ
width = 32

unfoldable pub has_flag : ℕ → ℕ → Bool
has_flag word i = not (bit_and word (shl 1 i) == 0)

unfoldable pub set_flag : ℕ → ℕ → ℕ
set_flag word i = bit_or word (shl 1 i)

-- `!x` of 32 bits is `2^32 - 1 - x`.
unfoldable pub clear_flag : ℕ → ℕ → ℕ
clear_flag word i = bit_and word (2 ^ width - 1 - shl 1 i)

bit_at : ℕ → ℕ → ℕ
bit_at x zero = x % 2
bit_at x (suc i) = bit_at (x / 2) i

bit_at-zero : (i : ℕ) → bit_at 0 i ≡ 0
unfolding bit_at
bit_at-zero zero = refl
bit_at-zero (suc i) = bit_at-zero i

bit_at-bit_and : (x y i : ℕ) → bit_at (bit_and x y) i ≡ min (bit_at x i) (bit_at y i)
unfolding bit_at
bit_at-bit_and x y zero = omega (arith, bit_and_halves x y)
bit_at-bit_and x y (suc i) =
    ap (λ t. bit_at t i) (omega (arith, bit_and_halves x y)) ∙ bit_at-bit_and (x / 2) (y / 2) i

bit_at-bit_or : (x y i : ℕ) → bit_at (bit_or x y) i ≡ max (bit_at x i) (bit_at y i)
unfolding bit_at
bit_at-bit_or x y zero = omega (arith, bit_or_halves x y)
bit_at-bit_or x y (suc i) =
    ap (λ t. bit_at t i) (omega (arith, bit_or_halves x y)) ∙ bit_at-bit_or (x / 2) (y / 2) i

bit_at-one_bit : (i j : ℕ) → bit_at (2 ^ i) j ≡ (if i == j then 1 else 0)
unfolding bit_at
bit_at-one_bit zero zero = refl
bit_at-one_bit zero (suc j) = ground (arith, bit_at-zero j)
bit_at-one_bit (suc i) zero = ground (arith, pow-suc 2 i)
bit_at-one_bit (suc i) (suc j) =
    ap (λ t. bit_at t j) (omega (arith, pow-suc 2 i)) ∙ bit_at-one_bit i j ∙ ground arith

bit_at-ones : (k j : ℕ) → j < k → bit_at (2 ^ k - 1) j ≡ 1
unfolding bit_at
bit_at-ones zero j h = absurd (omega arith)
bit_at-ones (suc k) zero h = omega (arith, pow-suc 2 k, one-le-pow k 2)
bit_at-ones (suc k) (suc j) h =
    ap (λ t. bit_at t j) (omega (arith, pow-suc 2 k, one-le-pow k 2))
    ∙ bit_at-ones k j (omega arith)

pow-le : (i k : ℕ) → i < k → 2 ^ i < 2 ^ k
pow-le i zero h = absurd (omega arith)
pow-le zero (suc k) h = omega (arith, pow-suc 2 k, one-le-pow k 2)
pow-le (suc i) (suc k) h = omega (arith, pow-suc 2 k, pow-suc 2 i, pow-le i k (omega arith))

bit_at-all_but :
    (k i j : ℕ) → i < k → j < k → bit_at (2 ^ k - 1 - 2 ^ i) j ≡ (if i == j then 0 else 1)
unfolding bit_at
bit_at-all_but zero i j hi hj = absurd (omega arith)
bit_at-all_but (suc k) zero zero hi hj = omega (arith, pow-suc 2 k, one-le-pow k 2)
bit_at-all_but (suc k) zero (suc j) hi hj =
    ap (λ t. bit_at t j) (omega (arith, pow-suc 2 k, one-le-pow k 2))
    ∙ bit_at-ones k j (omega arith)
    ∙ ground arith
bit_at-all_but (suc k) (suc i) zero hi hj =
    ground (arith, pow-suc 2 k, pow-suc 2 i, pow-le i k (omega arith))
bit_at-all_but (suc k) (suc i) (suc j) hi hj =
    ap (λ t. bit_at t j) (omega (arith, pow-suc 2 k, pow-suc 2 i, pow-le i k (omega arith)))
    ∙ bit_at-all_but k i j (omega arith) (omega arith)
    ∙ ground arith

bit_at-lt : (x i : ℕ) → bit_at x i < 2
unfolding bit_at
bit_at-lt x zero = omega arith
bit_at-lt x (suc i) = bit_at-lt (x / 2) i

bit_and-one_bit : (x i : ℕ) → bit_and x (2 ^ i) ≡ bit_at x i * 2 ^ i
unfolding bit_at
bit_and-one_bit x zero =
    omega (arith, bit_and_halves x 1, bit_and-zero_below (x / 2) (x / 2) (omega arith))
bit_and-one_bit x (suc i) =
    let half : 2 ^ suc i / 2 ≡ 2 ^ i = omega (arith, pow-suc 2 i) in
    let low : 2 ^ suc i % 2 ≡ 0 = omega (arith, pow-suc 2 i) in
    let rest : bit_and (x / 2) (2 ^ suc i / 2) ≡ bit_at (x / 2) i * 2 ^ i =
      ap (bit_and (x / 2)) half ∙ bit_and-one_bit (x / 2) i in
    omega (arith, bit_and_halves x (2 ^ suc i), low, rest, double (bit_at (x / 2) i))
  where
    double : (t : ℕ) → t * 2 ^ suc i ≡ (t * 2 ^ i) * 2
    double t = omega (arith, ap (λ (m : ℕ). t * m) (pow-suc 2 i))

has_flag-bit_at : (x i : ℕ) → has_flag x i ≡ (bit_at x i == 1)
unfolding has_flag
has_flag-bit_at x i = go (bit_at x i) (bit_at-lt x i) (bit_and-one_bit x i)
  where
    go :
        (b : ℕ)
        → b < 2
        → bit_and x (2 ^ i) ≡ b * 2 ^ i
        → not (bit_and x (1 * 2 ^ i) == 0) ≡ (b == 1)
    go zero lt h = ground arith
    go (suc zero) lt h = ground (arith, one-le-pow i 2)
    go (suc (suc b)) lt h = absurd (omega arith)

shl-one : (i : ℕ) → shl 1 i ≡ 2 ^ i
shl-one i = omega arith

pub has_flag-set_flag : (x i j : ℕ) → has_flag (set_flag x i) j ≡ (i == j || has_flag x j)
unfolding set_flag
has_flag-set_flag x i j = ground (
  arith,
  has_flag-bit_at (bit_or x (shl 1 i)) j,
  has_flag-bit_at x j,
  bit_at-bit_or x (shl 1 i) j,
  ap (λ t. bit_at t j) (shl-one i),
  bit_at-one_bit i j,
  bit_at-lt x j,
)

pub has_flag-clear_flag :
    (x i j : ℕ)
    → i < width
    → j < width
    → has_flag (clear_flag x i) j ≡ (not (i == j) && has_flag x j)
unfolding clear_flag
has_flag-clear_flag x i j hi hj = ground (
  arith,
  has_flag-bit_at (bit_and x (2 ^ width - 1 - shl 1 i)) j,
  has_flag-bit_at x j,
  bit_at-bit_and x (2 ^ width - 1 - shl 1 i) j,
  ap (λ t. bit_at (2 ^ width - 1 - t) j) (shl-one i),
  bit_at-all_but width i j hi hj,
  bit_at-lt x j,
)

-- A word with a flag is not zero.
pub has_flag-ne-zero : (x i : ℕ) → has_flag x i ≡ true → (x == 0) ≡ false
has_flag-ne-zero zero i h = absurd (ground (arith, has_flag-bit_at 0 i, bit_at-zero i))
has_flag-ne-zero (suc x) i h = ground arith
