-- ===== src/Core/Buckets/Classes.antt =====
-- Every size of an entry kept in a bucket falls in the smallest class that holds it.
use clipboard_history.Prelude.{
  ℕ, zero, suc, ◌+◌, ◌-◌, ◌*◌, ◌/◌, ◌^◌, ◌≤◌, ◌<◌, ◌≡◌, refl, arith, ltb, Bool-cases, false, ◌==◌,
  ◌⊎◌, inl, inr, ltb→lt,
}
use native.Mathlib.Nat.{pow-suc}
use clipboard_history.Core.Buckets.{
  num_buckets, checked_ilog2, log2_loop, size_to_bucket, bucket_to_length,
}

log2_bounds :
    (fuel n : ℕ)
    → 0 < n
    → n < 2 ^ fuel
    → (2 ^ log2_loop fuel n ≤ n) × (n < 2 ^ suc (log2_loop fuel n))
unfolding log2_loop
log2_bounds zero n pos h = absurd (omega arith)
log2_bounds (suc fuel) n pos h = elim (Bool-cases (ltb n 2)) [
  | inl small ↦ rw small (omega (arith, ltb→lt n 2 small))
  | inr big ↦ rw big (
      ground (
        arith,
        pow-suc 2 fuel,
        pow-suc 2 (log2_loop fuel (n / 2)),
        pow-suc 2 (suc (log2_loop fuel (n / 2))),
        log2_bounds fuel (n / 2),
      ))
]

log2-lt : (m fuel n : ℕ) → 0 < m → n < 2 ^ m → m ≤ fuel → log2_loop fuel n < m
unfolding log2_loop
log2-lt zero fuel n pos h f = absurd (omega arith)
log2-lt (suc m) zero n pos h f = absurd (omega arith)
log2-lt (suc zero) (suc fuel) n pos h f = ground arith
log2-lt (suc (suc m)) (suc fuel) n pos h f =
    ground (arith, pow-suc 2 (suc m), log2-lt (suc m) fuel (n / 2))

size_to_bucket_log2 : (n : ℕ) → size_to_bucket (suc (suc n)) ≡ log2_loop 16 (suc n) - 1
unfolding size_to_bucket
size_to_bucket_log2 n = let e : suc (suc n) - 1 ≡ suc n = omega arith in rw e (ground arith)

-- The class of a size whose predecessor lies between two powers of two.
class_fits :
    (k b n : ℕ)
    → b ≡ k - 1
    → 2 ^ k ≤ n
    → n < 2 ^ suc k
    → k < 12
    → (b < num_buckets)
      × (suc n ≤ bucket_to_length b)
      × ((b ≡ 0) ⊎ (bucket_to_length b < 2 * suc n))
class_fits zero b n e lo hi small = ground arith
class_fits (suc k) b n e lo hi small =
    let e' : b ≡ k = omega arith in
    rw e' (ground (arith, pow-suc 2 k, pow-suc 2 (suc k), pow-suc 2 (k + 1), power k))
  where
    power : (k : ℕ) → 2 ^ (k + 2) ≡ 2 * 2 ^ suc k
    power k = let e : k + 2 ≡ suc (suc k) = omega arith in rw e (omega (arith, pow-suc 2 (suc k)))

-- An entry of 1 to 4095 bytes goes to one of the buckets, fits a slot of it, and would not fit a
-- slot of half that length, unless its bucket is the one with the shortest slots.
pub size_to_bucket_fits :
    (bytes : ℕ)
    → 0 < bytes
    → bytes < 4096
    → (size_to_bucket bytes < num_buckets)
      × (bytes ≤ bucket_to_length (size_to_bucket bytes))
      × ((size_to_bucket bytes ≡ 0) ⊎ (bucket_to_length (size_to_bucket bytes) < 2 * bytes))
size_to_bucket_fits zero pos h = elim pos [ ]
size_to_bucket_fits (suc zero) pos h = small
  where
    small :
        (size_to_bucket 1 < num_buckets)
        × (1 ≤ bucket_to_length (size_to_bucket 1))
        × ((size_to_bucket 1 ≡ 0) ⊎ (bucket_to_length (size_to_bucket 1) < 2 * 1))
    small = unfold size_to_bucket in (omega arith, omega arith, inl refl)
size_to_bucket_fits (suc (suc n)) pos h =
    let (lo, hi) = log2_bounds 16 (suc n) (omega arith) (omega arith) in
    class_fits (log2_loop 16 (suc n)) (size_to_bucket (suc (suc n))) (suc n) (size_to_bucket_log2 n)
      lo hi (log2-lt 12 16 (suc n) (omega arith) (omega arith) (omega arith))

log2_loop-le : (fuel m n : ℕ) → m ≤ n → log2_loop fuel m ≤ log2_loop fuel n
unfolding log2_loop
log2_loop-le zero m n h = omega arith
log2_loop-le (suc fuel) m n h = ground (arith, log2_loop-le fuel (m / 2) (n / 2))

-- A larger size is in no smaller a bucket.
pub size_to_bucket-le : (m n : ℕ) → m ≤ n → size_to_bucket m ≤ size_to_bucket n
unfolding size_to_bucket checked_ilog2
size_to_bucket-le m n h = elim (Bool-cases (m - 1 == 0)) [
  | inl none_left ↦ rw none_left (omega arith)
  | inr some_left ↦
      let more : (n - 1 == 0) ≡ false = ground (arith, some_left) in
      rw (some_left, more) (omega (arith, log2_loop-le 16 (m - 1) (n - 1) (omega arith)))
]
