-- ===== src/X11/Deduplication/Table.antt =====
-- The table of hashes: its index is in bounds, and it remembers the last identifier of an index.
use clipboard_history.Prelude.{
  ℕ, zero, suc, ◌+◌, ◌-◌, ◌*◌, ◌%◌, ◌≤◌, ◌<◌, ◌^◌, ◌≡◌, refl, sym, ◌∙◌, bit_and, bit_xor, some,
  length, get_or-set, length-set, arith, ◌==◌, if◌then◌else◌, Bool-cases, inl, inr,
}
use mathlib.Core.Path.{subst}
use native.Mathlib.Nat.{pow-suc, one-le-pow}
use clipboard_history.Prelude.Bits.{shr, mask, bit_and-mask, bit_xor-lt}
use clipboard_history.X11.Deduplication.{ArrayMap, fold_hash, hash_to_index, get, remember}

fold_hash-lt : (k fuel hash result : ℕ) → result < 2 ^ k → fold_hash k fuel hash result < 2 ^ k
unfolding fold_hash
fold_hash-lt k zero hash result h = h
fold_hash-lt k (suc fuel) hash result h = elim (Bool-cases (hash == 0)) [
  | inl done ↦ rw done h
  | inr more ↦ rw more (
      fold_hash-lt k fuel (shr hash k) (bit_xor result (bit_and hash (mask k))) (
        bit_xor-lt k result (bit_and hash (mask k)) h
          (ground (arith, bit_and-mask k hash, one-le-pow k 2))))
]

-- The index is one of the table's slots, whatever the hash.
pub hash_to_index-lt : (k hash : ℕ) → hash_to_index k hash < 2 ^ k
unfolding hash_to_index
hash_to_index-lt k hash = fold_hash-lt k 64 hash 0 (omega (arith, one-le-pow k 2))

widen : (q d : ℕ) → q ≤ q * suc d
widen q d = omega arith

halved : (q p hash : ℕ) → 1 ≤ p → q * (2 * p) ≤ hash → 2 * q ≤ hash
halved q zero hash pos h = absurd (omega arith)
halved q (suc d) hash pos h = omega (arith, widen q d)

shr-halves : (k hash : ℕ) → 2 * shr hash (suc k) ≤ hash
shr-halves k hash =
    let doubled : 2 * 2 ^ k ≡ 2 ^ suc k = omega (arith, pow-suc 2 k) in
    let below : shr hash (suc k) * 2 ^ suc k ≤ hash = ground (arith, one-le-pow (suc k) 2) in
    halved (shr hash (suc k)) (2 ^ k) hash (one-le-pow k 2 (omega arith))
      (subst (λ w. shr hash (suc k) * w ≤ hash) (sym doubled) below)

-- More rounds than the hash has bits change nothing.
pub fold_hash-enough :
    (k fuel more hash result : ℕ)
    → hash < 2 ^ fuel
    → fuel ≤ more
    → fold_hash (suc k) more hash result ≡ fold_hash (suc k) fuel hash result
unfolding fold_hash
fold_hash-enough k zero zero hash result h le = refl
fold_hash-enough k zero (suc more) hash result h le =
    let done : hash ≡ 0 = omega arith in rw done refl
fold_hash-enough k (suc fuel) zero hash result h le = absurd (omega arith)
fold_hash-enough k (suc fuel) (suc more) hash result h le = elim (Bool-cases (hash == 0)) [
  | inl done ↦ rw done refl
  | inr rounds ↦ rw rounds (
      fold_hash-enough k fuel more (shr hash (suc k)) (bit_xor result (bit_and hash (mask (suc k))))
        (omega (arith, pow-suc 2 fuel, shr-halves k hash)) (omega arith))
]

-- A table with all its slots, two or more: an index below 2^32 - 1 that is remembered for a hash is
-- found for every hash of the same index, and what the other indices have stays; the index is inside
-- the table, and rounds beyond the 64 of a hash of 64 bits would not change it.
pub get-remember :
    (map : ArrayMap) (k hash id other more : ℕ)
    → map.log_slots ≡ suc k
    → length map.ids ≡ 2 ^ map.log_slots
    → hash < 2 ^ 64
    → id < 2 ^ 32 - 1
    → 64 ≤ more
    → (get (remember hash id map) other ≡ (
        if hash_to_index map.log_slots hash == hash_to_index map.log_slots other
        then some id
        else get map other))
      × (length (remember hash id map).ids ≡ 2 ^ map.log_slots)
      × (hash_to_index map.log_slots hash < length map.ids)
      × (fold_hash map.log_slots more hash 0 ≡ hash_to_index map.log_slots hash)
unfolding get remember
get-remember map k hash id other more e whole bits narrow rounds = (
  ground (
    arith,
    no_wrap,
    get_or-set map.ids (hash_to_index map.log_slots hash) ((id + 1) % 2 ^ 32)
        (hash_to_index map.log_slots other) 0
        (omega (arith, whole, hash_to_index-lt map.log_slots hash)),
  ),
  length-set map.ids (hash_to_index map.log_slots hash) ((id + 1) % 2 ^ 32) ∙ whole,
  omega (arith, whole, hash_to_index-lt map.log_slots hash),
  rw e (unfold hash_to_index in fold_hash-enough k 64 more hash 0 bits rounds),
)
  where
    no_wrap : (id + 1) % 2 ^ 32 ≡ id + 1
    no_wrap = omega arith
