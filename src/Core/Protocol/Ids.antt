-- ===== src/Core/Protocol/Ids.antt =====
-- Composite identifiers and (ring, index) pairs determine one another.
use clipboard_history.Prelude.{
  ◌⊎◌, inl, inr, Bool-cases, ◌==◌, ◌%◌, ℕ, ◌+◌, ◌*◌, ◌/◌, ◌^◌, ◌≤◌, ◌<◌, ◌≡◌, ok, err, arith,
}
use clipboard_history.Prelude.Bits.{bit_or-shl, bit_and-mask}
use clipboard_history.Core.Protocol.{
  RingKind, favorites, main, discriminant, ring, composite_id, decompose_id,
}

pub composite_id_sum :
    (k : RingKind) (i : ℕ) → i < 2 ^ 32 → composite_id k i ≡ discriminant k * 2 ^ 32 + i
unfolding composite_id
composite_id_sum k i h = bit_or-shl 32 (discriminant k) i h

-- A composite identifier is taken apart into the ring and the index that it was made of, for every
-- index of 32 bits.
pub decompose_id-composite_id :
    (k : RingKind) (i : ℕ) → i < 2 ^ 32 → decompose_id (composite_id k i) ≡ ok (k, i)
unfolding decompose_id
decompose_id-composite_id favorites i h =
    ground (arith, composite_id_sum favorites i h, bit_and-mask 32 (composite_id favorites i))
decompose_id-composite_id main i h =
    ground (arith, composite_id_sum main i h, bit_and-mask 32 (composite_id main i))

-- Every identifier below 2^33 is taken apart into a ring and an index of 32 bits that make it up;
-- every other identifier is refused with its upper 32 bits.
pub decompose_id_complete :
    (id : ℕ)
    → ((k : RingKind) × (i : ℕ) × (decompose_id id ≡ ok (k, i))
        × (i < 2 ^ 32)
        × (composite_id k i ≡ id))
      ⊎ ((2 ^ 33 ≤ id) × (decompose_id id ≡ err (ring (id / 2 ^ 32))))
unfolding decompose_id
decompose_id_complete id = elim (Bool-cases (id / 2 ^ 32 == 0)) [
  | inl low ↦ inl (
    favorites,
    id % 2 ^ 32,
    ground (arith, bit_and-mask 32 id),
    omega arith,
    ground (arith, composite_id_sum favorites (id % 2 ^ 32)),
  )
  | inr h ↦ elim (Bool-cases (id / 2 ^ 32 == 1)) [
    | inl mid ↦ inl (
      main,
      id % 2 ^ 32,
      ground (arith, bit_and-mask 32 id),
      omega arith,
      ground (arith, composite_id_sum main (id % 2 ^ 32)),
    )
    | inr high ↦ inr (ground arith, ground arith)
  ]
]
