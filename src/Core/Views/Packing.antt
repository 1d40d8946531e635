-- ===== src/Core/Views/Packing.antt =====
-- Packed words give their parts back, and are ordered by index first.
use clipboard_history.Prelude.{
  ℕ, ◌+◌, ◌*◌, ◌%◌, ◌^◌, ◌≤◌, ◌<◌, ◌≡◌, ◌↔◌, ◌⊎◌, bit_or, some, ok, arith,
}
use clipboard_history.Prelude.Bits.{bit_or-shl, bit_and-mask}
use clipboard_history.Core.InitializedEntry.{max_entries}
use clipboard_history.Core.Protocol.{RingKind, favorites, main, discriminant, composite_id}
use clipboard_history.Core.Protocol.Ids.{decompose_id-composite_id}
use clipboard_history.Core.Views.{
  pack, low_byte, packed_index, ring_and_index, from_id, ring_of, id_of, bucket_and_index,
}

pub pack_sum :
    (low index : ℕ) → low < 256 → index ≤ max_entries → pack low index ≡ index * 2 ^ 8 + low
unfolding pack
pack_sum low index hl hi = cut (index * 2 ^ 8 % 2 ^ 32) (omega arith)
  where
    cut : (w : ℕ) → w ≡ index * 2 ^ 8 → bit_or w low ≡ index * 2 ^ 8 + low
    cut w e = rw e (bit_or-shl 8 index low hl)

-- A bucket and an index are read back from their packed word, for every bucket of one byte and
-- every index up to the maximum number of entries.
pub bucket_and_index_parts :
    (bucket index : ℕ)
    → bucket < 256
    → index ≤ max_entries
    → (low_byte (bucket_and_index bucket index) ≡ bucket)
      × (packed_index (bucket_and_index bucket index) ≡ index)
unfolding bucket_and_index low_byte packed_index
bucket_and_index_parts b i hb hi = ground (arith, pack_sum b i hb hi, bit_and-mask 8 (pack b i))

discriminant-lt : (k : RingKind) → discriminant k < 2
discriminant-lt favorites = omega arith
discriminant-lt main = omega arith

pub ring_and_index_parts :
    (k : RingKind) (i : ℕ)
    → i ≤ max_entries
    → (ring_of (ring_and_index k i) ≡ some k) × (packed_index (ring_and_index k i) ≡ i)
unfolding ring_and_index ring_of packed_index
ring_and_index_parts favorites i h = ground (arith, pack_sum 0 i, bit_and-mask 8 (pack 0 i))
ring_and_index_parts main i h = ground (arith, pack_sum 1 i, bit_and-mask 8 (pack 1 i))

-- The identifier of a packed entry is the composite identifier of its parts, and packing an
-- identifier and taking it out again is the identity: for every index up to the maximum.
pub id_of-from_id :
    (k : RingKind) (i : ℕ)
    → i ≤ max_entries
    → (id_of (ring_and_index k i) ≡ some (composite_id k i))
      × (from_id (composite_id k i) ≡ ok (ring_and_index k i))
unfolding id_of from_id
id_of-from_id k i h =
    ground (arith, ring_and_index_parts k i h, decompose_id-composite_id k i (omega arith))

-- Packed entries are ordered by index, and at one index favorites come before main.
pub ring_and_index_order :
    (k l : RingKind) (i j : ℕ)
    → i ≤ max_entries
    → j ≤ max_entries
    → (ring_and_index k i < ring_and_index l j)
      ↔ ((i < j) ⊎ ((i ≡ j) × (discriminant k < discriminant l)))
unfolding ring_and_index
ring_and_index_order k l i j hi hj = (λ h. grind (arith, facts), λ h. grind (arith, facts))
  where
    facts :
        (pack (discriminant k) i ≡ i * 2 ^ 8 + discriminant k)
        × (pack (discriminant l) j ≡ j * 2 ^ 8 + discriminant l)
        × (discriminant k < 2)
        × (discriminant l < 2)
    facts = (
      pack_sum (discriminant k) i (omega (arith, discriminant-lt k)) hi,
      pack_sum (discriminant l) j (omega (arith, discriminant-lt l)) hj,
      discriminant-lt k,
      discriminant-lt l,
    )
