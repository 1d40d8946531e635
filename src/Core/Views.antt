-- ===== src/Core/Views.antt =====
-- core/src/views.rs: a ring or bucket number and an index packed into 32 bits, and the views that
-- undo what is appended to a text or a path.
pub mod Packing
use clipboard_history.Prelude.{
  ℕ, ◌+◌, ◌*◌, ◌%◌, ◌^◌, bit_and, bit_or, Option, none, some, Result, ok, err, List, length, take,
  ◌==◌, if◌then◌else◌,
}
use clipboard_history.Prelude.Bits.{shl, shr, mask}
use clipboard_history.Core.Protocol.{
  RingKind, favorites, main, discriminant, IdNotFoundError, composite_id, decompose_id,
}

-- `struct RingAndIndex(u32)` and `struct BucketAndIndex(u32)`.
abbrev pub RingAndIndex : Type 0
RingAndIndex = ℕ

abbrev pub BucketAndIndex : Type 0
BucketAndIndex = ℕ

-- `(index << u8::BITS) | low`, which both constructors compute in 32 bits.
unfoldable pub pack : ℕ → ℕ → ℕ
pack low index = bit_or (shl index 8 % 2 ^ 32) low

-- `self.0 & u32::from(u8::MAX)` and `self.0 >> u8::BITS`
unfoldable pub low_byte : ℕ → ℕ
low_byte packed = bit_and packed (mask 8)

unfoldable pub packed_index : ℕ → ℕ
packed_index packed = shr packed 8

unfoldable pub ring_and_index : RingKind → ℕ → RingAndIndex
unfolding pack
ring_and_index ring index = pack (discriminant ring) index

-- `RingAndIndex::from_id`
unfoldable pub from_id : ℕ → Result RingAndIndex IdNotFoundError
unfolding ring_and_index
from_id id = elim (decompose_id id) [
  | ok (ring, index) ↦ ok (ring_and_index ring index)
  | err e ↦ err e
]

-- `RingAndIndex::ring`; the `transmute` is undefined (`none`) on a byte that is no ring.
unfoldable pub ring_of : RingAndIndex → Option RingKind
unfolding low_byte
ring_of rai =
    let ring = low_byte rai in
    if ring == 0 then some favorites else if ring == 1 then some main else none

-- `RingAndIndex::id`
unfoldable pub id_of : RingAndIndex → Option ℕ
unfolding ring_of packed_index
id_of rai = elim (ring_of rai) [
  | some ring ↦ some (composite_id ring (packed_index rai))
  | none ↦ none
]

unfoldable pub bucket_and_index : ℕ → ℕ → BucketAndIndex
unfolding pack
bucket_and_index bucket index = pack bucket index

-- `struct StringView`: the length at its creation, and the text that it lends out.
pub record StringView : Type 0 where
  pub mark : ℕ
  pub text : List ℕ

unfoldable pub view_string : List ℕ → StringView
view_string s = record { mark = length s; text = s }

-- `drop`: `self.1.drain(self.0..)`
unfoldable pub drop_view : StringView → List ℕ
drop_view v = take v.mark v.text
