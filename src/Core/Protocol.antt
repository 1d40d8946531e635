-- ===== src/Core/Protocol.antt =====
-- core/src/protocol.rs: ring kinds and composite identifiers.
pub mod Ids
use clipboard_history.Prelude.{
  ℕ, Bool, true, false, zero, suc, ◌%◌, ◌^◌, bit_and, bit_or, Result, ok, err, ◌==◌, if◌then◌else◌,
}
use clipboard_history.Prelude.Bits.{shl, shr, mask}

pub data RingKind : Type 0 where
  favorites main : RingKind

-- The discriminant, `kind as u64`.
abbrev pub discriminant : RingKind → ℕ
discriminant favorites = 0
discriminant main = 1

-- The derived `==`.
abbrev pub same_kind : RingKind → RingKind → Bool
same_kind favorites favorites = true
same_kind main main = true
same_kind favorites main = false
same_kind main favorites = false

unfoldable pub default_max_entries : RingKind → ℕ
default_max_entries main = 131_070
default_max_entries favorites = 1022

pub data IdNotFoundError : Type 0 where
  ring : ℕ → IdNotFoundError
  entry : ℕ → IdNotFoundError

-- `((kind as u64) << 32) | u64::from(index)`
unfoldable pub composite_id : RingKind → ℕ → ℕ
composite_id kind index = bit_or (shl (discriminant kind) 32) index

unfoldable pub decompose_id : ℕ → Result (RingKind × ℕ) IdNotFoundError
decompose_id id =
    let index = bit_and id (mask 32) in
    let found = shr id 32 in
    if found == 0
    then ok (favorites, index)
    else if found == 1
    then ok (main, index)
    else err (ring found)
