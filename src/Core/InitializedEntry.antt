-- ===== src/Core/InitializedEntry.antt =====
-- core/src/ring.rs: `struct InitializedEntry(u32)`, the word of a bucket slot or of a direct file.
pub mod Fields
use clipboard_history.Prelude.{ℕ, ◌-◌, ◌%◌, ◌^◌, bit_and, bit_or, Bool, ◌==◌}
use clipboard_history.Prelude.Bits.{shl, shr, mask}

abbrev pub max_entries : ℕ
max_entries = 2 ^ 20 - 1

abbrev pub InitializedEntry : Type 0
InitializedEntry = ℕ

-- `(index << 12) | u32::from(size)`; the shift drops the bits that leave the word.
unfoldable pub bucket : ℕ → ℕ → InitializedEntry
bucket size index = bit_or (shl index 12 % 2 ^ 32) size

abbrev pub file_word : InitializedEntry
file_word = shl 1 31

-- The conversion to `u16` cannot fail: `size-lt`.
unfoldable pub size : InitializedEntry → ℕ
size e = bit_and e (mask 12)

unfoldable pub index : InitializedEntry → ℕ
index e = shr e 12

unfoldable pub is_file : InitializedEntry → Bool
is_file e = size e == 0
