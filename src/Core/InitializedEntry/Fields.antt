-- ===== src/Core/InitializedEntry/Fields.antt =====
-- The fields of the word: size in the low 12 bits, slot index above.
use clipboard_history.Prelude.{ℕ, ◌+◌, ◌*◌, ◌%◌, ◌^◌, ◌<◌, ◌≡◌, false, bit_or, arith}
use clipboard_history.Prelude.Bits.{bit_or-shl, bit_and-mask}
use clipboard_history.Core.InitializedEntry.{
  max_entries, InitializedEntry, bucket, size, index, is_file,
}

pub size_mod : (e : InitializedEntry) → size e ≡ e % 2 ^ 12
unfolding size
size_mod e = bit_and-mask 12 e

pub size-lt : (e : InitializedEntry) → size e < 2 ^ 12
size-lt e = omega (arith, size_mod e)

pub bucket_sum : (s i : ℕ) → s < 2 ^ 12 → i < max_entries → bucket s i ≡ i * 2 ^ 12 + s
unfolding bucket
bucket_sum s i hs hi = cut (i * 2 ^ 12 % 2 ^ 32) (omega arith)
  where
    cut : (w : ℕ) → w ≡ i * 2 ^ 12 → bit_or w s ≡ i * 2 ^ 12 + s
    cut w e = rw e (bit_or-shl 12 i s hs)

-- A slot's word gives back the size and the index that it was made of, is no file, is not the word
-- of an unused entry, and fits 32 bits: for every size of 1 to 4095 bytes and every index below the
-- maximum number of entries.
pub bucket_fields :
    (s i : ℕ)
    → 0 < s
    → s < 2 ^ 12
    → i < max_entries
    → (size (bucket s i) ≡ s)
      × (index (bucket s i) ≡ i)
      × (is_file (bucket s i) ≡ false)
      × (0 < bucket s i)
      × (bucket s i < 2 ^ 32)
unfolding index is_file
bucket_fields s i pos hs hi = ground (arith, bucket_sum s i hs hi, size_mod (bucket s i))
