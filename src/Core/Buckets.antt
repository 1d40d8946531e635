-- ===== src/Core/Buckets.antt =====
-- core/src/utils.rs: the size classes of the bucket files.
pub mod Classes
pub mod Contents
use clipboard_history.Prelude.{
  ℕ, zero, suc, ◌+◌, ◌-◌, ◌/◌, ◌^◌, Option, none, some, ltb, ◌==◌, if◌then◌else◌,
}
use mathlib.Core.Option.{get_or}

abbrev pub num_buckets : ℕ
num_buckets = 11

log2_loop : ℕ → ℕ → ℕ
log2_loop zero n = 0
log2_loop (suc fuel) n = let rest = log2_loop fuel (n / 2) in if ltb n 2 then 0 else suc rest

-- `u16::checked_ilog2`: a word of 16 bits is halved at most 16 times.
unfoldable pub checked_ilog2 : ℕ → Option ℕ
unfolding log2_loop
checked_ilog2 n = if n == 0 then none else some (log2_loop 16 n)

-- The subtractions saturate, as they do on these numbers.
unfoldable pub size_to_bucket : ℕ → ℕ
unfolding checked_ilog2
size_to_bucket bytes = get_or (checked_ilog2 (bytes - 1)) 0 - 1

-- `1 << (bucket + 2)`, which fits 16 bits below `NUM_BUCKETS`.
abbrev pub bucket_to_length : ℕ → ℕ
bucket_to_length bucket = 2 ^ (bucket + 2)
