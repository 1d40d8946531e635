-- ===== src/Tests/Core.antt =====
-- The crate `core` at small inputs.
use clipboard_history.Prelude.{
  ℕ, ◌+◌, ◌*◌, ◌/◌, ◌≤◌, ◌<◌, ◌≡◌, ◌^◌, ◌⊎◌, min, max, refl, true, false, some, ok, err, [], ◌∷◌,
  length, arith,
}
use clipboard_history.Prelude.Files.{Bytes}
use clipboard_history.Core.Protocol.{RingKind, main, ring, composite_id, decompose_id}
use clipboard_history.Core.Protocol.Ids.{decompose_id-composite_id, decompose_id_complete}
use clipboard_history.Core.InitializedEntry.{bucket, max_entries}
use clipboard_history.Core.Entry.{bucketed, raw_of_entry, entry_of_raw}
use clipboard_history.Core.Entry.Words.{entry_of_raw-raw_of_entry, IsEntry-bucket}
use clipboard_history.Core.Buckets.{num_buckets, size_to_bucket, bucket_to_length}
use clipboard_history.Core.Buckets.Classes.{size_to_bucket_fits}
use clipboard_history.Core.FileName.{
  direct_file_name_len, direct_file_name, entry_id_from_direct_file_name,
}
use clipboard_history.Core.FileName.RoundTrip.{direct_file_name_round_trip}
use clipboard_history.Core.Mimes.{codes, is_text_mime}
use clipboard_history.Core.Ring.{Ring, open_fd, next_entry, prev_entry, entries_to_offset}
use clipboard_history.Core.Ring.Walk.{next_entry-prev_entry, open_fd_sizes}

decompose_id-composite_id_example : decompose_id (composite_id main 7) ≡ ok (main, 7)
decompose_id-composite_id_example = decompose_id-composite_id main 7 (omega arith)

entry_of_raw-raw_of_entry_example :
    entry_of_raw (raw_of_entry (bucketed (bucket 5 3))) ≡ bucketed (bucket 5 3)
entry_of_raw-raw_of_entry_example =
    entry_of_raw-raw_of_entry (bucketed (bucket 5 3))
      (IsEntry-bucket 5 3 (omega arith) (omega arith) (omega arith))

size_to_bucket_fits_example :
    (size_to_bucket 100 < num_buckets)
    × (100 ≤ bucket_to_length (size_to_bucket 100))
    × ((size_to_bucket 100 ≡ 0) ⊎ (bucket_to_length (size_to_bucket 100) < 2 * 100))
size_to_bucket_fits_example = size_to_bucket_fits 100 (omega arith) (omega arith)

direct_file_name_round_trip_example :
    (length (direct_file_name main 42) ≡ direct_file_name_len)
    × (entry_id_from_direct_file_name (direct_file_name main 42) ≡ some (composite_id main 42))
direct_file_name_round_trip_example = direct_file_name_round_trip main 42 (omega arith)

abbrev three : Ring
three = record { mem = []; len = 3; capacity = 4 }

next_entry-prev_entry_example :
    (next_entry three (prev_entry three 0) ≡ 0)
    × (prev_entry three (next_entry three 0) ≡ 0)
    × (next_entry three 0 < 3)
    × (prev_entry three 0 < 3)
next_entry-prev_entry_example = next_entry-prev_entry three 0 (omega arith)

-- A header, two entries and the first byte of a third.
abbrev file_bytes : Bytes
file_bytes = 0x4D ∷ 0x18 ∷ 0x32 ∷ 0 ∷ 2 ∷ 0 ∷ 0 ∷ 0 ∷ 255 ∷ 15 ∷ 0 ∷ 0 ∷ 5 ∷ 16 ∷ 0 ∷ 0 ∷ 1 ∷ []

abbrev opened : Ring
opened = record { mem = file_bytes; len = 2; capacity = 100 }

file_bytes_open : open_fd 100 file_bytes ≡ ok opened
unfolding open_fd
file_bytes_open = refl

open_fd_sizes_example :
    (file_bytes ≡ file_bytes)
    × (2 ≤ 100)
    × (100 ≤ max_entries)
    × (entries_to_offset 2 ≤ max 8 (length file_bytes))
    × (length file_bytes < entries_to_offset (2 + 1))
    × (100 ≡ min (max 100 2) max_entries)
open_fd_sizes_example = open_fd_sizes 100 file_bytes {r = opened} file_bytes_open

decompose_rejects : decompose_id (2 * 2 ^ 32 + 5) ≡ err (ring 2)
unfolding decompose_id
decompose_rejects = refl

name_of_main : direct_file_name main 42 ≡ codes "0004294967338"
unfolding direct_file_name composite_id
name_of_main = refl

plain_is_text : is_text_mime (codes "Text/Plain;charset=UTF-8") ≡ true
unfolding is_text_mime
plain_is_text = refl

html_is_no_text : is_text_mime (codes "text/html") ≡ false
unfolding is_text_mime
html_is_no_text = refl

classes : (size_to_bucket 4 ≡ 0) × (size_to_bucket 5 ≡ 1) × (size_to_bucket 4095 ≡ 10)
unfolding size_to_bucket
classes = (refl, refl, refl)

decompose_id_complete_example :
    ((k : RingKind) × (i : ℕ) × (decompose_id 4294967303 ≡ ok (k, i))
      × (i < 2 ^ 32)
      × (composite_id k i ≡ 4294967303))
    ⊎ ((2 ^ 33 ≤ 4294967303) × (decompose_id 4294967303 ≡ err (ring (4294967303 / 2 ^ 32))))
decompose_id_complete_example = decompose_id_complete 4294967303
