-- ===== src/Tests/Client.antt =====
-- The crate `client-sdk` on small rings.
use clipboard_history.Core.Entry.{entry_of_raw}
use clipboard_history.Core.Buckets.{size_to_bucket}
use clipboard_history.Prelude.{
  zero, suc, ◌*◌, ◌+◌, ◌≡◌, refl, [], ◌∷◌, none, some, ok, inr, length, replicate, arith,
}
use clipboard_history.Prelude.Files.{read_at, read_u32}
use clipboard_history.Core.Protocol.{main}
use clipboard_history.Core.InitializedEntry.{index, size, is_file}
use clipboard_history.Core.Mimes.{codes}
use clipboard_history.Core.Views.{ring_and_index}
use clipboard_history.Core.Buckets.Contents.{slot_bytes}
use clipboard_history.Core.Ring.{next_head, next_entry, prev_entry, get, Ring, write_head}
use clipboard_history.Client.RingReader.{
  is_last, ReaderEntry, entry_from, next, next_back, drain, from_ring, size_hint,
}
use clipboard_history.Client.RingReader.Oldest.{drain-from_ring}
use clipboard_history.Client.RingReader.Drain.{entries_at, oldest_first, IsTail}
use clipboard_history.Client.RingReader.SizeHint.{IsUsed, length-drain-size_hint}
use clipboard_history.Client.EntryReader.{
  remap, grow_bucket_if_needed, bucket_entry_to_slice, kind, to_slice_raw, EntryReader, to_slice,
}
use clipboard_history.Client.EntryReader.Loading.{to_slice-slot_bytes}

-- A full ring of three slots of bucket 1, whose write head is at 1.
abbrev full : Ring
full = record {
  mem =
      0x4D ∷ 0x18 ∷ 0x32 ∷ 0 ∷ 1 ∷ 0 ∷ 0 ∷ 0 ∷ 5 ∷ 0 ∷ 0 ∷ 0 ∷ 6 ∷ 16 ∷ 0 ∷ 0 ∷ 7 ∷ 32 ∷ 0 ∷ 0 ∷ [];
  len = 3;
  capacity = 3;
}

full-IsTail : IsTail full (write_head full)
unfolding write_head read_u32
full-IsTail = inr (omega arith, refl)

full-IsUsed : IsUsed full main
unfolding entry_from get entry_of_raw read_u32 is_file size
full-IsUsed zero lt = (record { rai = ring_and_index main 0; metadata = 5 }, refl)
full-IsUsed (suc zero) lt = (record { rai = ring_and_index main 1; metadata = 16 * 256 + 6 }, refl)
full-IsUsed (suc (suc zero)) lt =
    (record { rai = ring_and_index main 2; metadata = 32 * 256 + 7 }, refl)
full-IsUsed (suc (suc (suc i))) lt = absurd (omega arith)

drain-from_ring_example :
    drain 4 (next full) (from_ring full main) ≡ entries_at full main (oldest_first full)
drain-from_ring_example = drain-from_ring full main 3 (omega arith) full-IsTail (omega arith)

length-drain-size_hint_example :
    length (drain 4 (next full) (from_ring full main)) ≡ suc (size_hint full (from_ring full main))
length-drain-size_hint_example =
    length-drain-size_hint full main (omega arith) full-IsTail full-IsUsed

abbrev reader : EntryReader
reader = record {
  buckets = [] ∷ codes "hello\0\0\0" ∷ replicate 9 [];
  mapped = replicate 11 0;
  direct = λ _. none;
}

abbrev hello : ReaderEntry
hello = record { rai = ring_and_index main 0; metadata = 5 }

to_slice-slot_bytes_example : (to_slice hello reader).0 ≡ ok (some (slot_bytes reader.buckets 5))
unfolding is_file size
to_slice-slot_bytes_example = to_slice-slot_bytes hello reader refl (omega arith) refl

hello_loads : (to_slice hello reader).0 ≡ ok (some (codes "hello"))
unfolding to_slice to_slice_raw kind is_file size bucket_entry_to_slice grow_bucket_if_needed
    size_to_bucket index remap read_at
hello_loads = refl

newest_first :
    drain 4 (next_back full) (from_ring full main)
    ≡ record { rai = ring_and_index main 0; metadata = 5 }
      ∷ record { rai = ring_and_index main 2; metadata = 32 * 256 + 7 }
      ∷ record { rai = ring_and_index main 1; metadata = 16 * 256 + 6 }
      ∷ []
unfolding drain next_back from_ring entry_from get prev_entry write_head read_u32 entry_of_raw
    is_file size is_last next_entry next_head
newest_first = refl
