-- ===== src/Tests/FreeLists.antt =====
-- The free lists of a server that starts again.
use clipboard_history.Prelude.{
  ℕ, ◌≤◌, ◌<◌, ◌≡◌, ◌↔◌, refl, ap, [], ◌∷◌, get_or, arith, ltb, if◌then◌else◌,
}
use clipboard_history.Prelude.Files.{write_at, read_u32, to_le_bytes}
use clipboard_history.Core.InitializedEntry.{size, index, is_file, bucket}
use clipboard_history.Core.Entry.{raw_of_entry, entry_of_raw, bucketed}
use clipboard_history.Core.Buckets.{num_buckets, size_to_bucket}
use clipboard_history.Core.Ring
use clipboard_history.Server.RingWriter
use clipboard_history.Server.Slots.Accounts.{IsAccounted, owners, held, held_below}
use clipboard_history.Server.FreeLists.{
  allocations_of, unreadable, load, mark, mark_entry, mark_found, mark_ring, zeros,
}
use clipboard_history.Server.FreeLists.Rebuilt.{restarted, holders, known_slots, load_rebuilds}
use clipboard_history.Tests.Server.{empty_ring}
use clipboard_history.Tests.Move.{one_text, text_at, text_held}

one_text-single : (b i : ℕ) → b < num_buckets → holders b i one_text ≤ 1
unfolding held_below empty_ring RingWriter.write
one_text-single b i lt = ground (arith, ap (held b i) text_at, text_held b i)

load_rebuilds_example :
    ((b i : ℕ)
      → b < num_buckets
      → owners b i (restarted one_text) ≡ (if ltb i (known_slots b one_text) then 1 else 0))
    × (IsAccounted (restarted one_text)
        ↔ ((b : ℕ) → b < num_buckets → known_slots b one_text ≡ get_or one_text.slot_counts b 0))
load_rebuilds_example = load_rebuilds one_text refl one_text-single

-- A text in slot 2 of the second bucket: the two slots below it are free.
two_free :
    load unreadable
      (empty_ring 4)
      (RingWriter.write (bucketed (bucket 5 2)) 0 (record (empty_ring 4) { len = 1 }))
    ≡ [] ∷ (0 ∷ 1 ∷ []) ∷ [] ∷ [] ∷ [] ∷ [] ∷ [] ∷ [] ∷ [] ∷ [] ∷ [] ∷ []
unfolding load allocations_of mark_ring RingWriter.write mark_found Ring.get mark_entry entry_of_raw
    read_u32 write_at empty_ring to_le_bytes raw_of_entry bucket is_file size size_to_bucket zeros
    index mark
two_free = refl
