-- ===== src/Tests/Gc.antt =====
-- The garbage collector on a small bucket.
use clipboard_history.Prelude.{◌≡◌, refl, [], ◌∷◌, none, replicate, get_or, ◌++◌}
use clipboard_history.Prelude.Files.{Bytes}
use clipboard_history.Core.Mimes.{codes}
use clipboard_history.Core.Ring.{Ring}
use clipboard_history.Server.Store.{Allocator}
use clipboard_history.Server.Gc.Layers
use clipboard_history.Server.Gc.Swaps
use clipboard_history.Core.Ring
use clipboard_history.Core.Entry
use clipboard_history.Prelude.Files
use clipboard_history.Core.InitializedEntry
use clipboard_history.Core.Buckets
use clipboard_history.Core.Views
use clipboard_history.Prelude.Vecs
use clipboard_history.Server.RingWriter
use clipboard_history.Server.Store
use clipboard_history.Server.Gc

-- A ring whose one entry is the slot 1 of bucket 0, with two bytes.
abbrev one_entry : Ring
one_entry = record {
  mem = 0x4D ∷ 0x18 ∷ 0x32 ∷ 0 ∷ 1 ∷ 0 ∷ 0 ∷ 0 ∷ 2 ∷ 16 ∷ 0 ∷ 0 ∷ [];
  len = 1;
  capacity = 4;
}

-- The slots 0 and 3 are free, and no ring has slot 2.
abbrev moving : Allocator
moving = record {
  favorites_ring = record one_entry { len = 0 };
  main_ring = one_entry;
  files = codes "free" ∷ replicate 10 [];
  slot_counts = 4 ∷ replicate 10 0;
  free_lists = (3 ∷ 0 ∷ []) ∷ replicate 10 [];
  direct_dir = λ _. none;
  faults = [];
}

abbrev filled_file : Bytes
filled_file = codes "free" ++ codes "ab!!" ++ codes "move" ++ codes "free"

-- A slot that no ring and no free list has, as in the middle of `move_to_front`, is cut off.
slot_in_transit_is_lost :
    get_or (Gc.gc 0 (record moving { files = filled_file ∷ replicate 10 [] })).1.files 0 []
    ≡ codes "ab!e" ++ codes "ab!!"
unfolding Gc.gc Layers.wasted_bytes Swaps.swappable_allocations Ring.get Entry.entry_of_raw
    Files.read_u32 InitializedEntry.is_file InitializedEntry.size InitializedEntry.index
    Buckets.size_to_bucket Swaps.descending Swaps.swap_loop Layers.layers_to_remove
    Layers.lowered_limit Views.ring_of Views.ring_and_index Views.packed_index Buckets.checked_ilog2
    Entry.raw_of_entry InitializedEntry.bucket Views.low_byte Views.pack Files.from_le_bytes
    Files.to_le_bytes Files.write_at Vecs.last Vecs.pop Vecs.sort_by
    Layers.bytes_in_remaining_layers Layers.counts_from Layers.free_slot_counts Layers.layers_loop
    Layers.wasted_from Swaps.heap_push Swaps.last_swappable Swaps.lowest_free Swaps.move_slot
    Swaps.offer Swaps.swap RingWriter.write Store.syscall Store.write
slot_in_transit_is_lost = refl
