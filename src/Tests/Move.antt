-- ===== src/Tests/Move.antt =====
-- `move_to_front` on databases of one entry in a bucket slot.
use clipboard_history.Prelude.{
  ◌&&◌, zero, suc, ℕ, ◌<◌, ◌≡◌, refl, ap, ◌∙◌, [], some, ok, inl, replicate, get_or, get_or-set,
  set, arith, ltb, ◌==◌, if◌then◌else◌,
}
use clipboard_history.Prelude.Files.{write_at, read_u32, to_le_bytes}
use clipboard_history.Prelude.Lists.{count}
use clipboard_history.Core.Protocol.{RingKind, decompose_id, favorites, main, composite_id}
use clipboard_history.Core.InitializedEntry.{size, index, is_file, bucket}
use clipboard_history.Core.Entry.{raw_of_entry, entry_of_raw, uninitialized, bucketed, file}
use clipboard_history.Core.Buckets.{num_buckets, size_to_bucket}
use clipboard_history.Core.Ring
use clipboard_history.Core.Ring.{Ring}
use clipboard_history.Server.RingWriter
use clipboard_history.Server.RingWriter.Laws.{slot_entry, get-eq-some}
use clipboard_history.Server.Store.{Allocator}
use clipboard_history.Server.Store.Laws.{entry_of}
use clipboard_history.Server.Slots.Accounts.{IsAccounted, owners, held, held_below}
use clipboard_history.Server.Gc.Layers.{wasted_bytes}
use clipboard_history.Server.Allocator.{get_entry, move_to_front}
use clipboard_history.Server.Allocator.Room.{HasFiles}
use clipboard_history.Server.Allocator.Placed.{IsPositioned}
use clipboard_history.Server.Allocator.Move.{Moved, move_to_front-Moved}
use clipboard_history.Tests.Server.{empty_ring, start, get_or-replicate}

-- A text of five bytes in slot 0 of the second bucket file, the first entry of the main ring.
abbrev pub one_text : Allocator
one_text = record start {
  main_ring = RingWriter.write (bucketed (bucket 5 0)) 0 (record (empty_ring 4) { len = 1 });
  slot_counts = set (replicate 11 0) 1 1;
}

pub text_at : slot_entry one_text.main_ring 0 ≡ bucketed (bucket 5 0)
unfolding RingWriter.write empty_ring slot_entry entry_of_raw read_u32 write_at to_le_bytes
    raw_of_entry is_file size bucket
text_at = refl

pub text_held : (b i : ℕ) → held b i (bucketed (bucket 5 0)) ≡ (if 1 == b && 0 == i then 1 else 0)
unfolding held size_to_bucket size index bucket
text_held b i = refl

text_found : get_entry (composite_id main 0) one_text ≡ ok (main, 0, bucketed (bucket 5 0))
unfolding get_entry composite_id Ring.get RingWriter.write empty_ring decompose_id entry_of_raw
    read_u32 write_at to_le_bytes raw_of_entry is_file size bucket
text_found = refl

one_text-accounts :
    (b i : ℕ)
    → b < num_buckets
    → owners b i one_text ≡ (if ltb i (get_or one_text.slot_counts b 0) then 1 else 0)
unfolding owners held_below empty_ring RingWriter.write
one_text-accounts b i lt =
    let empty : count i (get_or (replicate 11 []) b []) ≡ 0 =
      ap (count i) (get_or-replicate 11 [] b) ∙ unfold count in refl in
    let one_slot : ◌≡◌ {A = ℕ} (get_or (set (replicate 11 0) 1 1) b 0)
        (if 1 == b then 1 else get_or (replicate 11 0) b 0) =
      get_or-set (replicate 11 0) 1 1 b 0 (omega arith) in
    let zero_slots : ◌≡◌ {A = ℕ} (get_or (replicate 11 0) b 0) 0 = get_or-replicate 11 0 b in
    let favorites_held : held_below b i one_text.favorites_ring one_text.favorites_ring.len ≡ 0 =
      refl in
    let here : held b i (slot_entry one_text.main_ring 0) ≡ (if 1 == b && 0 == i then 1 else 0) =
      ap (held b i) text_at ∙ text_held b i in
    ground (arith, empty, one_slot, zero_slots, favorites_held, here)

one_text-IsAccounted : IsAccounted one_text
one_text-IsAccounted = record { accounts = one_text-accounts; lists = refl; counts = refl }

not_file : (l : RingKind) (i : ℕ) → entry_of one_text l i ≡ some file → ⊥
unfolding empty_ring RingWriter.write
not_file favorites i h =
    let (lt, _, _) = get-eq-some one_text.favorites_ring i file h in absurd (omega (arith, lt))
not_file main zero h =
    let (_, here, _) = get-eq-some one_text.main_ring 0 file h in
    absurd (ground (arith, here, text_at))
not_file main (suc i) h =
    let (lt, _, _) = get-eq-some one_text.main_ring (suc i) file h in absurd (omega (arith, lt))

one_text-HasFiles : HasFiles one_text
one_text-HasFiles l i uninitialized h = tt
one_text-HasFiles l i (bucketed e) h = tt
one_text-HasFiles l i file h = absurd (not_file l i h)

favorites-IsPositioned : IsPositioned one_text.favorites_ring
unfolding Ring.write_head empty_ring read_u32 to_le_bytes
favorites-IsPositioned = record { room = omega arith; inside = omega arith; tail = inl refl }

move_to_front-Moved_example :
    (s' : Allocator) × (move_to_front (composite_id main 0) (some favorites) one_text
      ≡ (ok (ok (composite_id favorites 0)), s'))
    × Moved main 0 favorites one_text (bucket 5 0) s'
unfolding wasted_bytes Ring.get empty_ring Ring.write_head read_u32 to_le_bytes
move_to_front-Moved_example =
    move_to_front-Moved (composite_id main 0) (some favorites) one_text main 0 (bucket 5 0) refl
      text_found refl one_text-IsAccounted refl one_text-HasFiles favorites-IsPositioned
      (omega arith)

-- The same with the write head behind the entry.
abbrev newest_text : Allocator
newest_text = record one_text { main_ring = RingWriter.set_write_head 1 one_text.main_ring }

newest_found : get_entry (composite_id main 0) newest_text ≡ ok (main, 0, bucketed (bucket 5 0))
unfolding get_entry composite_id Ring.get RingWriter.write RingWriter.set_write_head empty_ring
    decompose_id entry_of_raw read_u32 write_at to_le_bytes raw_of_entry is_file size bucket
newest_found = refl
