-- ===== src/System/AddThenRead.antt =====
-- What a client reads of an entry that the server has added: server/src/allocator.rs and
-- client-sdk/src/ring_reader.rs over the same rings and bucket files.
use clipboard_history.Prelude.{
  ℕ, ◌<◌, ◌≤◌, ◌≡◌, ◌^◌, refl, ◌∙◌, ap, true, false, some, List, [], ok, length, get_or, arith,
}
use clipboard_history.Prelude.Files.{Bytes}
use clipboard_history.Core.Protocol.{RingKind, favorites, main, composite_id}
use clipboard_history.Core.Protocol.Ids.{decompose_id-composite_id}
use clipboard_history.Core.InitializedEntry
use clipboard_history.Core.InitializedEntry.{InitializedEntry, max_entries, is_file}
use clipboard_history.Core.Entry.{bucketed}
use clipboard_history.Core.Buckets.{num_buckets, size_to_bucket}
use clipboard_history.Core.Mimes.{is_text_mime}
use clipboard_history.Core.Views.{ring_and_index}
use clipboard_history.Core.Ring
use clipboard_history.Core.Ring.{Ring}
use clipboard_history.Server.RingWriter.Laws.{get-eq-some}
use clipboard_history.Server.Store.{Allocator, ring_at}
use clipboard_history.Server.Store.Laws.{entry_of, same_kind_self}
use clipboard_history.Server.Slots.Accounts.{IsAccounted}
use clipboard_history.Server.Gc.Layers.{wasted_bytes}
use clipboard_history.Server.Allocator.{add}
use clipboard_history.Server.Allocator.Room.{HasFiles, after_room}
use clipboard_history.Server.Allocator.Placed.{IsPositioned}
use clipboard_history.Server.Allocator.Add.{add-Added}
use clipboard_history.Client.RingReader.{ReaderEntry, DatabaseReader, ring_for, entry_from, get_raw}
use clipboard_history.Client.EntryReader.{EntryReader, to_slice}
use clipboard_history.Client.EntryReader.Loading.{to_slice-slot_bytes}

-- A client's readers of the server's database, with its own mappings of the bucket files.
abbrev pub database_of : Allocator → DatabaseReader
database_of s = record { main = s.main_ring; favorites = s.favorites_ring }

abbrev pub reader_of : List ℕ → Allocator → EntryReader
reader_of mapped s = record { buckets = s.files; mapped = mapped; direct = s.direct_dir }

entry_from-bucketed :
    (r : Ring) (k : RingKind) (i : ℕ) (w : InitializedEntry)
    → Ring.get r i ≡ some (bucketed w)
    → entry_from r k i ≡ some (record { rai = ring_and_index k i; metadata = w })
unfolding entry_from
entry_from-bucketed r k i w h = ground arith

ring_for-ring_at : (k : RingKind) (s : Allocator) → ring_for (database_of s) k ≡ ring_at k s
ring_for-ring_at favorites s = refl
ring_for-ring_at main s = refl

get_raw-bucketed :
    (k : RingKind) (i : ℕ) (w : InitializedEntry) (s : Allocator)
    → i < 2 ^ 32
    → entry_of s k i ≡ some (bucketed w)
    → get_raw (database_of s) (composite_id k i)
      ≡ ok (record { rai = ring_and_index k i; metadata = w })
unfolding get_raw
get_raw-bucketed k i w s lt h =
    let found : entry_from (ring_for (database_of s) k) k i
        ≡ some (record { rai = ring_and_index k i; metadata = w }) =
      ap (λ r. entry_from r k i) (ring_for-ring_at k s)
      ∙ entry_from-bucketed (ring_at k s) k i w h in
    ground (arith, decompose_id-composite_id k i lt, found)

slotted : (w : InitializedEntry) → 0 < InitializedEntry.size w → is_file w ≡ false
unfolding is_file
slotted w h = ground arith

-- A text that the server has added, as in `add-Added`, is what a client loads: looking the replied
-- identifier up finds an entry, and `to_slice` of it gives the bytes of the text, whatever part of
-- the bucket files the client has mapped.
pub add_then_read :
    (bytes mime : Bytes) (to : RingKind) (s : Allocator) (mapped : List ℕ)
    → s.faults ≡ []
    → is_text_mime mime ≡ true
    → 0 < length bytes
    → length bytes < 4096
    → IsAccounted s
    → length s.files ≡ num_buckets
    → HasFiles s
    → IsPositioned (ring_at to s)
    → wasted_bytes
        (after_room
          (entry_of s to (Ring.write_head (ring_at to s)))
          to
          (Ring.write_head (ring_at to s))
          s).free_lists
      ≤ 0xffff
    → get_or s.slot_counts (size_to_bucket (length bytes)) 0 < max_entries
    → length mapped ≡ num_buckets
    → (id : ℕ) × (s' : Allocator) × (entry : ReaderEntry) × (add bytes to mime s ≡ (ok id, s'))
      × (get_raw (database_of s') id ≡ ok entry)
      × ((to_slice entry (reader_of mapped s')).0 ≡ ok (some bytes))
add_then_read bytes mime to s mapped calm text pos small accounted whole files position idle bound
      maps =
    let head = Ring.write_head (ring_at to s) in
    let (w, s', run, added) =
      add-Added bytes mime to s calm text pos small accounted whole files position idle bound in
    let here : entry_of s' to head ≡ some (bucketed w) =
      ground (arith, added.entries to head, same_kind_self to) in
    let (_, _, proper) = get-eq-some (ring_at to s') head (bucketed w) here in
    let entry : ReaderEntry = record { rai = ring_and_index to head; metadata = w } in
    (
      composite_id to head,
      s',
      entry,
      run,
      get_raw-bucketed to head w s' (omega (arith, position.inside, position.room)) here,
      to_slice-slot_bytes entry (reader_of mapped s') (slotted w proper.0) proper.0 maps
          ∙ ap (λ x. ok (some x)) added.stored,
    )
