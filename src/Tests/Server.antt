-- ===== src/Tests/Server.antt =====
-- The server's allocator on small databases.
use clipboard_history.Prelude.{
  ℕ, zero, suc, ◌<◌, ◌≡◌, refl, ap, ◌∙◌, [], none, some, ok, inl, replicate, get_or, arith, ltb,
  ◌==◌, if◌then◌else◌,
}
use clipboard_history.Prelude.Files.{write_at, read_u32, to_le_bytes}
use clipboard_history.Prelude.Lists.{count}
use clipboard_history.Core.Protocol.{decompose_id, favorites, main, composite_id}
use clipboard_history.Core.InitializedEntry.{size, is_file, InitializedEntry, bucket}
use clipboard_history.Core.Entry.{raw_of_entry, entry_of_raw, uninitialized, bucketed, file}
use clipboard_history.Core.Buckets.{num_buckets, size_to_bucket}
use clipboard_history.Core.Entry.Words.{IsEntry-bucket}
use clipboard_history.Core.FileName.{direct_file_name}
use clipboard_history.Core.Mimes.{codes, is_text_mime}
use clipboard_history.Core.Ring
use clipboard_history.Core.Ring.{Ring}
use clipboard_history.Server.RingWriter
use clipboard_history.Server.RingWriter.{header_bytes}
use clipboard_history.Server.RingWriter.Laws.{slot_entry, get-write}
use clipboard_history.Server.Store.{Allocator, DirectFile, link}
use clipboard_history.Server.Slots.{alloc_bucket}
use clipboard_history.Server.Slots.Accounts.{IsAccounted, owners, held, held_below}
use clipboard_history.Server.Slots.AllocBucket.{Allocated, alloc_bucket-Allocated}
use clipboard_history.Server.Gc.Layers.{wasted_bytes}
use clipboard_history.Server.Allocator.{add, remove, swap, swap_response, get_entry}
use clipboard_history.Server.Allocator.Swap.{Exchanged, swap_exchanges}
use clipboard_history.Server.Allocator.Remove.{Removed, remove_empties}
use clipboard_history.Server.Allocator.Room.{HasFiles}
use clipboard_history.Server.Allocator.Placed.{IsPositioned}
use clipboard_history.Server.Allocator.Add.{Added, add-Added}
use clipboard_history.Client.RingReader.{ReaderEntry, get_raw}
use clipboard_history.Client.EntryReader.{to_slice}
use clipboard_history.System.AddThenRead.{database_of, reader_of, add_then_read}

unfoldable pub empty_ring : ℕ → Ring
unfolding header_bytes
empty_ring cap = record { mem = header_bytes; len = 0; capacity = cap }

abbrev pub start : Allocator
start = record {
  favorites_ring = empty_ring 4;
  main_ring = empty_ring 4;
  files = replicate 11 [];
  slot_counts = replicate 11 0;
  free_lists = replicate 11 [];
  direct_dir = λ _. none;
  faults = [];
}

pub get_or-replicate {ℓ} : {A : Type ℓ} (n : ℕ) (x : A) (i : ℕ) → get_or (replicate n x) i x ≡ x
get_or-replicate zero x i = refl
get_or-replicate (suc n) x zero = refl
get_or-replicate (suc n) x (suc i) = get_or-replicate n x i

start-accounts :
    (b i : ℕ)
    → b < num_buckets
    → owners b i start ≡ (if ltb i (get_or start.slot_counts b 0) then 1 else 0)
unfolding owners held_below empty_ring
start-accounts b i lt =
    let empty : count i (get_or (replicate 11 []) b []) ≡ 0 =
      ap (count i) (get_or-replicate 11 [] b) ∙ unfold count in refl in
    let zero_slots : ◌≡◌ {A = ℕ} (get_or (replicate 11 0) b 0) 0 = get_or-replicate 11 0 b in
    let favorites_held : held_below b i start.favorites_ring start.favorites_ring.len ≡ 0 = refl in
    let main_held : held_below b i start.main_ring start.main_ring.len ≡ 0 = refl in
    ground (arith, empty, zero_slots, favorites_held, main_held)

start-IsAccounted : IsAccounted start
start-IsAccounted = record { accounts = start-accounts; lists = refl; counts = refl }

start-HasFiles : HasFiles start
unfolding Ring.get empty_ring
start-HasFiles favorites i e h = absurd (ground arith)
start-HasFiles main i e h = absurd (ground arith)

start-IsPositioned : IsPositioned start.main_ring
unfolding Ring.write_head empty_ring read_u32 to_le_bytes
start-IsPositioned = record { room = omega arith; inside = omega arith; tail = inl refl }

alloc_bucket-Allocated_example :
    (w : InitializedEntry) × (s' : Allocator) × (alloc_bucket (codes "hello") start
      ≡ (ok (bucketed w), s'))
    × Allocated (codes "hello") start w s'
unfolding Ring.write_head size_to_bucket
alloc_bucket-Allocated_example =
    alloc_bucket-Allocated (codes "hello") start (omega arith) (omega arith) refl start-IsAccounted
      refl (omega arith)

add-Added_example :
    (w : InitializedEntry) × (s' : Allocator) × (add (codes "hello") main (codes "text/plain") start
      ≡ (ok (composite_id main 0), s'))
    × Added (codes "hello") main start w s'
unfolding is_text_mime wasted_bytes Ring.get empty_ring Ring.write_head read_u32 to_le_bytes
    size_to_bucket
add-Added_example =
    add-Added (codes "hello") (codes "text/plain") main start refl refl (omega arith) (omega arith)
      start-IsAccounted refl start-HasFiles start-IsPositioned (omega arith) (omega arith)

add_then_read_example :
    (id : ℕ) × (s' : Allocator) × (entry : ReaderEntry) × (add
        (codes "hello")
        main
        (codes "text/plain")
        start
      ≡ (ok id, s'))
    × (get_raw (database_of s') id ≡ ok entry)
    × ((to_slice entry (reader_of (replicate 11 0) s')).0 ≡ ok (some (codes "hello")))
unfolding is_text_mime wasted_bytes Ring.get empty_ring Ring.write_head read_u32 to_le_bytes
    size_to_bucket
add_then_read_example =
    add_then_read (codes "hello") (codes "text/plain") main start (replicate 11 0) refl refl
      (omega arith) (omega arith) start-IsAccounted refl start-HasFiles start-IsPositioned
      (omega arith) (omega arith) refl

abbrev picture : DirectFile
picture = record { content = codes "a picture"; mime = codes "image/png" }

-- A database of one direct file, in the first entry of a ring of two.
abbrev one_file : Allocator
one_file = record start {
  main_ring = RingWriter.write file 0 (record (empty_ring 4) { len = 2 });
  direct_dir = link (direct_file_name main 0) (some picture) (λ _. none);
}

one_file-accounts :
    (b i : ℕ)
    → b < num_buckets
    → owners b i one_file ≡ (if ltb i (get_or one_file.slot_counts b 0) then 1 else 0)
unfolding owners held_below held RingWriter.write empty_ring slot_entry entry_of_raw read_u32
    write_at to_le_bytes raw_of_entry is_file size
one_file-accounts b i lt =
    let empty : count i (get_or (replicate 11 []) b []) ≡ 0 =
      ap (count i) (get_or-replicate 11 [] b) ∙ unfold count in refl in
    let zero_slots : ◌≡◌ {A = ℕ} (get_or (replicate 11 0) b 0) 0 = get_or-replicate 11 0 b in
    let favorites_held : held_below b i one_file.favorites_ring one_file.favorites_ring.len ≡ 0 =
      refl in
    let main_held : held_below b i one_file.main_ring one_file.main_ring.len ≡ 0 = refl in
    ground (arith, empty, zero_slots, favorites_held, main_held)

one_file-IsAccounted : IsAccounted one_file
one_file-IsAccounted = record { accounts = one_file-accounts; lists = refl; counts = refl }

found : get_entry (composite_id main 0) one_file ≡ ok (main, 0, file)
unfolding get_entry composite_id Ring.get RingWriter.write empty_ring decompose_id entry_of_raw
    read_u32 write_at to_le_bytes raw_of_entry is_file size
found = refl

unused : get_entry (composite_id main 1) one_file ≡ ok (main, 1, uninitialized)
unfolding get_entry composite_id Ring.get RingWriter.write empty_ring decompose_id entry_of_raw
    read_u32 write_at to_le_bytes
unused = refl

linked : one_file.direct_dir (direct_file_name main 0) ≡ some picture
unfolding direct_file_name composite_id
linked = refl

swap_exchanges_example :
    (s' : Allocator) × (swap (composite_id main 0) (composite_id main 1) one_file
      ≡ (ok (swap_response none none), s'))
    × Exchanged one_file s' main 0 file main 1 uninitialized
swap_exchanges_example =
    swap_exchanges (composite_id main 0) (composite_id main 1) one_file main main 0 1 file
      uninitialized refl found unused (inl (λ e. cc)) (picture, linked) tt one_file-IsAccounted

remove_empties_example :
    (s' : Allocator) × (remove (composite_id main 0) one_file ≡ (ok none, s'))
    × Removed one_file s' main 0 file
remove_empties_example =
    remove_empties (composite_id main 0) one_file main 0 file refl found (λ e. cc) (picture, linked)
      one_file-IsAccounted

get-write_example : Ring.get (RingWriter.write (bucketed (bucket 5 3)) 1 one_file.main_ring) 1 ≡ (
    if 1 == 1
    then (if ltb 1 2 then some (bucketed (bucket 5 3)) else none)
    else Ring.get one_file.main_ring 1)
unfolding RingWriter.write
get-write_example =
    get-write (bucketed (bucket 5 3)) 1 one_file.main_ring 1
      (IsEntry-bucket 5 3 (omega arith) (omega arith) (omega arith))
