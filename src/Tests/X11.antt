-- ===== src/Tests/X11.antt =====
-- The watcher's decisions on small inputs.
use clipboard_history.Prelude.{
  ℕ, zero, suc, ◌<◌, ◌^◌, ◌≡◌, ◌⊎◌, ◌↔◌, refl, Bool, true, false, ◌&&◌, none, some, List, [], ◌∷◌,
  ok, err, Result, Option, length, leb, ◌==◌, if◌then◌else◌, arith, replicate,
}
use clipboard_history.Prelude.Files.{Bytes, read_u32, from_le_bytes, read_at}
use clipboard_history.Core.Mimes.{is_text_mime, codes}
use clipboard_history.Core.Protocol.{favorites, main, composite_id, decompose_id}
use clipboard_history.Core.Buckets.{checked_ilog2, size_to_bucket}
use clipboard_history.Core.FileName.{direct_file_name}
use clipboard_history.Core.InitializedEntry
use clipboard_history.Core.InitializedEntry.{is_file}
use clipboard_history.Core.Entry.{entry_of_raw}
use clipboard_history.Core.Views.{low_byte, pack, packed_index, ring_and_index, ring_of}
use clipboard_history.Core.Ring
use clipboard_history.Core.Ring.{Ring}
use clipboard_history.Client.RingReader
use clipboard_history.Core.Views
use clipboard_history.X11.Deduplication
use clipboard_history.Client.RingReader.{get_grown, get_raw, entry_from}
use clipboard_history.Client.EntryReader.{
  to_slice, to_slice_raw, bucket_entry_to_slice, grow_bucket_if_needed, kind, remap,
}
use clipboard_history.X11.BestTarget.{
  has_semicolon, update, starts_lowercase, starts_with, target_of, add_mime, best_atom,
  default_finder, best,
}
use clipboard_history.X11.BestTarget.Choice.{offer_all, choice, labelled, best-choice}
use clipboard_history.X11.Deduplication.{
  ArrayMap, CopyDeduplication, default_map, hash_to_index, fold_hash, get, remember, check,
  check_ring, new,
}
use clipboard_history.X11.Deduplication.Table.{get-remember}
use clipboard_history.X11.Deduplication.Check.{IsDuplicate, check_iff}

abbrev is_lowercase : ℕ → Bool
is_lowercase c = leb b'a' c && leb c b'z'

abbrev name : ℕ → Bytes
name zero = codes "image/png"
name (suc zero) = codes "text/plain;charset=utf-8"
name (suc (suc zero)) = codes "text/plain"
name _ = codes "TARGETS"

abbrev offered : List ℕ
offered = 3 ∷ 0 ∷ 1 ∷ 2 ∷ []

best-choice_example :
    best (offer_all is_lowercase name false offered (record default_finder { block_text = false }))
    ≡ labelled is_lowercase name false (choice is_lowercase name false offered)
best-choice_example = best-choice is_lowercase name false offered

plain_wins :
    best (offer_all is_lowercase name false offered (record default_finder { block_text = false }))
    ≡ some (2, codes "text/plain")
unfolding best best_atom add_mime target_of is_text_mime starts_with starts_lowercase update
    has_semicolon
plain_wins = refl

image_wins_when_blocked :
    best (offer_all is_lowercase name true offered (record default_finder { block_text = true }))
    ≡ some (0, codes "image/png")
unfolding best best_atom add_mime target_of is_text_mime starts_with starts_lowercase update
image_wins_when_blocked = refl

abbrev table : ArrayMap
table = default_map 4

get-remember_example :
    (get (remember 1000 7 table) 1000
      ≡ (if hash_to_index 4 1000 == hash_to_index 4 1000 then some 7 else get table 1000))
    × (length (remember 1000 7 table).ids ≡ 2 ^ 4)
    × (hash_to_index 4 1000 < length table.ids)
    × (fold_hash 4 64 1000 0 ≡ hash_to_index 4 1000)
get-remember_example =
    get-remember table 3 1000 7 1000 64 refl refl (omega arith) (omega arith) (omega arith)

-- A main ring with the text of five bytes in the first slot of bucket 1.
abbrev one_text : Ring
one_text = record {
  mem = 0x4D ∷ 0x18 ∷ 0x32 ∷ 0 ∷ 1 ∷ 0 ∷ 0 ∷ 0 ∷ 5 ∷ 0 ∷ 0 ∷ 0 ∷ [];
  len = 1;
  capacity = 3;
}

abbrev watcher : CopyDeduplication
watcher = record {
  main_map = remember 1000 0 table;
  favorites_map = table;
  database = record { main = one_text; favorites = record one_text { len = 0 } };
  reader = record {
    buckets = [] ∷ codes "hello" ∷ replicate 9 [];
    mapped = replicate 11 0;
    direct = λ _. none;
  };
}

abbrev hello_id : ℕ
hello_id = 2 ^ 32

check_iff_example : ((check 1000 (codes "hello") watcher).0 ≡ ok (some hello_id)) ↔ (
    IsDuplicate 1000 (codes "hello") watcher hello_id favorites
    ⊎ (((check_ring favorites 1000 (codes "hello") watcher).0 ≡ ok none)
        × IsDuplicate 1000
            (codes "hello")
            (check_ring favorites 1000 (codes "hello") watcher).1
            hello_id
            main))
check_iff_example = check_iff 1000 (codes "hello") watcher hello_id

hello_is_known : (check 1000 (codes "hello") watcher).0 ≡ ok (some hello_id)
unfolding check check_ring get hash_to_index fold_hash remember get_grown decompose_id composite_id
    entry_from Ring.get entry_of_raw read_u32 is_file InitializedEntry.size to_slice to_slice_raw
    bucket_entry_to_slice grow_bucket_if_needed kind remap get_raw checked_ilog2 size_to_bucket
    direct_file_name InitializedEntry.index Ring.set_len low_byte pack packed_index ring_and_index
    ring_of from_le_bytes read_at
hello_is_known = refl

other_is_new : (check 1000 (codes "hallo") watcher).0 ≡ ok none
unfolding check check_ring get hash_to_index fold_hash remember get_grown decompose_id composite_id
    entry_from Ring.get entry_of_raw read_u32 is_file InitializedEntry.size to_slice to_slice_raw
    bucket_entry_to_slice grow_bucket_if_needed kind remap get_raw checked_ilog2 size_to_bucket
    direct_file_name InitializedEntry.index Ring.set_len low_byte pack packed_index ring_and_index
    ring_of from_le_bytes read_at
other_is_new = refl

abbrev known_to : ℕ → Result CopyDeduplication (Unit {0}) → Option ℕ
known_to hash (ok s) = get s.main_map hash
known_to hash (err e) = none

loaded_at_start : known_to 5 (new length (λ len. len) watcher.database watcher.reader) ≡ some 0
unfolding new Deduplication.load Deduplication.load_entries RingReader.drain RingReader.next
    RingReader.reset_to entry_from Ring.get Ring.next_entry Ring.prev_entry Deduplication.load_start
    Ring.write_head read_u32 RingReader.is_last entry_of_raw is_file InitializedEntry.size
    bucket_entry_to_slice grow_bucket_if_needed kind remap to_slice to_slice_raw
    RingReader.advance_front RingReader.from_id RingReader.from_ring RingReader.from_uninit
    RingReader.next_dir checked_ilog2 size_to_bucket direct_file_name InitializedEntry.index
    composite_id decompose_id Ring.is_empty Ring.next_head Views.id_of low_byte pack packed_index
    ring_and_index ring_of from_le_bytes read_at fold_hash Deduplication.hash_data hash_to_index
    remember Deduplication.remember_copy get
loaded_at_start = refl
