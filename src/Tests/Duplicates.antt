-- ===== src/Tests/Duplicates.antt =====
-- Duplicate detection and the answers of a search on a small database.
use clipboard_history.Prelude.{
  ℕ, ◌+◌, ◌*◌, ◌<◌, ◌≡◌, ◌↔◌, refl, true, false, none, some, List, [], ◌∷◌, ◌++◌, Result, ok, err,
  length, replicate, take, ltb, arith, inr, All, Option,
}
use clipboard_history.Prelude.Files.{Bytes, read_u32, from_le_bytes, read_at}
use clipboard_history.Prelude.Vecs.{sort_by, insert_by, pop}
use clipboard_history.Core.Mimes.{codes}
use clipboard_history.Core.Protocol.{RingKind, main, composite_id, decompose_id}
use clipboard_history.Core.Buckets.{checked_ilog2, size_to_bucket}
use clipboard_history.Core.InitializedEntry.{is_file, size, index}
use clipboard_history.Core.Entry.{entry_of_raw}
use clipboard_history.Core.Views.{
  ring_and_index, pack, low_byte, ring_of, packed_index, id_of, from_id, bucket_and_index,
}
use clipboard_history.Core.Ring
use clipboard_history.Core.Ring.{Ring, write_head, prev_entry, next_entry, next_head}
use clipboard_history.Client.RingReader
use clipboard_history.Client.RingReader.{
  advance_front, from_uninit, next_dir, reset_to, ReaderEntry, DatabaseReader, get_raw, get_grown,
  entry_from, drain, next, from_ring, is_last,
}
use clipboard_history.Client.EntryReader.{
  EntryReader, to_slice, to_slice_raw, kind, bucket_entry_to_slice, grow_bucket_if_needed, remap,
}
use clipboard_history.Prelude.Results.{Ensures}
use clipboard_history.Cli.Stats
use clipboard_history.Cli.Stats.{Tally, stats}
use clipboard_history.Client.DuplicateDetector
use clipboard_history.Client.DuplicateDetector.{DetectError}
use clipboard_history.Cli.Stats.Totals.{Report, stats_totals_agree}
use clipboard_history.Client.DuplicateDetector.{raw_data}
use clipboard_history.Client.DuplicateDetector.Exact.{
  IsMapped, detect, duplicates, entries_of, texts_of, detect_exactly,
}
use clipboard_history.Client.Search.{QueryResult, SearchError, bucketed, io_failed}
use clipboard_history.Client.UiActor.{
  SearchCache, do_search, get_entries, ids_of, newest_of, ages_found, reverse_index_of, age,
  if_some, id_with_age, with_age, keep_all, keep_best, locate, lookup, index_entries,
}
use clipboard_history.Client.UiActor.Newest.{do_search_sorts, steps_back, ages_order_entries}

abbrev three : Ring
three = record {
  mem =
      0x4D ∷ 0x18 ∷ 0x32 ∷ 0 ∷ 3 ∷ 0 ∷ 0 ∷ 0 ∷ 5 ∷ 0 ∷ 0 ∷ 0 ∷ 5 ∷ 0x10 ∷ 0 ∷ 0 ∷ 5 ∷ 0x20 ∷ 0 ∷ 0
      ∷ [];
  len = 3;
  capacity = 4;
}

abbrev database : DatabaseReader
database = record { main = three; favorites = record three { len = 0 } }

abbrev reader : EntryReader
reader = record {
  buckets =
      []
      ∷ (codes "hello"
          ++ (0 ∷ 0 ∷ 0 ∷ codes "world" ++ (0 ∷ 0 ∷ 0 ∷ codes "hello" ++ (0 ∷ 0 ∷ 0 ∷ []))))
      ∷ replicate 9 [];
  mapped = 0 ∷ 24 ∷ replicate 9 0;
  direct = λ _. none;
}

abbrev entry_at : ℕ → ReaderEntry
entry_at i = record { rai = ring_and_index main i; metadata = i * 4096 + 5 }

abbrev pairs : List (ReaderEntry × Bytes)
pairs = (entry_at 0, codes "hello") ∷ (entry_at 1, codes "world") ∷ (entry_at 2, codes "hello") ∷ []

pairs-IsMapped : All (IsMapped length (λ len. len) database reader) pairs
unfolding to_slice to_slice_raw kind is_file size bucket_entry_to_slice grow_bucket_if_needed
    size_to_bucket checked_ilog2 index remap read_at raw_data id_of ring_of packed_index get_raw
    decompose_id entry_from Ring.get read_u32 entry_of_raw ring_and_index low_byte composite_id
pairs-IsMapped = (
  (refl, refl, refl, inr (omega arith)),
  ((refl, refl, refl, inr (omega arith)), ((refl, refl, refl, inr (omega arith)), tt)),
)

detect_exactly_example :
    detect length
      (λ len. len)
      database
      reader
      (entries_of length (λ len. len) database reader pairs)
      reader
      []
    ≡ ok (duplicates [] (texts_of length (λ len. len) database reader pairs))
detect_exactly_example = detect_exactly length (λ len. len) database reader pairs pairs-IsMapped

third_is_known :
    duplicates [] (codes "hello" ∷ codes "world" ∷ codes "hello" ∷ []) ≡ false ∷ false ∷ true ∷ []
third_is_known = refl

abbrev results : List (Result QueryResult SearchError)
results =
    ok (record { location = bucketed 1 0; start = 0; end_ = 1 })
    ∷ err io_failed
    ∷ ok (record { location = bucketed 1 2; start = 0; end_ = 1 })
    ∷ ok (record { location = bucketed 1 7; start = 0; end_ = 1 })
    ∷ []

abbrev cache : SearchCache
cache = record { write_heads = none; reverse_index = [] }

do_search_sorts_example :
    (do_search results database cache).0
    ≡ get_entries
        (ids_of (newest_of database) (
          take 256 (
            sort_by ltb (
              ages_found
                (newest_of database)
                (reverse_index_of database cache).reverse_index
                results))))
        database
do_search_sorts_example = do_search_sorts results database cache

newest_comes_first : (do_search results database cache).0.0 ≡ entry_at 2 ∷ entry_at 0 ∷ []
unfolding do_search get_entries keep_all ages_found locate lookup reverse_index_of index_entries
    drain next from_ring entry_from Ring.get next_entry prev_entry write_head read_u32 kind
    advance_front RingReader.from_id from_uninit get_grown get_raw is_last next_dir reset_to age
    id_with_age keep_best with_age checked_ilog2 size_to_bucket entry_of_raw index is_file size
    composite_id decompose_id Ring.is_empty next_head Ring.set_len bucket_and_index from_id low_byte
    pack packed_index ring_and_index ring_of from_le_bytes insert_by pop
newest_comes_first = refl

abbrev heads : RingKind → ℕ
heads ring_kind = 1

ages_order_entries_example :
    ((age 1 0 < age 1 2) ↔ (steps_back 3 1 0 < steps_back 3 1 2))
    × (if_some (id_with_age heads) (with_age heads (ring_and_index main 0))
        ≡ some (composite_id main 0))
ages_order_entries_example =
    ages_order_entries heads main 3 0 2 (omega arith) (omega arith) (omega arith) (omega arith)

stats_totals_agree_example :
    Ensures
      (λ (r : Tally × Tally).
        Report length (λ len. len) (λ content. 8) database reader 1 (codes "image/png") r.0 r.1)
      (stats length (λ len. len) (λ content. 8) database reader)
stats_totals_agree_example =
    stats_totals_agree length (λ len. len) (λ content. 8) database reader 1 (codes "image/png") refl
      (omega arith)

-- The entries in buckets of the main ring, the duplicates among them, the least size and the greatest.
abbrev main_counts : Result (Tally × Tally) DetectError → Option (ℕ × ℕ × ℕ × ℕ)
main_counts (ok (favs, mains)) = some (
  mains.ring.bucketed_entry_count, mains.ring.num_duplicates, mains.ring.min_entry_size,
  mains.ring.max_entry_size,
)
main_counts (err e) = none

three_are_counted :
    main_counts (stats length (λ len. len) (λ content. 8) database reader) ≡ some (3, 1, 5, 5)
unfolding stats Stats.count_entries Stats.count_entry Stats.count_kind Stats.count_bucketed
    Stats.count_size Stats.start_buckets DuplicateDetector.add_entry DuplicateDetector.hash_entry
    DuplicateDetector.is_known DuplicateDetector.any_same DuplicateDetector.entries_with to_slice
    to_slice_raw kind is_file size bucket_entry_to_slice grow_bucket_if_needed size_to_bucket
    checked_ilog2 index remap read_at raw_data id_of ring_of packed_index get_raw decompose_id
    entry_from Ring.get read_u32 entry_of_raw ring_and_index low_byte composite_id drain next
    from_ring next_entry prev_entry write_head advance_front RingReader.from_id from_uninit
    get_grown is_last next_dir reset_to Ring.is_empty next_head Ring.set_len bucket_and_index
    from_id pack from_le_bytes
three_are_counted = refl
