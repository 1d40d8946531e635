-- ===== src/Client/UiActor.antt =====
-- client-sdk/src/ui_actor.rs: the first page of entries, and the entries that a search is answered with.
-- What is shown of an entry is not modelled. A `HashMap` is the list of its insertions, the latest
-- first, and a `BinaryHeap` the list of its items in ascending order, the maximum last.
pub mod Heap
pub mod Newest
use clipboard_history.Prelude.{
  ℕ, ◌+◌, ◌-◌, ◌*◌, ◌%◌, ◌^◌, bit_and, Bool, true, false, Option, none, some, List, [], ◌∷◌, ◌++◌,
  Result, ok, err, length, ltb, ◌==◌, ◌&&◌, if◌then◌else◌,
}
use clipboard_history.Prelude.Bits.{mask}
use clipboard_history.Prelude.Vecs.{pop, insert_by}
use clipboard_history.Core.Protocol.{RingKind, favorites, main, composite_id}
use clipboard_history.Core.Buckets.{size_to_bucket}
use clipboard_history.Core.InitializedEntry
use clipboard_history.Core.Ring.{Ring, write_head, prev_entry}
use clipboard_history.Core.Views.{
  RingAndIndex, BucketAndIndex, ring_and_index, bucket_and_index, ring_of, packed_index, from_id,
  id_of,
}
use clipboard_history.Client.RingReader.{
  ReaderEntry, RingIter, from_ring, next, next_back, drain, DatabaseReader, get_grown,
}
use clipboard_history.Client.EntryReader.{Kind, bucket, file, kind}
use clipboard_history.Client.Search.{EntryLocation, bucketed, in_file, QueryResult, SearchError}

-- The closure `shitty_refresh`
unfoldable pub refresh : Ring → Ring
refresh ring =
    let head = write_head ring in
    if ltb head ring.len
    then record ring { len = ring.capacity }
    else if ltb ring.len head
    then record ring { len = head }
    else ring

abbrev pub refreshed : DatabaseReader → DatabaseReader
refreshed db = record { main = refresh db.main; favorites = refresh db.favorites }

-- An iterator reads no index twice, so `len` rounds reach its end.
abbrev pub newest_first : ℕ → Ring → RingKind → List ReaderEntry
newest_first n ring ring_kind = drain n (next_back ring) (from_ring ring ring_kind)

abbrev pub oldest_first : Ring → RingKind → List ReaderEntry
oldest_first ring ring_kind = drain (ring.len + 1) (next ring) (from_ring ring ring_kind)

-- The second newest entry of the main ring, or the newest, or that of the favorites.
abbrev pub default_focused : List ReaderEntry → List ReaderEntry → Option ℕ
default_focused (first ∷ second ∷ rest) favs = id_of second.rai
default_focused (first ∷ []) favs = id_of first.rai
default_focused [] (fav ∷ rest) = id_of fav.rai
default_focused [] [] = none

-- `Command::LoadFirstPage`: the entries and `default_focused_id`.
unfoldable pub load_first_page : DatabaseReader → (List ReaderEntry × Option ℕ) × DatabaseReader
load_first_page db =
    let db' = refreshed db in
    (
      (
        newest_first (db'.favorites.len + 1) db'.favorites favorites
            ++ newest_first 100 db'.main main,
        default_focused (newest_first 2 db'.main main) (newest_first 1 db'.favorites favorites),
      ),
      db',
    )

abbrev pub max_search_entries : ℕ
max_search_entries = 256

-- `cached_write_heads` and `reverse_index_cache`
pub record SearchCache : Type 0 where
  pub write_heads : Option (ℕ × ℕ)
  pub reverse_index : List (BucketAndIndex × RingAndIndex)

unfoldable pub lookup : BucketAndIndex → List (BucketAndIndex × RingAndIndex) → Option RingAndIndex
lookup key [] = none
lookup key ((k, value) ∷ rest) =
    let later = lookup key rest in if k == key then some value else later

unfoldable pub index_entries :
    List ReaderEntry → List (BucketAndIndex × RingAndIndex) → List (BucketAndIndex × RingAndIndex)
index_entries [] cache = cache
index_entries (entry ∷ entries) cache = index_entries entries (elim (kind entry) [
  | file ↦ cache
  | bucket e ↦
      (
        bucket_and_index (size_to_bucket (InitializedEntry.size e)) (InitializedEntry.index e),
        entry.rai,
      )
      ∷ cache
])

abbrev pub same_heads : Option (ℕ × ℕ) → ℕ → ℕ → Bool
same_heads none f m = false
same_heads (some (f', m')) f m = f' == f && m' == m

abbrev pub build_if_empty :
    DatabaseReader → List (BucketAndIndex × RingAndIndex) → List (BucketAndIndex × RingAndIndex)
build_if_empty db [] =
    index_entries (oldest_first db.favorites favorites ++ oldest_first db.main main) []
build_if_empty db (entry ∷ cache) = entry ∷ cache

-- The entry of each slot; `cached_write_heads` is never set.
unfoldable pub reverse_index_of : DatabaseReader → SearchCache → SearchCache
reverse_index_of db cache = record cache {
  reverse_index = build_if_empty db (
      if same_heads cache.write_heads (write_head db.favorites) (write_head db.main)
      then cache.reverse_index
      else []);
}

-- The entry of a result; what is not found is left out.
unfoldable pub locate : List (BucketAndIndex × RingAndIndex) → EntryLocation → Option RingAndIndex
locate cache (bucketed b index) = lookup (bucket_and_index b index) cache
locate cache (in_file entry_id) = elim (from_id entry_id) [ err e ↦ none | ok rai ↦ some rai ]

-- `write_heads`: the newest index of each ring.
abbrev pub newest : Ring → ℕ
newest ring = prev_entry ring (write_head ring)

abbrev pub newest_of : DatabaseReader → RingKind → ℕ
newest_of db favorites = newest db.favorites
newest_of db main = newest db.main

-- `write_heads[…].wrapping_sub(index) & MAX_ENTRIES`
unfoldable pub age : ℕ → ℕ → ℕ
age head index = bit_and ((head + 2 ^ 32 - index) % 2 ^ 32) (mask 20)

-- An entry with its age in place of its index, and back.
unfoldable pub with_age : (RingKind → ℕ) → RingAndIndex → Option RingAndIndex
with_age heads rai = elim (ring_of rai) [
  | none ↦ none
  | some ring ↦ some (ring_and_index ring (age (heads ring) (packed_index rai)))
]

unfoldable pub id_with_age : (RingKind → ℕ) → RingAndIndex → Option ℕ
id_with_age heads rai = elim (ring_of rai) [
  | none ↦ none
  | some ring ↦ some (composite_id ring (age (heads ring) (packed_index rai)))
]

abbrev pub if_some {ℓ κ} : {A : Type ℓ} {B : Type κ} → (A → Option B) → Option A → Option B
if_some f none = none
if_some f (some a) = f a

abbrev pub cons_some {ℓ} : {A : Type ℓ} → Option A → List A → List A
cons_some none xs = xs
cons_some (some x) xs = x ∷ xs

-- What the results of the search are, by age.
unfoldable pub ages_found :
    (RingKind → ℕ)
    → List (BucketAndIndex × RingAndIndex)
    → List (Result QueryResult SearchError)
    → List RingAndIndex
ages_found heads cache [] = []
ages_found heads cache (err e ∷ results) = ages_found heads cache results
ages_found heads cache (ok q ∷ results) =
    cons_some (if_some (with_age heads) (locate cache q.location)) (ages_found heads cache results)

-- `BinaryHeap::push`
abbrev pub push : ℕ → List ℕ → List ℕ
push entry heap = insert_by ltb entry heap

abbrev replace_max : ℕ → List ℕ → Option (ℕ × List ℕ) → List ℕ
replace_max entry heap none = heap
replace_max entry heap (some (peek, popped)) = if ltb entry peek then push entry popped else heap

unfoldable pub keep_best : ℕ → ℕ → List ℕ → List ℕ
keep_best most entry heap =
    if length heap == most then replace_max entry heap (pop heap) else push entry heap

unfoldable pub keep_all : ℕ → List ℕ → List ℕ → List ℕ
keep_all most [] heap = heap
keep_all most (entry ∷ entries) heap = keep_all most entries (keep_best most entry heap)

-- The entries of the identifiers; an identifier that is not found is left out.
unfoldable pub get_entries : List (Option ℕ) → DatabaseReader → List ReaderEntry × DatabaseReader
get_entries [] db = ([], db)
get_entries (none ∷ ids) db = get_entries ids db
get_entries (some id ∷ ids) db =
    let (found, db') = get_grown db id in
    let (entries, db'') = get_entries ids db' in
    (elim found [ err e ↦ entries | ok entry ↦ entry ∷ entries ], db'')

abbrev pub ids_of : (RingKind → ℕ) → List RingAndIndex → List (Option ℕ)
ids_of heads [] = []
ids_of heads (rai ∷ rest) = id_with_age heads rai ∷ ids_of heads rest

-- `do_search`, given what the search sends.
unfoldable pub do_search :
    List (Result QueryResult SearchError)
    → DatabaseReader
    → SearchCache
    → (List ReaderEntry × DatabaseReader) × SearchCache
do_search results db cache =
    let cache' = reverse_index_of db cache in
    let heads = newest_of db in
    (
      get_entries
          (ids_of heads
            (keep_all max_search_entries (ages_found heads cache'.reverse_index results) []))
          db,
      cache',
    )
