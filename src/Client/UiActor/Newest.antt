-- ===== src/Client/UiActor/Newest.antt =====
-- client-sdk/src/ui_actor.rs: which of the results of a search are kept.
use clipboard_history.Prelude.{
  ℕ, ◌+◌, ◌-◌, ◌%◌, ◌^◌, ◌≤◌, ◌<◌, ◌≡◌, ◌↔◌, ap, some, List, take, ltb, if◌then◌else◌, arith,
  Result,
}
use clipboard_history.Prelude.Bits.{bit_and-mask}
use clipboard_history.Prelude.Vecs.{sort_by}
use clipboard_history.Core.Protocol.{RingKind, composite_id}
use clipboard_history.Core.InitializedEntry.{max_entries}
use clipboard_history.Core.Views.{ring_and_index}
use clipboard_history.Core.Views.Packing.{ring_and_index_parts}
use clipboard_history.Client.RingReader.{DatabaseReader}
use clipboard_history.Client.Search.{QueryResult, SearchError}
use clipboard_history.Client.UiActor.{
  SearchCache, do_search, get_entries, ids_of, newest_of, ages_found, reverse_index_of, with_age,
  id_with_age, if_some, age,
}
use clipboard_history.Client.UiActor.Heap.{keep_all-sort_by}

-- A search is answered with the entries of the 256 results with the least ages, in the order of their
-- ages: as if all results, of which those that are not found are left out, were sorted by age, favorites
-- first at the same age.
pub do_search_sorts :
    (results : List (Result QueryResult SearchError)) (db : DatabaseReader) (cache : SearchCache)
    → (do_search results db cache).0
      ≡ get_entries
          (ids_of (newest_of db) (
            take 256 (
              sort_by ltb
                (ages_found (newest_of db) (reverse_index_of db cache).reverse_index results))))
          db
unfolding do_search
do_search_sorts results db cache =
    ap (λ ages. get_entries (ids_of (newest_of db) ages) db) (keep_all-sort_by 255 _)

-- How many steps back from the newest index an index of a ring is.
abbrev pub steps_back : ℕ → ℕ → ℕ → ℕ
steps_back len head index = if ltb head index then head + len - index else head - index

age-mod : (head index : ℕ) → age head index ≡ ((head + 2 ^ 32 - index) % 2 ^ 32) % 2 ^ 20
unfolding age
age-mod head index = bit_and-mask 20 ((head + 2 ^ 32 - index) % 2 ^ 32)

age-age : (head index : ℕ) → head < 2 ^ 20 → index < 2 ^ 20 → age head (age head index) ≡ index
age-age head index h i = omega (arith, age-mod head index, age-mod head (age head index))

age_order :
    (len head i j : ℕ)
    → len ≤ 2 ^ 20
    → head < len
    → i < len
    → j < len
    → (age head i < age head j) ↔ (steps_back len head i < steps_back len head j)
age_order len head i j small h hi hj =
    (λ less. ground (arith, facts), λ less. ground (arith, facts))
  where
    facts :
        (age head i ≡ ((head + 2 ^ 32 - i) % 2 ^ 32) % 2 ^ 20)
        × (age head j ≡ ((head + 2 ^ 32 - j) % 2 ^ 32) % 2 ^ 20)
    facts = (age-mod head i, age-mod head j)

-- In a ring of at most 2^20 entries, with a newest index inside it: of two indices of the ring the one that
-- is fewer steps back from the newest one has the smaller age, and an entry is found again by its age.
pub ages_order_entries :
    (heads : RingKind → ℕ) (ring_kind : RingKind) (len i j : ℕ)
    → len ≤ 2 ^ 20
    → heads ring_kind < len
    → i < len
    → j < len
    → ((age (heads ring_kind) i < age (heads ring_kind) j)
        ↔ (steps_back len (heads ring_kind) i < steps_back len (heads ring_kind) j))
      × (if_some (id_with_age heads) (with_age heads (ring_and_index ring_kind i))
          ≡ some (composite_id ring_kind i))
unfolding with_age id_with_age
ages_order_entries heads ring_kind len i j small h hi hj =
    let old = age (heads ring_kind) i in
    let old_small : old ≤ max_entries = omega (arith, age-mod (heads ring_kind) i) in
    let (ring, index) = ring_and_index_parts ring_kind i (omega arith) in
    let (ring', index') = ring_and_index_parts ring_kind old old_small in
    (
      age_order len (heads ring_kind) i j small h hi hj,
      rw (
        with_age,
        ring,
        index,
        id_with_age,
        ring',
        index,
        index',
        age-age (heads ring_kind) i (omega arith) (omega arith),
      ),
    )
