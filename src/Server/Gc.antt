-- ===== src/Server/Gc.antt =====
-- server/src/allocator.rs: `Allocator::gc_`. Allocated slots at the end of a bucket file are moved
-- to free ones at its start, and the free end of the file is cut off.
pub mod Layers
pub mod Swaps
use clipboard_history.Prelude.{
  ℕ, zero, suc, ◌+◌, ◌-◌, ◌*◌, Bool, true, false, Option, none, some, List, [], ◌∷◌, ok, length,
  take, drop, get_or, set, ltb, leb, ◌==◌, if◌then◌else◌, map,
}
use clipboard_history.Prelude.Vecs.{sort_by}
use clipboard_history.Core.Buckets.{bucket_to_length}
use clipboard_history.Server.Store.{
  Allocator, Context, CliError, M, pure, ◌>>=◌, ◌>>◌, gets, modify, syscall, truncate_bucket,
}
use clipboard_history.Server.Slots.{free_list, put_free_list, put_file}
use Layers.{wasted_bytes, lowered_limit, layers_to_remove}
use Swaps.{descending, Swappable, swappable_allocations, swap_loop, last_swappable}

-- `free_slots.binary_search_by_key` in a descending list: how many indices lie above.
abbrev pub count_above : ℕ → List ℕ → ℕ
count_above index [] = 0
count_above index (i ∷ is) = if ltb index i then suc (count_above index is) else 0

abbrev sort_frees : ℕ → Allocator → Allocator
sort_frees bucket s = put_free_list bucket (descending (free_list bucket s)) s

-- `ftruncate`, which here only shortens.
abbrev pub truncate : ℕ → ℕ → Allocator → Allocator
truncate bucket len s = put_file bucket (take len (get_or s.files bucket [])) s

drop_slots : ℕ → ℕ → M ℕ
drop_slots bucket zero = pure 0
drop_slots bucket (suc n) = do
  let count = suc n
  let size = bucket_to_length bucket
  slots ← gets (λ s. get_or s.slot_counts bucket 0)
  syscall truncate_bucket
  modify (truncate bucket ((slots - count) * size))
  modify (λ s.
      put_free_list bucket (drop count (free_list bucket s))
        (record s { slot_counts = set s.slot_counts bucket (slots - count) }))
  pure (count * size)

-- The round of the last loop for one bucket: the bytes freed.
gc_bucket : ℕ → ℕ → List Swappable → M ℕ
unfolding drop_slots
gc_bucket layers bucket swappable = do
  left ← swap_loop layers bucket swappable
  elim (last_swappable left) [
    | some (highest, _) ↦ do
      modify (sort_frees bucket)
      frees ← gets (free_list bucket)
      drop_slots bucket (count_above highest frees)
    | none ↦ do frees ← gets (free_list bucket); drop_slots bucket (length frees)
  ]

-- The loop over the buckets from `bucket` on.
gc_buckets : ℕ → ℕ → List (List Swappable) → ℕ → M ℕ
unfolding gc_bucket
gc_buckets layers bucket [] freed = pure freed
gc_buckets layers bucket (swappable ∷ rest) freed = do
  n ← gc_bucket layers bucket swappable
  gc_buckets layers (bucket + 1) rest (freed + n)

-- `gc_`: the bytes freed.
unfoldable pub gc : ℕ → M ℕ
unfolding gc_buckets
gc max_wasted s =
    let wasted = wasted_bytes s.free_lists in
    elim (leb wasted max_wasted) [
      | true ↦ (ok 0, s)
      | false ↦
          let layers = layers_to_remove s.free_lists (lowered_limit wasted max_wasted) in
          let s' = record s { free_lists = map descending s.free_lists } in
          gc_buckets layers 0 (swappable_allocations layers s') 0 s'
    ]
