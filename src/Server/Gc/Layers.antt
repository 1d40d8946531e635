-- ===== src/Server/Gc/Layers.antt =====
-- server/src/allocator.rs: how many layers of slots `gc_` moves, one free slot of each bucket that
-- still has one being a layer.
use clipboard_history.Prelude.{
  ℕ, ◌+◌, ◌-◌, ◌*◌, ◌/◌, ◌^◌, min, true, false, List, [], ◌∷◌, length, get_or, ltb, leb, ◌==◌,
  if◌then◌else◌,
}
use mathlib.Core.List.{reverse}
use clipboard_history.Prelude.Vecs.{sort_by}
use clipboard_history.Core.Buckets.{bucket_to_length}

abbrev pub min_bytes_to_free : ℕ
min_bytes_to_free = 2 ^ 14

-- Buckets are numbered from `bucket` on.
unfoldable pub wasted_from : ℕ → List (List ℕ) → ℕ
wasted_from bucket [] = 0
wasted_from bucket (v ∷ vs) = length v * bucket_to_length bucket + wasted_from (bucket + 1) vs

-- `wasted_bucket_bytes`
unfoldable pub wasted_bytes : List (List ℕ) → ℕ
unfolding wasted_from
wasted_bytes lists = wasted_from 0 lists

-- The second `max_wasted_bytes`, so that a run frees 16 KiB at least.
unfoldable pub lowered_limit : ℕ → ℕ → ℕ
lowered_limit wasted max_wasted =
    if ltb (wasted - max_wasted) min_bytes_to_free then wasted - min_bytes_to_free else max_wasted

-- A bucket and its number of free slots.
abbrev pub Count : Type 0
Count = ℕ × ℕ

unfoldable pub counts_from : ℕ → List (List ℕ) → List Count
counts_from bucket [] = []
counts_from bucket (v ∷ vs) = (bucket, length v) ∷ counts_from (bucket + 1) vs

-- `free_slot_counts`: fewest free slots first.
unfoldable pub free_slot_counts : List (List ℕ) → List Count
unfolding counts_from sort_by
free_slot_counts lists = sort_by (λ a b. leb a.1 b.1) (counts_from 0 lists)

accumulate : ℕ → List Count → List ℕ
accumulate accum [] = []
accumulate accum ((bucket, _) ∷ rest) =
    let accum' = accum + bucket_to_length bucket in accum' ∷ accumulate accum' rest

-- `bytes_in_remaining_layers`: the `i`th item is the length of a layer of the last `i + 1` buckets.
unfoldable pub bytes_in_remaining_layers : List Count → List ℕ
unfolding accumulate
bytes_in_remaining_layers counts = accumulate 0 (reverse counts)

-- `u64::div_ceil`
abbrev pub div_ceil : ℕ → ℕ → ℕ
div_ceil a b = if a - a / b * b == 0 then a / b else a / b + 1

-- The loop over `free_slot_counts` from its `i`th item on; `total` is their number.
unfoldable pub layers_loop : ℕ → List ℕ → ℕ → ℕ → List Count → ℕ → ℕ → ℕ
layers_loop limit layer_bytes total i [] layers remaining = layers
layers_loop limit layer_bytes total i ((_, free_slots) ∷ rest) layers remaining =
    let available = free_slots - layers in
    let per_layer = get_or layer_bytes (total - 1 - i) 0 in
    let used = min (div_ceil (remaining - limit) per_layer) available in
    let remaining' = remaining - used * per_layer in
    let skip = layers_loop limit layer_bytes total (i + 1) rest layers remaining in
    let more = layers_loop limit layer_bytes total (i + 1) rest (layers + used) remaining' in
    elim (available == 0) [
      | true ↦ skip
      | false ↦ elim (leb remaining' limit) [ true ↦ layers + used | false ↦ more ]
    ]

unfoldable pub layers_to_remove : List (List ℕ) → ℕ → ℕ
unfolding layers_loop free_slot_counts bytes_in_remaining_layers wasted_bytes
layers_to_remove lists limit =
    let counts = free_slot_counts lists in
    layers_loop limit (bytes_in_remaining_layers counts) (length counts) 0 counts 0
      (wasted_bytes lists)
