-- ===== src/Server/Gc/Swaps.antt =====
-- server/src/allocator.rs: the allocations that `gc_` may move, and the closure `swap` that moves
-- them.
use clipboard_history.Prelude.{
  ℕ, zero, suc, ◌+◌, ◌*◌, min, Bool, true, false, ◌&&◌, ◌||◌, Option, none, some, List, [], ◌∷◌,
  ◌++◌, Result, ok, err, length, get_or, set, replicate, ltb, leb, ◌==◌, if◌then◌else◌,
}
use clipboard_history.Prelude.Vecs.{last, pop, sort_by}
use clipboard_history.Core.Protocol.{RingKind, favorites, main}
use clipboard_history.Core.InitializedEntry
use clipboard_history.Core.Entry.{Entry, bucketed}
use clipboard_history.Core.Buckets.{num_buckets, size_to_bucket, bucket_to_length}
use clipboard_history.Core.Views.{RingAndIndex, ring_and_index, ring_of, packed_index}
use clipboard_history.Core.Ring
use clipboard_history.Core.Ring.{Ring}
use clipboard_history.Server.Store.{
  Allocator, CliError, panicked, M, throw, ◌>>=◌, ◌>>◌, gets, modify, syscall, ring_at, write,
  copy_bucket,
}
use clipboard_history.Server.Slots.{free_list, put_free_list, put_file, slice, copy_into}

-- `sort_unstable_by_key(|&index| Reverse(index))`
unfoldable pub descending : List ℕ → List ℕ
unfolding sort_by
descending = sort_by (λ a b. leb b a)

-- The slot of an allocation and the entry that holds it.
abbrev pub Swappable : Type 0
Swappable = ℕ × RingAndIndex

-- The order of the pairs.
abbrev pub swappable_lt : Swappable → Swappable → Bool
swappable_lt (a, r) (b, t) = ltb a b || (a == b && ltb r t)

-- A `BinaryHeap` of reversed pairs with its items in ascending order: the item that `peek` shows, the
-- greatest in the reversed order, is the first.
unfoldable pub heap_push : Swappable → List Swappable → List Swappable
heap_push x [] = x ∷ []
heap_push x (y ∷ ys) = if swappable_lt x y then x ∷ y ∷ ys else y ∷ heap_push x ys

-- A full heap keeps its greatest pairs.
unfoldable pub offer : ℕ → Swappable → List Swappable → List Swappable
unfolding heap_push
offer limit item heap =
    if length heap == limit
    then elim heap [
      | [] ↦ []
      | least ∷ rest ↦ if swappable_lt least item then heap_push item rest else least ∷ rest
    ]
    else heap_push item heap

-- `free_slots.last().copied().unwrap_or(u32::MAX)`, in a list that is in descending order.
unfoldable pub lowest_free : List ℕ → ℕ
unfolding last
lowest_free slots = elim (last slots) [ some i ↦ i | none ↦ 0xffff_ffff ]

-- One entry of a ring: the allocation is of interest if it lies above a free slot of its bucket.
consider :
    ℕ → List (List ℕ) → RingKind → ℕ → Option Entry → List (List Swappable) → List (List Swappable)
unfolding offer lowest_free
consider layers lists kind i (some (bucketed e)) heaps =
    let bucket = size_to_bucket (InitializedEntry.size e) in
    let frees = get_or lists bucket [] in
    if leb (InitializedEntry.index e) (lowest_free frees)
    then heaps
    else set heaps bucket (
        offer (min layers (length frees) + 1) (InitializedEntry.index e, ring_and_index kind i)
          (get_or heaps bucket []))
consider layers lists kind i _ heaps = heaps

-- `for i in 0..ring.len()`, with `n` rounds left.
consider_ring :
    ℕ → List (List ℕ) → RingKind → Ring → ℕ → ℕ → List (List Swappable) → List (List Swappable)
unfolding consider
consider_ring layers lists kind ring i zero heaps = heaps
consider_ring layers lists kind ring i (suc n) heaps =
    consider_ring layers lists kind ring (i + 1) n
      (consider layers lists kind i (Ring.get ring i) heaps)

-- `swappable_allocations`, sorted.
unfoldable pub swappable_allocations : ℕ → Allocator → List (List Swappable)
unfolding consider_ring
swappable_allocations layers s =
    let scan = λ (kind : RingKind) (heaps : List (List Swappable)).
      consider_ring layers s.free_lists kind (ring_at kind s) 0 (ring_at kind s).len heaps in
    scan main (scan favorites (replicate num_buckets []))

unfoldable pub last_swappable : List Swappable → Option Swappable
unfolding last
last_swappable = last

-- Moves the allocation at `alloc` to the slot `to` of the bucket.
unfoldable pub move_slot : ℕ → ℕ → ℕ → RingAndIndex → M (Unit {0})
unfolding syscall write
move_slot bucket to alloc rai = do
  let len = bucket_to_length bucket
  elim (ring_of rai) [
    | none ↦ throw panicked
    | some kind ↦ do
      ring ← gets (ring_at kind)
      elim (Ring.get ring (packed_index rai)) [
        | some (bucketed e) ↦ do
          let size = InitializedEntry.size e
          syscall copy_bucket
          modify (λ s.
              put_file bucket
                (copy_into
                  (slice (get_or s.files bucket []) (alloc * len)
                    (if ltb size len then size + 1 else size))
                  (get_or s.files bucket []) (to * len))
                s)
          write kind (bucketed (InitializedEntry.bucket size to)) (packed_index rai)
        | _ ↦ throw panicked
      ]
  ]

-- The closure `swap` for `n` more layers. It returns what is left of the allocations and the slots that
-- it has freed, beside what stopped it.
unfoldable pub swap :
    ℕ
    → ℕ
    → List Swappable
    → List ℕ
    → Allocator
    → Result (Unit {0}) CliError × List Swappable × List ℕ × Allocator
unfolding move_slot pop
swap zero bucket allocs pending s = (ok tt, allocs, pending, s)
swap (suc n) bucket allocs pending s = elim (pop (free_list bucket s)) [
  | none ↦ (ok tt, allocs, pending, s)
  | some (to, frees) ↦ elim (pop allocs) [
    | none ↦ (ok tt, allocs, pending, s)
    | some ((alloc, rai), rest) ↦ elim (leb alloc to) [
      | true ↦ (ok tt, allocs, pending, s)
      | false ↦
          let (r, s') = move_slot bucket to alloc rai s in
          elim r [
            | err e ↦ (err e, allocs, pending, s')
            | ok _ ↦ swap n bucket rest (pending ++ (alloc ∷ [])) (put_free_list bucket frees s')
          ]
    ]
  ]
]

-- `swap()` and what follows it: the freed slots join the free ones, then an error is passed on.
unfoldable pub swap_loop : ℕ → ℕ → List Swappable → M (List Swappable)
unfolding swap
swap_loop layers bucket allocs s =
    let (r, left, pending, s') = swap layers bucket allocs [] s in
    let s'' = put_free_list bucket (free_list bucket s' ++ pending) s' in
    elim r [ ok _ ↦ (ok left, s'') | err e ↦ (err e, s'') ]
