-- ===== src/Server/FreeLists.antt =====
-- server/src/allocator.rs: `FreeLists::load`, which rebuilds the free lists from the rings where the
-- server has not saved them. The reading and the decoding of the file stand for what they find.
pub mod Rebuilt
use clipboard_history.Prelude.{
  ℕ, zero, suc, ◌+◌, ◌-◌, Bool, true, false, Option, none, some, List, [], ◌∷◌, ◌++◌, map, length,
  get_or, set, replicate, leb, if◌then◌else◌,
}
use clipboard_history.Core.InitializedEntry
use clipboard_history.Core.Entry.{Entry, uninitialized, bucketed, file}
use clipboard_history.Core.Buckets.{num_buckets, size_to_bucket}
use clipboard_history.Core.Ring
use clipboard_history.Core.Ring.{Ring}
use clipboard_history.Server.Store.{Allocator}

pub data SavedLists : Type 0 where
  -- no file, what it decodes to, and a file that is empty or corrupt
  missing : SavedLists
  decoded : List (List ℕ) → SavedLists
  unreadable : SavedLists

-- The `BitVec` of a bucket, with the slot marked.
unfoldable pub mark : ℕ → List Bool → List Bool
mark index slots =
    if leb (length slots) index
    then slots ++ (replicate (index - length slots) false ++ (true ∷ []))
    else set slots index true

unfoldable pub mark_entry : Entry → List (List Bool) → List (List Bool)
mark_entry uninitialized allocations = allocations
mark_entry file allocations = allocations
mark_entry (bucketed e) allocations =
    let bucket = size_to_bucket (InitializedEntry.size e) in
    set allocations bucket (mark (InitializedEntry.index e) (get_or allocations bucket []))

unfoldable pub mark_found : Option Entry → List (List Bool) → List (List Bool)
mark_found none allocations = allocations
mark_found (some e) allocations = mark_entry e allocations

-- The loop over the first `n` entries of a ring.
unfoldable pub mark_ring : Ring → ℕ → List (List Bool) → List (List Bool)
mark_ring ring zero allocations = allocations
mark_ring ring (suc n) allocations = mark_found (Ring.get ring n) (mark_ring ring n allocations)

-- `iter_zeros`, counting from `i`.
unfoldable pub zeros : ℕ → List Bool → List ℕ
zeros i [] = []
zeros i (true ∷ bits) = zeros (i + 1) bits
zeros i (false ∷ bits) = i ∷ zeros (i + 1) bits

unfoldable pub allocations_of : Ring → Ring → List (List Bool)
allocations_of favorites_ring main_ring =
    mark_ring main_ring main_ring.len
      (mark_ring favorites_ring favorites_ring.len (replicate num_buckets []))

-- `FreeLists::load`
unfoldable pub load : SavedLists → Ring → Ring → List (List ℕ)
load missing favorites_ring main_ring = replicate num_buckets []
load (decoded lists) favorites_ring main_ring = lists
load unreadable favorites_ring main_ring = map (zeros 0) (allocations_of favorites_ring main_ring)
