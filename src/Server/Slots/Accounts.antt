-- ===== src/Server/Slots/Accounts.antt =====
-- Who owns a bucket slot: a place in the free list, or an entry of a ring. The steps of the
-- allocator move slots between owners.
use clipboard_history.Prelude.{
  ℕ, zero, suc, ◌+◌, ◌≤◌, ◌<◌, ◌≡◌, refl, ◌&&◌, [], ◌∷◌, ◌++◌, length, get_or, get_or-set, count,
  count-append, count-single, arith, ltb, ◌==◌, if◌then◌else◌, Bool-cases, inl, inr,
}
use clipboard_history.Core.Protocol.{RingKind, favorites, main}
use clipboard_history.Core.InitializedEntry
use clipboard_history.Core.InitializedEntry.Fields.{size-lt}
use clipboard_history.Core.Entry.{Entry, uninitialized, bucketed, file}
use clipboard_history.Core.Entry.Words.{IsEntry}
use clipboard_history.Core.Buckets.{num_buckets, size_to_bucket}
use clipboard_history.Core.Buckets.Classes.{size_to_bucket_fits}
use clipboard_history.Core.Ring.{Ring}
use clipboard_history.Server.RingWriter
use clipboard_history.Server.RingWriter.Laws.{
  slot_entry, slot_entry-write, slot_entry-set_write_head,
}
use clipboard_history.Server.Store.{Allocator, ring_at}
use clipboard_history.Server.Store.Laws.{after_write, after_set_head}
use clipboard_history.Server.Slots.{free_list, free_slot}

-- One if the entry holds slot `i` of bucket `b`.
unfoldable pub held : ℕ → ℕ → Entry → ℕ
held b i uninitialized = 0
held b i file = 0
held b i (bucketed e) =
    if size_to_bucket (InitializedEntry.size e) == b && InitializedEntry.index e == i then 1 else 0

-- The entries below `n` that hold the slot.
unfoldable pub held_below : ℕ → ℕ → Ring → ℕ → ℕ
held_below b i r zero = 0
held_below b i r (suc n) = held b i (slot_entry r n) + held_below b i r n

unfoldable pub owners : ℕ → ℕ → Allocator → ℕ
owners b i s =
    count i (free_list b s)
    + held_below b i s.favorites_ring s.favorites_ring.len
    + held_below b i s.main_ring s.main_ring.len

-- Every slot of every bucket file has one owner, and no other slot has any.
pub record IsAccounted (s : Allocator) : Type 0 where
  pub accounts :
      (b i : ℕ)
      → b < num_buckets
      → owners b i s ≡ (if ltb i (get_or s.slot_counts b 0) then 1 else 0)
  pub lists : length s.free_lists ≡ num_buckets
  pub counts : length s.slot_counts ≡ num_buckets

pub held_below-write_past :
    (b i : ℕ) (e : Entry) (at : ℕ) (r : Ring) (n : ℕ)
    → IsEntry e
    → n ≤ at
    → held_below b i (RingWriter.write e at r) n ≡ held_below b i r n
unfolding held_below
held_below-write_past b i e at r zero h le = refl
held_below-write_past b i e at r (suc n) h le =
    ground (arith, slot_entry-write e at r n h, held_below-write_past b i e at r n h)

pub held_below-write :
    (b i : ℕ) (e : Entry) (at : ℕ) (r : Ring) (n : ℕ)
    → IsEntry e
    → at < n
    → held_below b i (RingWriter.write e at r) n + held b i (slot_entry r at)
      ≡ held_below b i r n + held b i e
unfolding held_below
held_below-write b i e at r zero h lt = absurd (omega arith)
held_below-write b i e at r (suc n) h lt = elim (Bool-cases (at == n)) [
  | inl here ↦ ground (arith, slot_entry-write e at r n h, held_below-write_past b i e at r n h)
  | inr there ↦ ground (arith, slot_entry-write e at r n h, held_below-write b i e at r n h)
]

-- Writing an entry into a ring gives its slot an owner, and takes one from the slot of the entry
-- before.
pub owners-after_write :
    (b i : ℕ) (k : RingKind) (e : Entry) (at : ℕ) (s : Allocator)
    → IsEntry e
    → at < (ring_at k s).len
    → owners b i (after_write k e at s) + held b i (slot_entry (ring_at k s) at)
      ≡ owners b i s + held b i e
unfolding owners RingWriter.write
owners-after_write b i favorites e at s h lt =
    omega (arith, held_below-write b i e at s.favorites_ring s.favorites_ring.len h lt)
owners-after_write b i main e at s h lt =
    omega (arith, held_below-write b i e at s.main_ring s.main_ring.len h lt)

pub held_below-set_write_head :
    (b i h : ℕ) (r : Ring) (n : ℕ)
    → held_below b i (RingWriter.set_write_head h r) n ≡ held_below b i r n
unfolding held_below
held_below-set_write_head b i h r zero = refl
held_below-set_write_head b i h r (suc n) =
    ground (arith, slot_entry-set_write_head h r n, held_below-set_write_head b i h r n)

pub owners-after_set_head :
    (b i : ℕ) (k : RingKind) (h : ℕ) (s : Allocator)
    → owners b i (after_set_head k h s) ≡ owners b i s
unfolding owners RingWriter.set_write_head
owners-after_set_head b i favorites h s =
    omega (arith, held_below-set_write_head b i h s.favorites_ring s.favorites_ring.len)
owners-after_set_head b i main h s =
    omega (arith, held_below-set_write_head b i h s.main_ring s.main_ring.len)

-- A freed slot has the free list for an owner.
pub owners-free_slot :
    (b i bucket index : ℕ) (s : Allocator)
    → bucket < length s.free_lists
    → owners b i (free_slot bucket index s)
      ≡ owners b i s + (if bucket == b && index == i then 1 else 0)
unfolding owners
owners-free_slot b i bucket index s h = ground (
  arith,
  get_or-set s.free_lists bucket (free_list bucket s ++ (index ∷ [])) b [] h,
  count-append i (free_list bucket s) (index ∷ []),
  count-single i index,
)

pub bucket_of-lt :
    (e : ℕ) → 0 < InitializedEntry.size e → size_to_bucket (InitializedEntry.size e) < num_buckets
bucket_of-lt e pos = (size_to_bucket_fits (InitializedEntry.size e) pos (size-lt e)).0
