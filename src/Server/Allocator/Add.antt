-- ===== src/Server/Allocator/Add.antt =====
-- server/src/allocator.rs: `Allocator::add` of a text that fits a bucket slot.
use clipboard_history.Prelude.{
  ℕ, ◌≤◌, ◌<◌, ◌≡◌, ◌≢◌, sym, ◌∙◌, ap, true, false, ◌&&◌, some, [], ok, length, get_or, arith, ◌==◌,
  if◌then◌else◌, inl, inr, Bool-cases,
}
use mathlib.Core.Path.{subst}
use clipboard_history.Prelude.Files.{Bytes}
use clipboard_history.Core.Protocol.{RingKind, same_kind, composite_id}
use clipboard_history.Core.InitializedEntry
use clipboard_history.Core.InitializedEntry.{InitializedEntry, max_entries}
use clipboard_history.Core.Entry.{bucketed, uninitialized}
use clipboard_history.Core.Buckets.{num_buckets, size_to_bucket}
use clipboard_history.Core.Buckets.Contents.{bucket_of, slot_bytes}
use clipboard_history.Core.FileName.{direct_file_name}
use clipboard_history.Core.Mimes.{is_text_mime}
use clipboard_history.Core.Ring
use clipboard_history.Core.Ring.{Ring}
use clipboard_history.Server.RingWriter.Laws.{get-eq-some, slot_entry}
use clipboard_history.Server.Store.{Allocator, pure, ring_at, put_ring}
use clipboard_history.Server.Store.Laws.{entry_of, >>=-ok, same_kind_iff}
use clipboard_history.Server.Slots.{alloc}
use clipboard_history.Server.Slots.Accounts.{IsAccounted, held, bucket_of-lt}
use clipboard_history.Server.Slots.AllocBucket.{Allocated, alloc_bucket-Allocated}
use clipboard_history.Server.Gc.Layers.{wasted_bytes}
use clipboard_history.Server.Allocator.{add_internal, add}
use clipboard_history.Server.Allocator.Room.{HasFiles, after_room, make_room-after_room}
use clipboard_history.Server.Allocator.Emptied.{Emptied, after_room-Emptied, SameShape}
use clipboard_history.Server.Allocator.Placed.{
  IsPositioned, placed_ring, placed-put_ring, get-placed_ring, placed_ring-IsPositioned,
}
use clipboard_history.Server.Allocator.Run.{add_internal-placed, alloc_text}
use clipboard_history.Server.Allocator.Owned.{
  owners-entry, entry_of-put_ring, next_head-eq, ring_at-put_ring, owners-put_ring,
}

-- What `add` leaves: the entry at the old write head with its data in its slot, every other entry as it
-- was and with the data that it had, each direct file but that of the position, each slot with one
-- owner, and the write head moved on.
pub record Added (bytes : Bytes) (to : RingKind) (s : Allocator) (w : InitializedEntry)
    (s' : Allocator) : Type 0 where
  pub entries :
      (l : RingKind) (j : ℕ)
      → entry_of s' l j ≡ (
          if same_kind to l && Ring.write_head (ring_at to s) == j
          then some (bucketed w)
          else entry_of s l j)
  pub stored : slot_bytes s'.files w ≡ bytes
  pub kept :
      (l : RingKind) (j : ℕ) (v : InitializedEntry)
      → (same_kind to l && Ring.write_head (ring_at to s) == j) ≡ false
      → entry_of s l j ≡ some (bucketed v)
      → slot_bytes s'.files v ≡ slot_bytes s.files v
  pub kept_files :
      (n : Bytes)
      → direct_file_name to (Ring.write_head (ring_at to s)) ≢ n
      → s'.direct_dir n ≡ s.direct_dir n
  pub accounted : IsAccounted s'
  pub position : IsPositioned (ring_at to s')
  pub head :
      Ring.write_head (ring_at to s')
      ≡ Ring.next_head (ring_at to s) (Ring.write_head (ring_at to s))

module _ (bytes : Bytes) (to : RingKind) (s s1 s2 : Allocator) (w : InitializedEntry)
    (position : IsPositioned (ring_at to s))
    (emptied : Emptied to (Ring.write_head (ring_at to s)) s s1)
    (allocated : Allocated bytes s1 w s2) where
  abbrev at : ℕ
  at = Ring.write_head (ring_at to s)

  abbrev ring2 : Ring
  ring2 = ring_at to s2

  same_shape : SameShape (ring_at to s) ring2
  same_shape = subst (λ r. SameShape (ring_at to s) r) (sym (allocated.rings to)) (emptied.shape to)

  at-le : at ≤ ring2.len
  at-le = grind (arith, same_shape.len, position.tail, position.inside)

  vacant2 : at < ring2.len → slot_entry ring2 at ≡ uninitialized
  vacant2 =
      subst (λ r. at < r.len → slot_entry r at ≡ uninitialized) (sym (allocated.rings to))
        emptied.vacant

  position2 : IsPositioned ring2
  position2 = record {
    room = omega (arith, same_shape.capacity, position.room);
    inside = omega (arith, same_shape.capacity, same_shape.head, position.inside);
    tail = grind (arith, same_shape.capacity, same_shape.head, same_shape.len, position.tail);
  }

  abbrev final : Allocator
  final = put_ring to (placed_ring (bucketed w) at ring2) s2

  kept_entry :
      (l : RingKind) (j : ℕ)
      → (same_kind to l && at == j) ≡ false
      → entry_of s2 l j ≡ entry_of s l j
  kept_entry l j h = ap (λ r. Ring.get r j) (allocated.rings l) ∙ emptied.others l j h

  final_entries :
      (l : RingKind) (j : ℕ)
      → entry_of final l j
        ≡ (if same_kind to l && at == j then some (bucketed w) else entry_of s l j)
  final_entries l j = elim (Bool-cases (same_kind to l && at == j)) [
    | inl h ↦ ground (arith, put, got)
    | inr h ↦ elim (Bool-cases (same_kind to l)) [
      | inr other ↦ ground (arith, put, kept_entry l j h)
      | inl same ↦
          let e : to ≡ l = (same_kind_iff to l).0 same in
          let moved : entry_of s2 to j ≡ entry_of s2 l j = ap (λ k. entry_of s2 k j) e in
          ground (arith, put, got, moved, kept_entry l j h)
    ]
  ]
    where
      put : entry_of final l j ≡ (
          if same_kind to l
          then Ring.get (placed_ring (bucketed w) at ring2) j
          else entry_of s2 l j)
      put = entry_of-put_ring to (placed_ring (bucketed w) at ring2) s2 l j

      got :
          Ring.get (placed_ring (bucketed w) at ring2) j
          ≡ (if at == j then some (bucketed w) else Ring.get ring2 j)
      got = get-placed_ring (bucketed w) at ring2 j allocated.proper at-le

  final_kept :
      (l : RingKind) (j : ℕ) (v : InitializedEntry)
      → (same_kind to l && at == j) ≡ false
      → entry_of s l j ≡ some (bucketed v)
      → slot_bytes s2.files v ≡ slot_bytes s.files v
  final_kept l j v apart h =
      let here : entry_of s2 l j ≡ some (bucketed v) = kept_entry l j apart ∙ h in
      let (_, _, proper) = get-eq-some (ring_at l s2) j (bucketed v) here in
      let b = bucket_of v in
      let i = InitializedEntry.index v in
      let single : held b i (bucketed w) ≡ 0 =
        ground
          (arith, owners-entry l j v s2 here, allocated.accounts b i (bucket_of-lt v proper.0)) in
      allocated.kept v proper.0 single ∙ ap (λ files. slot_bytes files v) emptied.contents

  final-IsAccounted : IsAccounted final
  final-IsAccounted = record {
    accounts = λ b j lt.
        owners-put_ring b j to (bucketed w) at s2 allocated.proper at-le vacant2
        ∙ allocated.accounts b j lt;
    lists = allocated.lists;
    counts = allocated.counts;
  }

  final-IsPositioned :
      (Ring.write_head (ring_at to final) ≡ Ring.next_head (ring_at to s) at)
      × IsPositioned (ring_at to final)
  final-IsPositioned =
      let (moved, positioned) = positioned_at at (sym same_shape.head) in
      rw (ring_at-put_ring to (placed_ring (bucketed w) at ring2) s2)
        (moved ∙ next_head-eq (ring_at to s) ring2 at same_shape.capacity, positioned)
    where
      positioned_at :
          (n : ℕ)
          → n ≡ Ring.write_head ring2
          → (Ring.write_head (placed_ring (bucketed w) n ring2) ≡ Ring.next_head ring2 n)
            × IsPositioned (placed_ring (bucketed w) n ring2)
      positioned_at n e =
          subst
            (λ m.
              (Ring.write_head (placed_ring (bucketed w) m ring2) ≡ Ring.next_head ring2 m)
              × IsPositioned (placed_ring (bucketed w) m ring2))
            (sym e) (placed_ring-IsPositioned (bucketed w) ring2 position2)

  pub final-Added : Added bytes to s w final
  final-Added = record {
    entries = final_entries;
    stored = allocated.stored;
    kept = final_kept;
    kept_files = λ n apart. ap (λ dir. dir n) allocated.directory ∙ emptied.directory n apart;
    accounted = final-IsAccounted;
    position = final-IsPositioned.1;
    head = final-IsPositioned.0;
  }

after_room-IsAccounted :
    (to : RingKind) (head : ℕ) (s s1 : Allocator)
    → IsAccounted s
    → Emptied to head s s1
    → IsAccounted s1
after_room-IsAccounted to head s s1 accounted emptied = record {
  accounts = λ b j lt. emptied.owned b j ∙ accounted.accounts b j lt ∙ rw (emptied.counts);
  lists = emptied.lists;
  counts = ap length emptied.counts ∙ accounted.counts;
}

-- `add` of a text of 1 to 4095 bytes, where each slot has one owner, every direct entry has its file,
-- the ring's write head is where the next entry goes, the free lists waste no more than 65535 bytes
-- once the entry at the write head is given up, the text's class has fewer slots than a ring may have
-- entries and no system call fails: it replies with the identifier of the old write head, where the
-- new entry now stands; its slot has the text; every other entry stays; those in buckets keep their
-- data, and every name in the directory of direct files, but that of the old write head's position,
-- keeps its file or stays without one; each slot has one owner; and the write head has moved to the
-- next position.
pub add-Added :
    (bytes mime : Bytes) (to : RingKind) (s : Allocator)
    → s.faults ≡ []
    → is_text_mime mime ≡ true
    → 0 < length bytes
    → length bytes < 4096
    → IsAccounted s
    → length s.files ≡ num_buckets
    → HasFiles s
    → IsPositioned (ring_at to s)
    → wasted_bytes
        (after_room
          (entry_of s to (Ring.write_head (ring_at to s)))
          to
          (Ring.write_head (ring_at to s))
          s).free_lists
      ≤ 0xffff
    → get_or s.slot_counts (size_to_bucket (length bytes)) 0 < max_entries
    → (w : InitializedEntry) × (s' : Allocator) × (add bytes to mime s
        ≡ (ok (composite_id to (Ring.write_head (ring_at to s))), s'))
      × Added bytes to s w s'
unfolding add
add-Added bytes mime to s calm text pos small accounted whole files position idle bound =
    let head = Ring.write_head (ring_at to s) in
    let s1 = after_room (entry_of s to head) to head s in
    let emptied = after_room-Emptied to head s calm accounted.lists in
    let (w, s2, stores, allocated) =
      alloc_bucket-Allocated bytes s1 pos small emptied.calm
        (after_room-IsAccounted to head s s1 accounted emptied) (ap length emptied.contents ∙ whole)
        (omega
          (arith, ap (λ c. get_or c (size_to_bucket (length bytes)) 0) emptied.counts, bound)) in
    (
      w,
      put_ring to (placed_ring (bucketed w) head (ring_at to s2)) s2,
      >>=-ok (add_internal to (λ at. alloc bytes mime to at)) (λ id. pure (composite_id to id)) s
          (add_internal-placed to (λ at. alloc bytes mime to at) s s1 s2 (bucketed w)
              (make_room-after_room to head s calm files idle)
              (alloc_text bytes mime to head s1 emptied.calm text pos small ∙ stores) allocated.calm
            ∙ ap (λ t. (ok head, t)) (placed-put_ring to (bucketed w) head s2)),
      final-Added bytes to s s1 s2 w position emptied allocated,
    )
