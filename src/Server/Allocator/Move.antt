-- ===== src/Server/Allocator/Move.antt =====
-- server/src/allocator.rs: `Allocator::move_to_front`, of an entry in a bucket slot.
use clipboard_history.Prelude.{
  ℕ, ◌+◌, ◌≤◌, ◌≡◌, refl, ◌∙◌, ap, false, ◌&&◌, Option, some, [], Result, ok, length, arith, ◌==◌,
  if◌then◌else◌, Bool-cases, inl, inr,
}
use clipboard_history.Core.Protocol.{RingKind, IdNotFoundError, same_kind, composite_id}
use clipboard_history.Core.InitializedEntry.{InitializedEntry}
use clipboard_history.Core.Entry.{Entry, bucketed, uninitialized, file}
use clipboard_history.Core.Buckets.{num_buckets}
use clipboard_history.Core.Buckets.Contents.{slot_bytes}
use clipboard_history.Core.Ring
use clipboard_history.Core.Ring.{Ring}
use clipboard_history.Server.RingWriter.Laws.{get-eq-some}
use clipboard_history.Server.Store.{Allocator, M, pure, ring_at, put_ring, write, ◌>>◌, ◌>>=◌}
use clipboard_history.Server.Store.Laws.{
  entry_of, after_write, write-after_write, >>-ok, >>=-ok, entry_of-after_write,
}
use clipboard_history.Server.Slots.Accounts.{IsAccounted, owners, held, owners-after_write}
use clipboard_history.Server.Slots.AllocBucket.{Allocated}
use clipboard_history.Server.Gc.Layers.{wasted_bytes}
use clipboard_history.Server.Allocator.{
  get_entry, add_internal, carry, unwrap_or, move_found, move_to_front,
}
use clipboard_history.Server.Allocator.Swap.{get_entry_ok}
use clipboard_history.Server.Allocator.Remove.{uninitialized-IsEntry}
use clipboard_history.Server.Allocator.Room.{HasFiles, after_room, make_room-after_room}
use clipboard_history.Server.Allocator.Emptied.{
  Emptied, SameShape, after_room-Emptied, after_write-SameShape,
}
use clipboard_history.Server.Allocator.Placed.{IsPositioned, placed_ring, placed-put_ring}
use clipboard_history.Server.Allocator.Run.{add_internal-placed}
use clipboard_history.Server.Allocator.Owned.{next_head-eq}
use clipboard_history.Server.Allocator.Add.{Added, final-Added}

move_run :
    (id : ℕ) (to : Option RingKind) (s : Allocator) (from : RingKind) (i : ℕ) (w : InitializedEntry)
    → get_entry id s ≡ ok (from, i, bucketed w)
    → move_to_front id to s ≡ move_found from i (bucketed w) (unwrap_or to from) s
unfolding move_to_front
move_run id to s from i w g = ground arith

move_found_steps :
    (from : RingKind) (i : ℕ) (w : InitializedEntry) (to : RingKind) (s : Allocator)
    → (same_kind from to && Ring.next_head (ring_at from s) i == Ring.write_head (ring_at from s))
      ≡ false
    → move_found from i (bucketed w) to s
      ≡ (write from uninitialized i
            >> (add_internal to (λ to_id. carry from i (bucketed w) to to_id) >>= λ to_id.
                pure (ok (composite_id to to_id))))
          s
unfolding move_found
move_found_steps from i w to s h = ground arith

SameShape-IsPositioned : (r r' : Ring) → SameShape r r' → IsPositioned r → IsPositioned r'
SameShape-IsPositioned r r' shape position = record {
  room = omega (arith, shape.capacity, position.room);
  inside = omega (arith, shape.capacity, shape.head, position.inside);
  tail = grind (arith, shape.capacity, shape.head, shape.len, position.tail);
}

-- What `move_to_front` leaves: the entry at the old write head of `to`, an empty position where it
-- stood, every other entry and every bucket file as it was, each slot with one owner, and the write
-- head moved on.
pub record Moved (from : RingKind) (i : ℕ) (to : RingKind) (s : Allocator) (w : InitializedEntry)
    (s' : Allocator) : Type 0 where
  pub entries :
      (l : RingKind) (j : ℕ)
      → entry_of s' l j ≡ (
          if same_kind to l && Ring.write_head (ring_at to s) == j
          then some (bucketed w)
          else if same_kind from l && i == j
          then some uninitialized
          else entry_of s l j)
  pub contents : s'.files ≡ s.files
  pub accounted : IsAccounted s'
  pub position : IsPositioned (ring_at to s')
  pub head :
      Ring.write_head (ring_at to s')
      ≡ Ring.next_head (ring_at to s) (Ring.write_head (ring_at to s))

module _ (from : RingKind) (i : ℕ) (to : RingKind) (s : Allocator) (w : InitializedEntry)
    (found : entry_of s from i ≡ some (bucketed w)) where
  abbrev taken : Allocator
  taken = after_write from uninitialized i s

  taken_entry :
      (l : RingKind) (j : ℕ)
      → entry_of taken l j
        ≡ (if same_kind from l && i == j then some uninitialized else entry_of s l j)
  taken_entry l j =
      let (lt, _, _) = get-eq-some (ring_at from s) i (bucketed w) found in
      ground (arith, entry_of-after_write from uninitialized i s l j uninitialized-IsEntry, lt)

  taken-IsPositioned : IsPositioned (ring_at to s) → IsPositioned (ring_at to taken)
  taken-IsPositioned =
      SameShape-IsPositioned (ring_at to s) (ring_at to taken)
        (after_write-SameShape from uninitialized i s to)

  taken-HasFiles : HasFiles s → HasFiles taken
  taken-HasFiles files l j uninitialized h = tt
  taken-HasFiles files l j (bucketed v) h = tt
  taken-HasFiles files l j file h = elim (Bool-cases (same_kind from l && i == j)) [
    | inl here ↦ absurd (ground (arith, taken_entry l j, h, here))
    | inr there ↦ files l j file (ground (arith, taken_entry l j, h, there))
  ]

  owners-taken : (b j : ℕ) → owners b j taken + held b j (bucketed w) ≡ owners b j s
  unfolding held
  owners-taken b j =
      let (lt, here, _) = get-eq-some (ring_at from s) i (bucketed w) found in
      omega (
        arith,
        owners-after_write b j from uninitialized i s uninitialized-IsEntry lt,
        ap (held b j) here,
      )

  -- The entry on its way has its slot, as one just allocated would.
  carried :
      (s1 : Allocator) (head : ℕ)
      → IsAccounted s
      → length s.files ≡ num_buckets
      → Emptied to head taken s1
      → Allocated (slot_bytes s1.files w) s1 w s1
  carried s1 head accounted whole emptied =
      let (_, _, proper) = get-eq-some (ring_at from s) i (bucketed w) found in
      record {
        proper = proper;
        rings = λ l. refl;
        directory = refl;
        calm = emptied.calm;
        accounts = λ b j lt.
            ap (λ n. n + held b j (bucketed w)) (emptied.owned b j)
            ∙ owners-taken b j
            ∙ accounted.accounts b j lt
            ∙ rw (emptied.counts);
        lists = emptied.lists;
        counts = ap length emptied.counts ∙ accounted.counts;
        files = ap length emptied.contents ∙ whole;
        stored = refl;
        kept = λ v pos free. refl;
      }

  final-Moved :
      (s1 : Allocator)
      → Emptied to (Ring.write_head (ring_at to taken)) taken s1
      → Added (slot_bytes s1.files w) to taken w (
          put_ring to
            (placed_ring (bucketed w) (Ring.write_head (ring_at to taken)) (ring_at to s1))
            s1)
      → Moved from i to s w (
          put_ring to
            (placed_ring (bucketed w) (Ring.write_head (ring_at to taken)) (ring_at to s1))
            s1)
  final-Moved s1 emptied added =
      let shape = after_write-SameShape from uninitialized i s to in
      record {
        entries = λ l j. ground (arith, added.entries l j, taken_entry l j, shape.head);
        contents = emptied.contents;
        accounted = added.accounted;
        position = added.position;
        head =
            added.head
            ∙ next_head-eq (ring_at to s) (ring_at to taken) (Ring.write_head (ring_at to taken))
                shape.capacity
            ∙ ap (Ring.next_head (ring_at to s)) shape.head;
      }

-- `move_to_front` of an identifier of an entry in a bucket slot, into the ring `to` or by default its
-- own, where the entry is not already the newest of that ring, each slot has one owner, every direct
-- entry has its file, the write head of `to` is where its next entry goes, the free lists waste no
-- more than 65535 bytes once the entry at that write head is given up and no system call fails: it
-- replies with the identifier of the old write head, where the entry now stands, with the slot it
-- had; its old position is empty, unless it is that one; every other entry and every bucket file
-- stays; each slot has one owner; and the write head has moved to the next position.
pub move_to_front-Moved :
    (id : ℕ) (to : Option RingKind) (s : Allocator) (from : RingKind) (i : ℕ) (w : InitializedEntry)
    → s.faults ≡ []
    → get_entry id s ≡ ok (from, i, bucketed w)
    → (same_kind from (unwrap_or to from)
        && Ring.next_head (ring_at from s) i == Ring.write_head (ring_at from s))
      ≡ false
    → IsAccounted s
    → length s.files ≡ num_buckets
    → HasFiles s
    → IsPositioned (ring_at (unwrap_or to from) s)
    → wasted_bytes
        (after_room
          (entry_of
            (after_write from uninitialized i s)
            (unwrap_or to from)
            (Ring.write_head (ring_at (unwrap_or to from) (after_write from uninitialized i s))))
          (unwrap_or to from)
          (Ring.write_head (ring_at (unwrap_or to from) (after_write from uninitialized i s)))
          (after_write from uninitialized i s)).free_lists
      ≤ 0xffff
    → (s' : Allocator) × (move_to_front id to s ≡ (
      ok (ok (composite_id (unwrap_or to from) (Ring.write_head (ring_at (unwrap_or to from) s)))),
      s',
    ))
      × Moved from i (unwrap_or to from) s w s'
unfolding carry
move_to_front-Moved id to s from i w calm g newest accounted whole files position idle =
    let ring = unwrap_or to from in
    let found = get_entry_ok id s from i (bucketed w) g in
    let t = after_write from uninitialized i s in
    let head = Ring.write_head (ring_at ring t) in
    let s1 = after_room (entry_of t ring head) ring head t in
    let emptied = after_room-Emptied ring head t calm accounted.lists in
    let make_entry : ℕ → M Entry = λ at. carry from i (bucketed w) ring at in
    let reply : ℕ → M (Result ℕ IdNotFoundError) = λ at. pure (ok (composite_id ring at)) in
    let s2 = put_ring ring (placed_ring (bucketed w) head (ring_at ring s1)) s1 in
    (
      s2,
      move_run id to s from i w g
          ∙ move_found_steps from i w ring s newest
          ∙ >>-ok (write from uninitialized i) (add_internal ring make_entry >>= reply) s
              (write-after_write from uninitialized i s calm)
          ∙ >>=-ok (add_internal ring make_entry) reply t (
              add_internal-placed ring make_entry t s1 s1 (bucketed w)
                (make_room-after_room ring head t calm (taken-HasFiles from i ring s w found files)
                  idle)
                refl emptied.calm
              ∙ ap (λ u. (ok head, u)) (placed-put_ring ring (bucketed w) head s1))
          ∙ ap (λ n. (ok (ok (composite_id ring n)), s2))
              (after_write-SameShape from uninitialized i s ring).head,
      final-Moved from i ring s w found s1 emptied (
          final-Added (slot_bytes s1.files w) ring t s1 s1 w
            (taken-IsPositioned from i ring s w found position) emptied
            (carried from i ring s w found s1 head accounted whole emptied)),
    )
