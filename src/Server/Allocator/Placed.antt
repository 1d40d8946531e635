-- ===== src/Server/Allocator/Placed.antt =====
-- server/src/allocator.rs: the second half of `add_internal`, which puts the new entry into the ring.
use clipboard_history.Prelude.{
  ℕ, max, zero, suc, ◌+◌, ◌≤◌, ◌<◌, ◌≡◌, ◌⊎◌, refl, ◌∙◌, ap, some, arith, ltb, ◌==◌, if◌then◌else◌,
  inl, inr, Bool-cases, ltb→lt,
}
use clipboard_history.Core.Protocol.{RingKind, favorites, main}
use clipboard_history.Core.InitializedEntry.{max_entries}
use clipboard_history.Core.Entry.{Entry, uninitialized}
use clipboard_history.Core.Entry.Words.{IsEntry}
use clipboard_history.Core.Ring
use clipboard_history.Core.Ring.{Ring}
use clipboard_history.Core.Ring.Walk.{next_head-lt}
use clipboard_history.Prelude.Files.{read_u32}
use clipboard_history.Server.RingWriter
use clipboard_history.Server.RingWriter.Laws.{
  get-slot_entry, slot_entry, slot_entry-write, slot_entry-set_write_head,
  write_head-set_write_head, len-write, len-set_write_head,
}
use clipboard_history.Server.Store.{Allocator, ring_at, put_ring}
use clipboard_history.Server.Store.Laws.{after_write, after_set_head}
use clipboard_history.Server.Slots.Accounts.{
  held, held_below, held_below-write_past, held_below-write, held_below-set_write_head,
}
use clipboard_history.Server.Allocator.{grow_ring}

-- Where the next entry goes: inside the capacity, at the end of a ring that is still growing or
-- anywhere in a full one.
pub record IsPositioned (r : Ring) : Type 0 where
  pub room : r.capacity ≤ max_entries
  pub inside : Ring.write_head r < r.capacity
  pub tail : (Ring.write_head r ≡ r.len) ⊎ (r.len ≡ r.capacity)

abbrev written : Entry → ℕ → Ring → Ring
written e head r = RingWriter.set_write_head (Ring.next_head r head) (RingWriter.write e head r)

-- The ring with the entry at the write head.
unfoldable pub placed_ring : Entry → ℕ → Ring → Ring
placed_ring e head r =
    let q = written e head r in if ltb q.len (head + 1) then Ring.set_len (head + 1) q else q

-- The state behind the last steps of `add_internal`.
abbrev pub placed : RingKind → Entry → ℕ → Allocator → Allocator
placed to e head s =
    let t = after_write to e head s in
    grow_ring to (head + 1) (after_set_head to (Ring.next_head (ring_at to t) head) t)

pub placed-put_ring :
    (to : RingKind) (e : Entry) (head : ℕ) (s : Allocator)
    → placed to e head s ≡ put_ring to (placed_ring e head (ring_at to s)) s
unfolding placed_ring Ring.next_head RingWriter.write
placed-put_ring favorites e head s = ground arith
placed-put_ring main e head s = ground arith

held_below-set_len :
    (b i m : ℕ) (r : Ring) (n : ℕ) → held_below b i (Ring.set_len m r) n ≡ held_below b i r n
unfolding held_below slot_entry Ring.set_len
held_below-set_len b i m r zero = refl
held_below-set_len b i m r (suc n) = omega (arith, held_below-set_len b i m r n)

slot_entry-written :
    (e : Entry) (head : ℕ) (r : Ring) (j : ℕ)
    → IsEntry e
    → slot_entry (written e head r) j ≡ (if head == j then e else slot_entry r j)
slot_entry-written e head r j h =
    slot_entry-set_write_head (Ring.next_head r head) (RingWriter.write e head r) j
    ∙ slot_entry-write e head r j h

len-written : (e : Entry) (head : ℕ) (r : Ring) → (written e head r).len ≡ r.len
len-written e head r =
    len-set_write_head (Ring.next_head r head) (RingWriter.write e head r) ∙ len-write e head r

placed_inside :
    (e : Entry) (head : ℕ) (r : Ring) → head < r.len → placed_ring e head r ≡ written e head r
unfolding placed_ring
placed_inside e head r h = ground (arith, len-written e head r)

placed_end :
    (e : Entry) (head : ℕ) (r : Ring)
    → head ≡ r.len
    → placed_ring e head r ≡ Ring.set_len (head + 1) (written e head r)
unfolding placed_ring
placed_end e head r h = ground (arith, len-written e head r)

held_inside :
    (b i : ℕ) (e : Entry) (head : ℕ) (r : Ring)
    → IsEntry e
    → head < r.len
    → slot_entry r head ≡ uninitialized
    → held_below b i (written e head r) (written e head r).len ≡ held_below b i r r.len + held b i e
held_inside b i e head r h lt vacant =
    let none_held : held b i (slot_entry r head) ≡ 0 = ap (held b i) vacant ∙ unfold held in refl in
    ap (held_below b i (written e head r)) (len-written e head r)
    ∙ omega (
      arith,
      held_below-set_write_head b i (Ring.next_head r head) (RingWriter.write e head r) r.len,
      held_below-write b i e head r r.len h lt,
      none_held,
    )

held_end :
    (b i : ℕ) (e : Entry) (head : ℕ) (r : Ring)
    → IsEntry e
    → head ≡ r.len
    → held_below b i (Ring.set_len (head + 1) (written e head r)) (suc head)
      ≡ held_below b i r head + held b i e
held_end b i e head r h end =
    let stands : slot_entry (written e head r) head ≡ e =
      ground (arith, slot_entry-written e head r head h) in
    held_below-set_len b i (head + 1) (written e head r) (suc head)
    ∙ last
    ∙ rw (stands) (
        omega (
          arith,
          held_below-set_write_head b i (Ring.next_head r head) (RingWriter.write e head r) head,
          held_below-write_past b i e head r head h (omega arith),
        ))
  where
    last :
        held_below b i (written e head r) (suc head)
        ≡ held b i (slot_entry (written e head r) head) + held_below b i (written e head r) head
    last = unfold held_below in refl

len-set_len : (m : ℕ) (r : Ring) → (Ring.set_len m r).len ≡ m
unfolding Ring.set_len
len-set_len m r = refl

-- The entry replaces a vacant one or is appended.
pub held_below-placed_ring :
    (b i : ℕ) (e : Entry) (head : ℕ) (r : Ring)
    → IsEntry e
    → head ≤ r.len
    → (head < r.len → slot_entry r head ≡ uninitialized)
    → held_below b i (placed_ring e head r) (placed_ring e head r).len
      ≡ held_below b i r r.len + held b i e
held_below-placed_ring b i e head r h le vacant = elim (Bool-cases (ltb head r.len)) [
  | inl inside ↦
      let lt : head < r.len = ltb→lt head r.len inside in
      rw (placed_inside e head r lt) (held_inside b i e head r h lt (vacant lt))
  | inr ending ↦
      let end : head ≡ r.len = ground arith in
      rw (placed_end e head r end) (
        ap (held_below b i (Ring.set_len (head + 1) (written e head r)))
          (len-set_len (head + 1) (written e head r) ∙ omega arith)
        ∙ held_end b i e head r h end
        ∙ ap (λ n. held_below b i r n + held b i e) end)
]

-- The ring has the entry at the write head and its other entries as before.
pub get-placed_ring :
    (e : Entry) (head : ℕ) (r : Ring) (j : ℕ)
    → IsEntry e
    → head ≤ r.len
    → Ring.get (placed_ring e head r) j ≡ (if head == j then some e else Ring.get r j)
get-placed_ring e head r j h le = elim (Bool-cases (ltb head r.len)) [
  | inl inside ↦ rw (placed_inside e head r (ltb→lt head r.len inside)) (
      ground (
        arith,
        get-slot_entry (written e head r) j,
        get-slot_entry r j,
        slot_entry-written e head r j h,
        len-written e head r,
      ))
  | inr ending ↦
      let end : head ≡ r.len = ground arith in
      rw (placed_end e head r end) (
        ground (
          arith,
          get-slot_entry (Ring.set_len (head + 1) (written e head r)) j,
          slot_entry-set_len (head + 1) (written e head r) j,
          len-set_len (head + 1) (written e head r),
          get-slot_entry r j,
          slot_entry-written e head r j h,
        ))
]
  where
    slot_entry-set_len :
        (m : ℕ) (q : Ring) (j : ℕ) → slot_entry (Ring.set_len m q) j ≡ slot_entry q j
    slot_entry-set_len m q j = unfold slot_entry in unfold Ring.set_len in refl

capacity-written : (e : Entry) (head : ℕ) (r : Ring) → (written e head r).capacity ≡ r.capacity
unfolding RingWriter.set_write_head RingWriter.write
capacity-written e head r = refl

placed_sizes :
    (e : Entry) (head : ℕ) (r : Ring)
    → (Ring.write_head (placed_ring e head r) ≡ Ring.write_head (written e head r))
      × ((placed_ring e head r).capacity ≡ r.capacity)
      × ((placed_ring e head r).len ≡ max r.len (head + 1))
unfolding Ring.set_len Ring.write_head placed_ring read_u32
placed_sizes e head r = elim (Bool-cases (ltb (written e head r).len (head + 1))) [
  | inl short ↦
      rw (short, placed_ring)
        (refl, capacity-written e head r, ground (arith, len-written e head r))
  | inr enough ↦
      rw (enough, placed_ring)
        (refl, capacity-written e head r, ground (arith, len-written e head r))
]

next_tail :
    (r : Ring) (head : ℕ)
    → head < r.capacity
    → (head ≡ r.len) ⊎ (r.len ≡ r.capacity)
    → (Ring.next_head r head ≡ max r.len (head + 1)) ⊎ (max r.len (head + 1) ≡ r.capacity)
unfolding Ring.next_head
next_tail r head inside (inl end) = ground arith
next_tail r head inside (inr full) = inr (omega arith)

-- The write head moves on, round the end of the capacity, and the ring is again as it should be.
pub placed_ring-IsPositioned :
    (e : Entry) (r : Ring)
    → IsPositioned r
    → (Ring.write_head (placed_ring e (Ring.write_head r) r) ≡ Ring.next_head r (Ring.write_head r))
      × IsPositioned (placed_ring e (Ring.write_head r) r)
placed_ring-IsPositioned e r position =
    let head = Ring.write_head r in
    let (same, cap, len) = placed_sizes e head r in
    let lt : Ring.next_head r head < r.capacity =
      next_head-lt r head (omega (arith, position.inside)) in
    let moved : Ring.write_head (placed_ring e head r) ≡ Ring.next_head r head =
      same
      ∙ write_head-set_write_head (Ring.next_head r head) (RingWriter.write e head r)
          (omega (arith, lt, position.room)) in
    (
      moved,
      record {
        room = omega (arith, cap, position.room);
        inside = omega (arith, moved, lt, cap);
        tail = grind (arith, moved, len, cap, next_tail r head position.inside position.tail);
      },
    )
