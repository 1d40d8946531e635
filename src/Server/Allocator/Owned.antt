-- ===== src/Server/Allocator/Owned.antt =====
-- Who owns the slot of an entry that a ring has, and of one that is put into it.
use clipboard_history.Prelude.{
  ℕ, zero, suc, ◌+◌, ◌≤◌, ◌<◌, ◌≡◌, refl, ap, some, arith, ◌==◌, if◌then◌else◌, inl, inr,
  Bool-cases,
}
use clipboard_history.Core.Protocol.{RingKind, favorites, main, same_kind}
use clipboard_history.Core.InitializedEntry
use clipboard_history.Core.InitializedEntry.{InitializedEntry, max_entries}
use clipboard_history.Core.Entry.{Entry, bucketed, uninitialized}
use clipboard_history.Core.Entry.Words.{IsEntry}
use clipboard_history.Core.Buckets.Contents.{bucket_of}
use clipboard_history.Core.Ring
use clipboard_history.Core.Ring.{Ring}
use clipboard_history.Server.RingWriter.Laws.{get-eq-some, slot_entry}
use clipboard_history.Server.Store.{Allocator, ring_at, put_ring}
use clipboard_history.Server.Store.Laws.{entry_of}
use clipboard_history.Server.Slots.Accounts.{owners, held, held_below}
use clipboard_history.Server.Allocator.Placed.{placed_ring, held_below-placed_ring}

held_below-held :
    (b i : ℕ) (r : Ring) (n j : ℕ) → j < n → held b i (slot_entry r j) ≤ held_below b i r n
unfolding held_below
held_below-held b i r zero j lt = absurd (omega arith)
held_below-held b i r (suc n) j lt = elim (Bool-cases (j == n)) [
  | inl same ↦ let e : j ≡ n = ground arith in rw e (omega arith)
  | inr other ↦ let lt' : j < n = ground arith in omega (arith, held_below-held b i r n j lt')
]

held_self : (v : InitializedEntry) → held (bucket_of v) (InitializedEntry.index v) (bucketed v) ≡ 1
unfolding held
held_self v = ground arith

-- An entry of a ring owns its slot.
pub owners-entry :
    (l : RingKind) (j : ℕ) (v : InitializedEntry) (s : Allocator)
    → entry_of s l j ≡ some (bucketed v)
    → 1 ≤ owners (bucket_of v) (InitializedEntry.index v) s
unfolding owners
owners-entry favorites j v s h =
    let (lt, here, _) = get-eq-some s.favorites_ring j (bucketed v) h in
    let b = bucket_of v in
    let i = InitializedEntry.index v in
    omega (
      arith,
      held_below-held b i s.favorites_ring s.favorites_ring.len j lt,
      ap (held b i) here,
      held_self v,
    )
owners-entry main j v s h =
    let (lt, here, _) = get-eq-some s.main_ring j (bucketed v) h in
    let b = bucket_of v in
    let i = InitializedEntry.index v in
    omega
      (arith, held_below-held b i s.main_ring s.main_ring.len j lt, ap (held b i) here, held_self v)

pub entry_of-put_ring :
    (k : RingKind) (p : Ring) (s : Allocator) (l : RingKind) (j : ℕ)
    → entry_of (put_ring k p s) l j ≡ (if same_kind k l then Ring.get p j else entry_of s l j)
entry_of-put_ring favorites p s favorites j = refl
entry_of-put_ring favorites p s main j = refl
entry_of-put_ring main p s favorites j = refl
entry_of-put_ring main p s main j = refl

pub next_head-eq :
    (r r' : Ring) (n : ℕ) → r'.capacity ≡ r.capacity → Ring.next_head r' n ≡ Ring.next_head r n
unfolding Ring.next_head
next_head-eq r r' n h = ground arith

pub ring_at-put_ring : (k : RingKind) (p : Ring) (s : Allocator) → ring_at k (put_ring k p s) ≡ p
ring_at-put_ring favorites p s = refl
ring_at-put_ring main p s = refl

-- Putting an entry at the write head gives its slot one owner more.
pub owners-put_ring :
    (b i : ℕ) (to : RingKind) (e : Entry) (head : ℕ) (s : Allocator)
    → IsEntry e
    → head ≤ (ring_at to s).len
    → (head < (ring_at to s).len → slot_entry (ring_at to s) head ≡ uninitialized)
    → owners b i (put_ring to (placed_ring e head (ring_at to s)) s) ≡ owners b i s + held b i e
unfolding owners
owners-put_ring b i favorites e head s h le vacant =
    omega (arith, held_below-placed_ring b i e head s.favorites_ring h le vacant)
owners-put_ring b i main e head s h le vacant =
    omega (arith, held_below-placed_ring b i e head s.main_ring h le vacant)
