-- ===== src/Server/Allocator/Emptied.antt =====
-- server/src/allocator.rs: what `add_internal` finds once the write head has been cleared.
use clipboard_history.Prelude.{
  ℕ, ◌<◌, ◌≡◌, ◌≢◌, refl, sym, ◌∙◌, ap, false, ◌&&◌, none, some, [], arith, ◌==◌, inl, inr,
  Option-cases, length,
}
use mathlib.Core.Path.{subst}
use clipboard_history.Core.Protocol.{RingKind, favorites, main, same_kind}
use clipboard_history.Core.Entry.{Entry, uninitialized, file, bucketed}
use clipboard_history.Core.Ring
use clipboard_history.Core.Ring.{Ring}
use clipboard_history.Server.RingWriter
use clipboard_history.Server.RingWriter.Laws.{
  get-slot_entry, slot_entry, slot_entry-write, write_head-write,
}
use clipboard_history.Server.Store.{Allocator, ring_at}
use clipboard_history.Server.Store.Laws.{entry_of, after_write, link_found}
use clipboard_history.Prelude.Files.{Bytes}
use clipboard_history.Core.FileName.{direct_file_name}
use clipboard_history.Server.Slots.Accounts.{owners}
use clipboard_history.Core.Buckets.{num_buckets}
use clipboard_history.Server.Allocator.Remove.{
  after_free, Freed, after_free-Freed, removed_owners, removed_entry, uninitialized-IsEntry,
}
use clipboard_history.Server.Allocator.Room.{after_room}

-- The parts of a ring that tell where the next entry goes.
pub record SameShape (r r' : Ring) : Type 0 where
  pub len : r'.len ≡ r.len
  pub capacity : r'.capacity ≡ r.capacity
  pub head : Ring.write_head r' ≡ Ring.write_head r

-- A cleared write head: the position has no entry, each slot has the owners it had, and the rest is as it
-- was.
pub record Emptied (to : RingKind) (head : ℕ) (s s' : Allocator) : Type 0 where
  pub vacant : head < (ring_at to s').len → slot_entry (ring_at to s') head ≡ uninitialized
  pub shape : (l : RingKind) → SameShape (ring_at l s) (ring_at l s')
  pub others :
      (l : RingKind) (j : ℕ)
      → (same_kind to l && head == j) ≡ false
      → entry_of s' l j ≡ entry_of s l j
  pub owned : (b j : ℕ) → owners b j s' ≡ owners b j s
  pub lists : length s'.free_lists ≡ num_buckets
  pub counts : s'.slot_counts ≡ s.slot_counts
  pub contents : s'.files ≡ s.files
  pub directory : (n : Bytes) → direct_file_name to head ≢ n → s'.direct_dir n ≡ s.direct_dir n
  pub calm : s'.faults ≡ []

pub after_write-SameShape :
    (k : RingKind) (e : Entry) (i : ℕ) (s : Allocator) (l : RingKind)
    → SameShape (ring_at l s) (ring_at l (after_write k e i s))
unfolding RingWriter.write
after_write-SameShape favorites e i s favorites = record {
  len = refl;
  capacity = refl;
  head = unfold RingWriter.write in write_head-write e i s.favorites_ring;
}
after_write-SameShape favorites e i s main = record { len = refl; capacity = refl; head = refl }
after_write-SameShape main e i s favorites = record { len = refl; capacity = refl; head = refl }
after_write-SameShape main e i s main = record {
  len = refl;
  capacity = refl;
  head = unfold RingWriter.write in write_head-write e i s.main_ring;
}

after_free-SameShape :
    (s t u : Allocator) (l : RingKind)
    → Freed t u
    → SameShape (ring_at l s) (ring_at l t)
    → SameShape (ring_at l s) (ring_at l u)
after_free-SameShape s t u l freed shape = record {
  len = ap (λ (r : Ring). r.len) (freed.rings l) ∙ shape.len;
  capacity = ap (λ (r : Ring). r.capacity) (freed.rings l) ∙ shape.capacity;
  head = ap Ring.write_head (freed.rings l) ∙ shape.head;
}

slot_entry-cleared :
    (k : RingKind) (i : ℕ) (s : Allocator)
    → slot_entry (ring_at k (after_write k uninitialized i s)) i ≡ uninitialized
slot_entry-cleared favorites i s =
    ground (arith, slot_entry-write uninitialized i s.favorites_ring i uninitialized-IsEntry)
slot_entry-cleared main i s =
    ground (arith, slot_entry-write uninitialized i s.main_ring i uninitialized-IsEntry)

after_free-other_files :
    (e : Entry) (k : RingKind) (i : ℕ) (s : Allocator) (n : Bytes)
    → direct_file_name k i ≢ n
    → (after_free e k i s).direct_dir n ≡ s.direct_dir n
unfolding after_free
after_free-other_files uninitialized k i s n apart = refl
after_free-other_files (bucketed e) k i s n apart = refl
after_free-other_files file k i s n apart =
    (link_found (direct_file_name k i) n none s.direct_dir).1 apart

some-Emptied :
    (e : Entry) (to : RingKind) (head : ℕ) (s : Allocator)
    → s.faults ≡ []
    → length s.free_lists ≡ num_buckets
    → entry_of s to head ≡ some e
    → Emptied to head s (after_room (some e) to head s)
some-Emptied e to head s calm lists at =
    let t = after_write to uninitialized head s in
    let u = after_free e to head t in
    let freed = after_free-Freed e to head t in
    record {
      vacant = λ lt. ap (λ r. slot_entry r head) (freed.rings to) ∙ slot_entry-cleared to head s;
      shape =
          λ l. after_free-SameShape s t u l freed (after_write-SameShape to uninitialized head s l);
      others = λ l j h. removed_entry s to head e at lists l j ∙ rw h refl;
      owned = removed_owners s to head e at lists;
      lists = freed.lists ∙ lists;
      counts = freed.counts;
      contents = freed.contents;
      directory = after_free-other_files e to head t;
      calm = freed.faults ∙ calm;
    }

none-Emptied :
    (to : RingKind) (head : ℕ) (s : Allocator)
    → s.faults ≡ []
    → length s.free_lists ≡ num_buckets
    → entry_of s to head ≡ none
    → Emptied to head s s
none-Emptied to head s calm lists at = record {
  vacant = λ lt. absurd (ground (arith, get-slot_entry (ring_at to s) head));
  shape = λ l. record { len = refl; capacity = refl; head = refl };
  others = λ l j h. refl;
  owned = λ b j. refl;
  lists = lists;
  counts = refl;
  contents = refl;
  directory = λ n apart. refl;
  calm = calm;
}

pub after_room-Emptied :
    (to : RingKind) (head : ℕ) (s : Allocator)
    → s.faults ≡ []
    → length s.free_lists ≡ num_buckets
    → Emptied to head s (after_room (entry_of s to head) to head s)
after_room-Emptied to head s calm lists = elim (Option-cases (entry_of s to head)) [
  | inl h ↦
      subst (λ f. Emptied to head s (after_room f to head s)) (sym h)
        (none-Emptied to head s calm lists h)
  | inr (e, h) ↦
      subst (λ f. Emptied to head s (after_room f to head s)) (sym h)
        (some-Emptied e to head s calm lists h)
]
