-- ===== src/Server/Allocator/Remove.antt =====
-- server/src/allocator.rs: `Allocator::remove` and `AllocatorData::free`.
use clipboard_history.Prelude.{
  ℕ, ◌+◌, ◌≡◌, ◌≢◌, refl, ◌∙◌, ap, ◌&&◌, none, some, [], ok, length, arith, ◌==◌, if◌then◌else◌,
  ◌++◌, ◌∷◌, length-set,
}
use clipboard_history.Core.Protocol.{RingKind, same_kind}
use clipboard_history.Core.InitializedEntry
use clipboard_history.Core.Ring
use clipboard_history.Core.Entry.{Entry, uninitialized, bucketed, file}
use clipboard_history.Core.Entry.Words.{IsEntry}
use clipboard_history.Core.FileName.{direct_file_name}
use clipboard_history.Core.Buckets.{num_buckets, size_to_bucket}
use clipboard_history.Server.RingWriter.Laws.{get-eq-some}
use clipboard_history.Server.Store.{
  Allocator, DirectFile, pure, ◌>>◌, link, ring_at, write, unlink_direct,
}
use clipboard_history.Server.Store.Laws.{
  entry_of, after_write, write-after_write, >>-ok, syscall-ok, entry_of-after_write, link_found,
}
use clipboard_history.Server.Slots.{free_list, free, free_direct, free_slot}
use clipboard_history.Server.Slots.Accounts.{
  IsAccounted, owners, held, owners-after_write, owners-free_slot, bucket_of-lt,
}
use clipboard_history.Server.Allocator.{get_entry, remove, remove_found}
use clipboard_history.Server.Allocator.Swap.{get_entry_ok}
use clipboard_history.Server.Allocator.Files.{HasFile}

-- The state behind `free`.
unfoldable pub after_free : Entry → RingKind → ℕ → Allocator → Allocator
after_free uninitialized k i s = s
after_free (bucketed e) k i s =
    free_slot (size_to_bucket (InitializedEntry.size e)) (InitializedEntry.index e) s
after_free file k i s = record s { direct_dir = link (direct_file_name k i) none s.direct_dir }

free_direct_ok :
    (k : RingKind) (i : ℕ) (s : Allocator) (f : DirectFile)
    → s.faults ≡ []
    → s.direct_dir (direct_file_name k i) ≡ some f
    → free_direct k i s ≡ (ok tt, after_free file k i s)
unfolding free_direct after_free
free_direct_ok k i s f calm h = ground (arith, syscall-ok unlink_direct s calm)

pub free-after_free :
    (e : Entry) (k : RingKind) (i : ℕ) (s : Allocator)
    → s.faults ≡ []
    → HasFile s k i e
    → free e k i s ≡ (ok tt, after_free e k i s)
unfolding free after_free
free-after_free uninitialized k i s calm h = refl
free-after_free (bucketed e) k i s calm h = refl
free-after_free file k i s calm (f, h) = unfold after_free in free_direct_ok k i s f calm h

-- Freeing an entry gives its slot to the free list.
pub owners-after_free :
    (b i : ℕ) (e : Entry) (k : RingKind) (id : ℕ) (s : Allocator)
    → IsEntry e
    → length s.free_lists ≡ num_buckets
    → owners b i (after_free e k id s) ≡ owners b i s + held b i e
unfolding after_free held
owners-after_free b i uninitialized k id s h n = omega arith
owners-after_free b i (bucketed e) k id s h n = omega (
  arith,
  owners-free_slot b i (size_to_bucket (InitializedEntry.size e)) (InitializedEntry.index e) s
      (omega (arith, bucket_of-lt e h.0)),
)
owners-after_free b i file k id s h n = unfold owners in omega arith

remove_run :
    (id : ℕ) (s : Allocator) (k : RingKind) (i : ℕ) (e : Entry)
    → get_entry id s ≡ ok (k, i, e)
    → remove id s ≡ remove_found k i e s
unfolding remove
remove_run id s k i e g = ground arith

remove_found_steps :
    (k : RingKind) (i : ℕ) (e : Entry) (s : Allocator)
    → e ≢ uninitialized
    → remove_found k i e s ≡ (write k uninitialized i >> (free e k i >> pure none)) s
unfolding remove_found
remove_found_steps k i uninitialized s h = absurd (h refl)
remove_found_steps k i (bucketed w) s h = refl
remove_found_steps k i file s h = refl

-- What `free` leaves: the rings, the bucket files and their slot counts, and the number of free
-- lists.
pub record Freed (s s' : Allocator) : Type 0 where
  pub rings : (l : RingKind) → ring_at l s' ≡ ring_at l s
  pub counts : s'.slot_counts ≡ s.slot_counts
  pub lists : length s'.free_lists ≡ length s.free_lists
  pub contents : s'.files ≡ s.files
  pub faults : s'.faults ≡ s.faults

pub after_free-Freed :
    (e : Entry) (k : RingKind) (i : ℕ) (s : Allocator) → Freed s (after_free e k i s)
unfolding after_free
after_free-Freed uninitialized k i s = record {
  rings = λ l. refl;
  counts = refl;
  lists = refl;
  contents = refl;
  faults = refl;
}
after_free-Freed file k i s = record {
  rings = λ l. refl;
  counts = refl;
  lists = refl;
  contents = refl;
  faults = refl;
}
after_free-Freed (bucketed e) k i s = record {
  rings = λ l. refl;
  counts = refl;
  lists =
      length-set s.free_lists (size_to_bucket (InitializedEntry.size e))
        (free_list (size_to_bucket (InitializedEntry.size e)) s ++ (InitializedEntry.index e ∷ []));
  contents = refl;
  faults = refl;
}

-- The file of a direct entry has lost its name.
abbrev pub Unlinked : Allocator → RingKind → ℕ → Entry → Type 0
Unlinked s k i file = s.direct_dir (direct_file_name k i) ≡ none
Unlinked s k i uninitialized = Unit {0}
Unlinked s k i (bucketed e) = Unit {0}

after_free-Unlinked :
    (e : Entry) (k : RingKind) (i : ℕ) (s : Allocator) → Unlinked (after_free e k i s) k i e
unfolding after_free
after_free-Unlinked uninitialized k i s = tt
after_free-Unlinked (bucketed e) k i s = tt
after_free-Unlinked file k i s =
    (link_found (direct_file_name k i) (direct_file_name k i) none s.direct_dir).0 refl

-- What `remove` leaves: the position is empty and its file gone, every other entry and every bucket
-- file stays, and each slot still has its one owner.
pub record Removed (s s' : Allocator) (k : RingKind) (i : ℕ) (e : Entry) : Type 0 where
  pub entries :
      (l : RingKind) (j : ℕ)
      → entry_of s' l j ≡ (if same_kind k l && i == j then some uninitialized else entry_of s l j)
  pub unlinked : Unlinked s' k i e
  pub contents : s'.files ≡ s.files
  pub accounted : IsAccounted s'

pub uninitialized-IsEntry : IsEntry uninitialized
uninitialized-IsEntry = tt

module _ (s : Allocator) (k : RingKind) (i : ℕ) (e : Entry) (at : entry_of s k i ≡ some e)
    (lists : length s.free_lists ≡ num_buckets) where
  abbrev emptied : Allocator
  emptied = after_write k uninitialized i s

  pub removed_owners : (b j : ℕ) → owners b j (after_free e k i emptied) ≡ owners b j s
  unfolding held
  removed_owners b j =
      let (lt, here, proper) = get-eq-some (ring_at k s) i e at in
      omega (
        arith,
        owners-after_write b j k uninitialized i s uninitialized-IsEntry lt,
        owners-after_free b j e k i emptied proper lists,
        ap (held b j) here,
      )

  pub removed_entry :
      (l : RingKind) (j : ℕ)
      → entry_of (after_free e k i emptied) l j
        ≡ (if same_kind k l && i == j then some uninitialized else entry_of s l j)
  removed_entry l j =
      let (lt, _, _) = get-eq-some (ring_at k s) i e at in
      ap (λ r. Ring.get r j) ((after_free-Freed e k i emptied).rings l)
      ∙ ground (arith, entry_of-after_write k uninitialized i s l j uninitialized-IsEntry, lt)

  pub after_free-Removed : IsAccounted s → Removed s (after_free e k i emptied) k i e
  after_free-Removed accounted =
      let freed = after_free-Freed e k i emptied in
      record {
        entries = removed_entry;
        unlinked = after_free-Unlinked e k i emptied;
        contents = freed.contents;
        accounted = record {
          accounts = λ b j lt. removed_owners b j ∙ accounted.accounts b j lt ∙ rw (freed.counts);
          lists = freed.lists ∙ accounted.lists;
          counts = ap length freed.counts ∙ accounted.counts;
        };
      }

-- `remove` of an identifier of an entry in use, where each slot has one owner, a direct entry has its
-- file and no system call fails, reports no error, empties the position, unlinks the file, leaves
-- every other entry and the bucket files alone, and gives the slot back: each slot has one owner
-- again.
pub remove_empties :
    (id : ℕ) (s : Allocator) (k : RingKind) (i : ℕ) (e : Entry)
    → s.faults ≡ []
    → get_entry id s ≡ ok (k, i, e)
    → e ≢ uninitialized
    → HasFile s k i e
    → IsAccounted s
    → (s' : Allocator) × (remove id s ≡ (ok none, s')) × Removed s s' k i e
remove_empties id s k i e calm g used f accounted =
    let emptied = after_write k uninitialized i s in
    (
      after_free e k i emptied,
      remove_run id s k i e g
          ∙ remove_found_steps k i e s used
          ∙ >>-ok (write k uninitialized i) (free e k i >> pure none) s
              (write-after_write k uninitialized i s calm)
          ∙ >>-ok (free e k i) (pure none) emptied (free-after_free e k i emptied calm (has e f)),
      after_free-Removed s k i e (get_entry_ok id s k i e g) accounted.lists accounted,
    )
  where
    has : (e : Entry) → HasFile s k i e → HasFile (after_write k uninitialized i s) k i e
    has file h = h
    has uninitialized h = h
    has (bucketed w) h = h
