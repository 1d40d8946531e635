-- ===== src/Server/Allocator/Swap.antt =====
-- server/src/allocator.rs: what `Allocator::swap` exchanges.
use clipboard_history.Prelude.{
  ℕ, ◌<◌, ◌≡◌, ◌≢◌, ◌⊎◌, inl, inr, refl, ◌∙◌, ap, true, ◌&&◌, none, some, [], ok, arith, ◌==◌,
  if◌then◌else◌, Bool-cases,
}
use clipboard_history.Core.Protocol.{RingKind, same_kind}
use clipboard_history.Core.Entry.{Entry, uninitialized, bucketed, file}
use clipboard_history.Core.Entry.Words.{IsEntry}
use clipboard_history.Server.RingWriter.Laws.{get-eq-some}
use clipboard_history.Server.Store.{Allocator, Directory, M, pure, ◌>>◌, ring_at, write}
use clipboard_history.Server.Store.Laws.{
  entry_of, after_write, write-after_write, >>-ok, entry_of-after_write, len-after_write,
  same_kind_iff,
}
use clipboard_history.Server.Slots.Accounts.{IsAccounted, owners, held, owners-after_write}
use clipboard_history.Server.Allocator.{
  get_entry, swap_files, swap_found, swap, swap_response, SwapResponse,
}
use clipboard_history.Server.Allocator.Files.{HasFile, FilesMoved, swap_files_ok}

-- The state after both writes.
abbrev both_written : RingKind → ℕ → Entry → RingKind → ℕ → Entry → Allocator → Allocator
both_written k1 i1 e1 k2 i2 e2 s = after_write k2 e1 i2 (after_write k1 e2 i1 s)

-- `swap_found`, once one of the entries is in use.
swap_found_steps :
    (k1 : RingKind) (i1 : ℕ) (e1 : Entry) (k2 : RingKind) (i2 : ℕ) (e2 : Entry) (s : Allocator)
    → (e1 ≢ uninitialized) ⊎ (e2 ≢ uninitialized)
    → swap_found k1 i1 e1 k2 i2 e2 s
      ≡ (write k1 e2 i1
            >> (write k2 e1 i2 >> (swap_files k1 i1 e1 k2 i2 e2 >> pure (swap_response none none))))
          s
unfolding swap_found
swap_found_steps k1 i1 uninitialized k2 i2 uninitialized s (inl h) = absurd (h refl)
swap_found_steps k1 i1 uninitialized k2 i2 uninitialized s (inr h) = absurd (h refl)
swap_found_steps k1 i1 uninitialized k2 i2 (bucketed w) s h = refl
swap_found_steps k1 i1 uninitialized k2 i2 file s h = refl
swap_found_steps k1 i1 (bucketed w) k2 i2 e2 s h = refl
swap_found_steps k1 i1 file k2 i2 e2 s h = refl

-- What `swap` leaves: the entries have changed places, with their files, and nothing else is
-- touched: each slot still has its one owner.
pub record Exchanged (s s' : Allocator) (k1 : RingKind) (i1 : ℕ) (e1 : Entry) (k2 : RingKind)
    (i2 : ℕ) (e2 : Entry) : Type 0 where
  pub entries :
      (l : RingKind) (j : ℕ)
      → entry_of s' l j ≡ (
          if same_kind k1 l && i1 == j
          then some e2
          else if same_kind k2 l && i2 == j
          then some e1
          else entry_of s l j)
  pub moved : FilesMoved k1 i1 e1 k2 i2 e2 s.direct_dir s'.direct_dir
  pub accounted : IsAccounted s'
  pub slots : s'.free_lists ≡ s.free_lists
  pub counts : s'.slot_counts ≡ s.slot_counts
  pub contents : s'.files ≡ s.files

-- What `get_entry` finds stands in the ring.
pub get_entry_ok :
    (id : ℕ) (s : Allocator) (k : RingKind) (i : ℕ) (e : Entry)
    → get_entry id s ≡ ok (k, i, e)
    → entry_of s k i ≡ some e
unfolding get_entry
get_entry_ok id s k i e h = ground arith

module _ (s : Allocator) (k1 : RingKind) (i1 : ℕ) (e1 : Entry) (k2 : RingKind) (i2 : ℕ) (e2 : Entry)
    (calm : s.faults ≡ []) (at1 : entry_of s k1 i1 ≡ some e1) (at2 : entry_of s k2 i2 ≡ some e2)
    (accounted : IsAccounted s) where
  abbrev written : Allocator
  written = both_written k1 i1 e1 k2 i2 e2 s

  inside1 : (i1 < (ring_at k1 s).len) × IsEntry e1
  inside1 = let (lt, _, proper) = get-eq-some (ring_at k1 s) i1 e1 at1 in (lt, proper)

  inside2 : (i2 < (ring_at k2 s).len) × IsEntry e2
  inside2 = let (lt, _, proper) = get-eq-some (ring_at k2 s) i2 e2 at2 in (lt, proper)

  entry_of-written :
      (l : RingKind) (j : ℕ)
      → entry_of written l j ≡ (
          if same_kind k2 l && i2 == j
          then some e1
          else if same_kind k1 l && i1 == j
          then some e2
          else entry_of s l j)
  entry_of-written l j = ground (
    arith,
    entry_of-after_write k2 e1 i2 (after_write k1 e2 i1 s) l j inside1.1,
    entry_of-after_write k1 e2 i1 s l j inside2.1,
    len-after_write k1 e2 i1 s k2,
    inside1.0,
    inside2.0,
  )

  -- One position given twice holds one entry.
  meet :
      (l : RingKind) (j : ℕ)
      → (same_kind k1 l && i1 == j) ≡ true
      → (same_kind k2 l && i2 == j) ≡ true
      → e1 ≡ e2
  meet l j h h' =
      let same1 : k1 ≡ l = (same_kind_iff k1 l).0 (ground arith) in
      let same2 : k2 ≡ l = (same_kind_iff k2 l).0 (ground arith) in
      let here1 : i1 ≡ j = ground arith in
      let here2 : i2 ≡ j = ground arith in cc (same1, same2, here1, here2, at1, at2)

  owners-written : (b j : ℕ) → owners b j written ≡ owners b j s
  owners-written b j =
      let half = after_write k1 e2 i1 s in
      let stands : entry_of half k2 i2 ≡ some e2 =
        ground (arith, entry_of-after_write k1 e2 i1 s k2 i2 inside2.1, at2, inside1.0) in
      let (lt, here, _) = get-eq-some (ring_at k2 half) i2 e2 stands in
      let (_, here1, _) = get-eq-some (ring_at k1 s) i1 e1 at1 in
      omega (
        arith,
        owners-after_write b j k1 e2 i1 s inside2.1 inside1.0,
        owners-after_write b j k2 e1 i2 half inside1.1 lt,
        ap (held b j) here,
        ap (held b j) here1,
      )

  written-Exchanged :
      (dir : Directory)
      → FilesMoved k1 i1 e1 k2 i2 e2 s.direct_dir dir
      → Exchanged s (record written { direct_dir = dir }) k1 i1 e1 k2 i2 e2
  unfolding owners
  written-Exchanged dir moved = record {
    entries = λ l j. elim (Bool-cases (same_kind k1 l && i1 == j)) [
      | inr h ↦ entry_of-written l j ∙ rw (h)
      | inl h ↦ elim (Bool-cases (same_kind k2 l && i2 == j)) [
        | inr h' ↦ entry_of-written l j ∙ rw (h, h')
        | inl h' ↦ entry_of-written l j ∙ rw (h, h', meet l j h h')
      ]
    ];
    moved = moved;
    accounted = record {
      accounts = λ b j lt. owners-written b j ∙ accounted.accounts b j lt;
      lists = accounted.lists;
      counts = accounted.counts;
    };
    slots = refl;
    counts = refl;
    contents = refl;
  }

swap_run :
    (id1 id2 : ℕ) (s : Allocator) (k1 k2 : RingKind) (i1 i2 : ℕ) (e1 e2 : Entry)
    → get_entry id1 s ≡ ok (k1, i1, e1)
    → get_entry id2 s ≡ ok (k2, i2, e2)
    → swap id1 id2 s ≡ swap_found k1 i1 e1 k2 i2 e2 s
unfolding swap
swap_run id1 id2 s k1 k2 i1 i2 e1 e2 g1 g2 = ground arith

-- `swap` of two identifiers that are found, one of them of an entry in use, where every direct
-- entry has its file, each slot has one owner and no system call fails: it reports no error and
-- exchanges the two entries together with their files; every other entry and the bucket files stay
-- as they were, and each slot has one owner.
pub swap_exchanges :
    (id1 id2 : ℕ) (s : Allocator) (k1 k2 : RingKind) (i1 i2 : ℕ) (e1 e2 : Entry)
    → s.faults ≡ []
    → get_entry id1 s ≡ ok (k1, i1, e1)
    → get_entry id2 s ≡ ok (k2, i2, e2)
    → (e1 ≢ uninitialized) ⊎ (e2 ≢ uninitialized)
    → HasFile s k1 i1 e1
    → HasFile s k2 i2 e2
    → IsAccounted s
    → (s' : Allocator) × (swap id1 id2 s ≡ (ok (swap_response none none), s'))
      × Exchanged s s' k1 i1 e1 k2 i2 e2
swap_exchanges id1 id2 s k1 k2 i1 i2 e1 e2 calm g1 g2 used f1 f2 accounted =
    let t = both_written k1 i1 e1 k2 i2 e2 s in
    let at1 = get_entry_ok id1 s k1 i1 e1 g1 in
    let at2 = get_entry_ok id2 s k2 i2 e2 g2 in
    let (dir, step, moved) =
      swap_files_ok k1 i1 k2 i2 t calm e1 e2 (has k1 i1 e1 f1) (has k2 i2 e2 f2) in
    (
      record t { direct_dir = dir },
      swap_run id1 id2 s k1 k2 i1 i2 e1 e2 g1 g2
          ∙ swap_found_steps k1 i1 e1 k2 i2 e2 s used
          ∙ >>-ok (write k1 e2 i1) (write k2 e1 i2 >> rest) s (write-after_write k1 e2 i1 s calm)
          ∙ >>-ok (write k2 e1 i2) rest (after_write k1 e2 i1 s)
              (write-after_write k2 e1 i2 (after_write k1 e2 i1 s) calm)
          ∙ >>-ok (swap_files k1 i1 e1 k2 i2 e2) (pure (swap_response none none)) t step,
      written-Exchanged s k1 i1 e1 k2 i2 e2 calm at1 at2 accounted dir moved,
    )
  where
    rest : M SwapResponse
    rest = swap_files k1 i1 e1 k2 i2 e2 >> pure (swap_response none none)

    has :
        (k : RingKind) (i : ℕ) (e : Entry)
        → HasFile s k i e
        → HasFile (both_written k1 i1 e1 k2 i2 e2 s) k i e
    has k i file h = h
    has k i uninitialized h = h
    has k i (bucketed w) h = h
