-- ===== src/Server/FreeLists/Rebuilt.antt =====
-- server/src/allocator.rs: the free lists that `FreeLists::load` rebuilds.
use clipboard_history.Prelude.{
  ℕ, zero, suc, ◌+◌, ◌-◌, max, ◌≤◌, ◌<◌, ◌≡◌, ◌↔◌, refl, ap, ◌∙◌, Bool, true, false, not, ◌&&◌,
  ◌||◌, some, List, [], ◌∷◌, ◌++◌, map, length, length-set, length-append, length-replicate,
  length-map, get_or, get_or-set, set, replicate, count, arith, leb, leb→le, ltb, ◌==◌,
  if◌then◌else◌, Bool-cases, inl, inr,
}
use clipboard_history.Core.InitializedEntry
use clipboard_history.Core.Entry.{Entry, uninitialized, bucketed, file}
use clipboard_history.Core.Entry.Words.{IsEntry}
use clipboard_history.Core.Buckets.{num_buckets, size_to_bucket}
use clipboard_history.Core.Ring
use clipboard_history.Core.Ring.{Ring}
use clipboard_history.Server.RingWriter.Laws.{slot_entry, get-slot_entry, slot_entry-IsEntry}
use clipboard_history.Server.Store.{Allocator}
use clipboard_history.Server.Slots.Accounts.{IsAccounted, owners, held, held_below, bucket_of-lt}
use clipboard_history.Server.FreeLists.{
  unreadable, mark, mark_entry, mark_found, mark_ring, zeros, allocations_of, load,
}

-- One more than the highest slot of the bucket that the first `n` entries hold.
unfoldable pub top : ℕ → Entry → ℕ
top b uninitialized = 0
top b file = 0
top b (bucketed e) =
    if size_to_bucket (InitializedEntry.size e) == b then InitializedEntry.index e + 1 else 0

unfoldable pub top_below : ℕ → Ring → ℕ → ℕ
top_below b r zero = 0
top_below b r (suc n) = max (top b (slot_entry r n)) (top_below b r n)

-- The slots of a bucket that a new server knows of.
unfoldable pub known_slots : ℕ → Allocator → ℕ
known_slots b s =
    max (top_below b s.favorites_ring s.favorites_ring.len)
      (top_below b s.main_ring s.main_ring.len)

length-mark : (i : ℕ) (slots : List Bool) → length (mark i slots) ≡ max (length slots) (i + 1)
unfolding mark
length-mark i slots = elim (Bool-cases (leb (length slots) i)) [
  | inl beyond ↦ rw beyond (
      omega (
        arith,
        length-append slots (replicate (i - length slots) false ++ (true ∷ [])),
        length-append (replicate (i - length slots) false) (true ∷ []),
        length-replicate (i - length slots) false,
        leb→le (length slots) i beyond,
      ))
  | inr within ↦ rw within (ground (arith, length-set slots i true, within))
]

get_or-extended :
    (slots : List Bool) (k j : ℕ)
    → get_or (slots ++ (replicate k false ++ (true ∷ []))) j false
      ≡ (length slots + k == j || get_or slots j false)
get_or-extended [] zero zero = refl
get_or-extended [] zero (suc j) = ground arith
get_or-extended [] (suc k) zero = ground arith
get_or-extended [] (suc k) (suc j) = get_or-extended [] k j ∙ ground arith
get_or-extended (b ∷ slots) k zero = ground arith
get_or-extended (b ∷ slots) k (suc j) = get_or-extended slots k j ∙ ground arith

get_or-mark :
    (i : ℕ) (slots : List Bool) (j : ℕ)
    → get_or (mark i slots) j false ≡ (i == j || get_or slots j false)
unfolding mark
get_or-mark i slots j = elim (Bool-cases (leb (length slots) i)) [
  | inl beyond ↦
      rw beyond
        (ground (arith, get_or-extended slots (i - length slots) j, leb→le (length slots) i beyond))
  | inr within ↦ rw within (ground (arith, within, get_or-set slots i true j false))
]

count-zeros_before : (a k : ℕ) (bits : List Bool) → a < k → count a (zeros k bits) ≡ 0
unfolding zeros count
count-zeros_before a k [] h = refl
count-zeros_before a k (true ∷ bits) h = count-zeros_before a (k + 1) bits (omega arith)
count-zeros_before a k (false ∷ bits) h =
    ground (arith, count-zeros_before a (k + 1) bits (omega arith))

-- The zeros from `k` on are the numbers of the unmarked places.
count-zeros :
    (k d : ℕ) (bits : List Bool)
    → count (k + d) (zeros k bits)
      ≡ (if ltb d (length bits) && not (get_or bits d false) then 1 else 0)
unfolding zeros count
count-zeros k d [] = ground arith
count-zeros k zero (true ∷ bits) =
    ground (arith, count-zeros_before (k + 0) (k + 1) bits (omega arith))
count-zeros k zero (false ∷ bits) =
    ground (arith, count-zeros_before (k + 0) (k + 1) bits (omega arith))
count-zeros k (suc d) (true ∷ bits) =
    ap (λ a. count a (zeros (k + 1) bits)) (omega arith) ∙ count-zeros (k + 1) d bits ∙ ground arith
count-zeros k (suc d) (false ∷ bits) =
    let rest : count (k + suc d) (zeros (k + 1) bits)
        ≡ (if ltb d (length bits) && not (get_or bits d false) then 1 else 0) =
      ap (λ a. count a (zeros (k + 1) bits)) (omega arith) ∙ count-zeros (k + 1) d bits in
    ground (arith, rest)

-- What the bits of bucket `b` say: how far they go, and which slots some entry holds.
record Marks (b : ℕ) (reach : ℕ) (holders : ℕ → ℕ) (allocations : List (List Bool)) : Type 0 where
  buckets : length allocations ≡ num_buckets
  extent : length (get_or allocations b []) ≡ reach
  marked : (i : ℕ) → get_or (get_or allocations b []) i false ≡ ltb 0 (holders i)

mark_entry-Marks :
    (b : ℕ) (e : Entry) (reach : ℕ) (holders : ℕ → ℕ) (allocations : List (List Bool))
    → IsEntry e
    → Marks b reach holders allocations
    → Marks b (max (top b e) reach) (λ i. held b i e + holders i) (mark_entry e allocations)
unfolding mark_entry top held
mark_entry-Marks b uninitialized reach holders allocations proper marks = record {
  buckets = marks.buckets;
  extent = omega (arith, marks.extent);
  marked = λ i. marks.marked i ∙ ground arith;
}
mark_entry-Marks b file reach holders allocations proper marks = record {
  buckets = marks.buckets;
  extent = omega (arith, marks.extent);
  marked = λ i. marks.marked i ∙ ground arith;
}
mark_entry-Marks b (bucketed e) reach holders allocations proper marks = record {
  buckets = length-set allocations bucket bits ∙ marks.buckets;
  extent = ground (
    arith,
    ap length after,
    length-mark index (get_or allocations b []),
    marks.extent,
    Bool-cases (bucket == b),
  );
  marked = λ i. ground (
    arith,
    ap (λ xs. get_or xs i false) after,
    get_or-mark index (get_or allocations b []) i,
    marks.marked i,
    Bool-cases (bucket == b),
  );
}
  where
    index : ℕ
    index = InitializedEntry.index e

    bucket : ℕ
    bucket = size_to_bucket (InitializedEntry.size e)

    bits : List Bool
    bits = mark index (get_or allocations bucket [])

    after :
        get_or (set allocations bucket bits) b []
        ≡ (if bucket == b then mark index (get_or allocations b []) else get_or allocations b [])
    after = elim (Bool-cases (bucket == b)) [
      | inl here ↦
          let same : bucket ≡ b = ground (arith, here) in
          placed ∙ rw here (ap (λ k. mark index (get_or allocations k [])) same)
      | inr other ↦ placed ∙ rw other
    ]
      where
        placed :
            get_or (set allocations bucket bits) b []
            ≡ (if bucket == b then bits else get_or allocations b [])
        placed =
            get_or-set allocations bucket bits b []
              (omega (arith, bucket_of-lt e proper.0, marks.buckets))

module _ (b : ℕ) where
  mark_ring-Marks :
      (r : Ring) (n reach : ℕ) (holders : ℕ → ℕ) (allocations : List (List Bool))
      → n ≤ r.len
      → Marks b reach holders allocations
      → Marks b
          (max (top_below b r n) reach)
          (λ i. held_below b i r n + holders i)
          (mark_ring r n allocations)
  unfolding mark_ring mark_found top_below held_below
  mark_ring-Marks r zero reach holders allocations le marks = record {
    buckets = marks.buckets;
    extent = omega (arith, marks.extent);
    marked = λ i. marks.marked i ∙ ground arith;
  }
  mark_ring-Marks r (suc n) reach holders allocations le marks =
      let before = mark_ring-Marks r n reach holders allocations (omega arith) marks in
      let here : Ring.get r n ≡ some (slot_entry r n) = ground (arith, get-slot_entry r n) in
      let e = slot_entry r n in
      let step =
        mark_entry-Marks b e (max (top_below b r n) reach) (λ i. held_below b i r n + holders i)
          (mark_ring r n allocations) (slot_entry-IsEntry r n) before in
      rw (here, mark_found)
        (record {
          buckets = step.buckets;
          extent = omega (arith, step.extent);
          marked = λ i. step.marked i ∙ ap (ltb 0) (omega arith);
        })

  get_or-empty : (n : ℕ) → get_or (replicate n []) b [] ≡ ◌++◌ {A = Bool} [] []
  get_or-empty n = empties n b
    where
      empties : (n b : ℕ) → get_or (replicate n []) b [] ≡ ◌++◌ {A = Bool} [] []
      empties zero b = refl
      empties (suc n) zero = refl
      empties (suc n) (suc b) = empties n b

  allocations-Marks :
      (s : Allocator)
      → Marks b
          (known_slots b s)
          (λ i.
            held_below b i s.favorites_ring s.favorites_ring.len
            + held_below b i s.main_ring s.main_ring.len)
          (allocations_of s.favorites_ring s.main_ring)
  unfolding allocations_of known_slots
  allocations-Marks s =
      let f = s.favorites_ring in
      let m = s.main_ring in
      let start : Marks b 0 (λ i. 0) (replicate num_buckets []) = record {
        buckets = refl;
        extent = ap length (get_or-empty num_buckets);
        marked = λ i. ap (λ xs. get_or xs i false) (get_or-empty num_buckets) ∙ ground arith;
      } in
      let favorites =
        mark_ring-Marks f f.len 0 (λ i. 0) (replicate num_buckets []) (omega arith) start in
      let both =
        mark_ring-Marks m m.len (max (top_below b f f.len) 0) (λ i. held_below b i f f.len + 0)
          (mark_ring f f.len (replicate num_buckets [])) (omega arith) favorites in
      record {
        buckets = both.buckets;
        extent = omega (arith, both.extent);
        marked = λ i. both.marked i ∙ ap (ltb 0) (omega arith);
      }

  -- A slot that an entry holds is known.
  held-lt-top : (i : ℕ) (r : Ring) (n : ℕ) → 0 < held_below b i r n → i < top_below b r n
  unfolding held_below top_below held top
  held-lt-top i r zero h = absurd (omega arith)
  held-lt-top i r (suc n) h = ground (arith, held-lt-top i r n, one (slot_entry r n))
    where
      one : (e : Entry) → 0 < held b i e → i < top b e
      one uninitialized h = absurd (omega arith)
      one file h = absurd (omega arith)
      one (bucketed e) h = ground arith

-- The state of a server that starts on the rings and the bucket files of `s`.
abbrev pub restarted : Allocator → Allocator
restarted s = record s { free_lists = load unreadable s.favorites_ring s.main_ring }

get_or-map :
    (f : List Bool → List ℕ) (xs : List (List Bool)) (b : ℕ)
    → b < length xs
    → get_or (map f xs) b [] ≡ f (get_or xs b [])
get_or-map f [] b h = elim h [ ]
get_or-map f (x ∷ xs) zero h = refl
get_or-map f (x ∷ xs) (suc b) h = get_or-map f xs b (omega arith)

-- The entries that hold a slot.
abbrev pub holders : ℕ → ℕ → Allocator → ℕ
holders b i s =
    held_below b i s.favorites_ring s.favorites_ring.len
    + held_below b i s.main_ring s.main_ring.len

rebuilt_owners :
    (b i : ℕ) (s : Allocator)
    → b < num_buckets
    → holders b i s ≤ 1
    → owners b i (restarted s) ≡ (if ltb i (known_slots b s) then 1 else 0)
unfolding owners load known_slots
rebuilt_owners b i s lt single =
    let marks = allocations-Marks b s in
    let allocations = allocations_of s.favorites_ring s.main_ring in
    let rebuilt : get_or (map (zeros 0) allocations) b [] ≡ zeros 0 (get_or allocations b []) =
      get_or-map (zeros 0) allocations b (omega (arith, marks.buckets)) in
    ground (
      arith,
      ap (count i) rebuilt,
      count-zeros 0 i (get_or allocations b []),
      ap (λ a. count a (zeros 0 (get_or allocations b []))) (zero-add i),
      marks.extent,
      marks.marked i,
      held-lt-top b i s.favorites_ring s.favorites_ring.len,
      held-lt-top b i s.main_ring s.main_ring.len,
      single,
    )
  where
    zero-add : (n : ℕ) → 0 + n ≡ n
    zero-add n = omega arith

load-length : (s : Allocator) → length (restarted s).free_lists ≡ num_buckets
unfolding load
load-length s =
    length-map (allocations_of s.favorites_ring s.main_ring) (zeros 0)
    ∙ (allocations-Marks 0 s).buckets

-- The free lists that `load` rebuilds, where no two entries hold one slot: each slot up to the highest
-- one of its bucket that an entry holds has one owner, a place in the free list or the entry, and no
-- other slot has any; so each slot of the bucket files has one owner exactly if the last slot of each
-- file is held, and free slots at the end of a file are lost.
pub load_rebuilds :
    (s : Allocator)
    → length s.slot_counts ≡ num_buckets
    → ((b i : ℕ) → b < num_buckets → holders b i s ≤ 1)
    → ((b i : ℕ)
        → b < num_buckets
        → owners b i (restarted s) ≡ (if ltb i (known_slots b s) then 1 else 0))
      × (IsAccounted (restarted s)
          ↔ ((b : ℕ) → b < num_buckets → known_slots b s ≡ get_or s.slot_counts b 0))
load_rebuilds s counts single =
    (λ b i lt. rebuilt_owners b i s lt (single b i lt), (all_known, accounted))
  where
    at :
        (b i : ℕ)
        → b < num_buckets
        → owners b i (restarted s) ≡ (if ltb i (known_slots b s) then 1 else 0)
    at b i lt = rebuilt_owners b i s lt (single b i lt)

    all_known :
        IsAccounted (restarted s)
        → (b : ℕ) → b < num_buckets
        → known_slots b s ≡ get_or s.slot_counts b 0
    all_known a b lt =
        let k = known_slots b s in
        let c = get_or s.slot_counts b 0 in
        ground (arith, at b k lt, at b c lt, a.accounts b k lt, a.accounts b c lt)

    accounted :
        ((b : ℕ) → b < num_buckets → known_slots b s ≡ get_or s.slot_counts b 0)
        → IsAccounted (restarted s)
    accounted known = record {
      accounts = λ b i lt. at b i lt ∙ ap (λ n. if ltb i n then 1 else 0) (known b lt);
      lists = load-length s;
      counts = counts;
    }
