-- ===== src/Cli/Stats/Sums.antt =====
-- cli/src/main.rs: what the entries of a ring add to the counts of `stats`, one after the other.
use clipboard_history.Prelude.{
  ℕ, ◌+◌, ◌≡◌, refl, ◌∙◌, min, max, Bool, true, false, List, [], ◌∷◌, Result, ok, err, length,
  get_or, arith, if◌then◌else◌,
}
use clipboard_history.Prelude.Results.{Ensures, >>=-Ensures}
use clipboard_history.Prelude.Files.{Bytes}
use clipboard_history.Client.RingReader.{ReaderEntry, DatabaseReader}
use clipboard_history.Client.EntryReader.{EntryReader}
use clipboard_history.Client.DuplicateDetector.{DetectError}
use clipboard_history.Client.DuplicateDetector.Exact.{detect}
use clipboard_history.Cli.Stats.{Tally, no_bucket, count_entries}
use clipboard_history.Cli.Stats.Seen.{
  Seen, seen, size_seen, allocated_seen, typed_seen, class_seen, class_bytes_seen, count_of,
}
use clipboard_history.Cli.Stats.Entries.{Step, count_entry-Step}

-- What a reader sees at the entries.
abbrev pub all_seen : EntryReader → List ReaderEntry → List Seen
all_seen reader [] = []
all_seen reader (entry ∷ entries) = seen reader entry ∷ all_seen reader entries

abbrev pub sum : (Seen → ℕ) → List Seen → ℕ
sum f [] = 0
sum f (x ∷ xs) = f x + sum f xs

-- The least size, and the greatest, of some entries and a bound.
abbrev pub least : ℕ → List Seen → ℕ
least bound [] = bound
least bound (x ∷ xs) = min (size_seen x) (least bound xs)

abbrev pub greatest : ℕ → List Seen → ℕ
greatest bound [] = bound
greatest bound (x ∷ xs) = max (size_seen x) (greatest bound xs)

abbrev pub trues : List Bool → ℕ
trues [] = 0
trues (true ∷ flags) = trues flags + 1
trues (false ∷ flags) = trues flags

least-min : (bound n : ℕ) (xs : List Seen) → least (min bound n) xs ≡ min n (least bound xs)
least-min bound n [] = omega arith
least-min bound n (x ∷ xs) = omega (arith, least-min bound n xs)

greatest-max :
    (bound n : ℕ) (xs : List Seen) → greatest (max bound n) xs ≡ max n (greatest bound xs)
greatest-max bound n [] = omega arith
greatest-max bound n (x ∷ xs) = omega (arith, greatest-max bound n xs)

module _ (fx_bytes : Bytes → ℕ) (fx_len : ℕ → ℕ) (blocks : Bytes → ℕ) (database : DatabaseReader)
    (r : EntryReader) where
  -- The counts `t'` after some entries that are counted from `t` on: the sizes of what the reader `r`
  -- sees, their sum, the least and the greatest of them, the bytes that the direct files take, the
  -- number of those of each type, the texts of each bucket and their bytes, and the number of entries
  -- that the detector takes for duplicates.
  pub record Sums (xs : List ReaderEntry) (t t' : Tally) : Type 0 where
    pub owned : t'.ring.owned_bytes ≡ t.ring.owned_bytes + sum size_seen (all_seen r xs)
    pub smallest : t'.ring.min_entry_size ≡ least t.ring.min_entry_size (all_seen r xs)
    pub largest : t'.ring.max_entry_size ≡ greatest t.ring.max_entry_size (all_seen r xs)
    pub allocated :
        t'.direct_files.allocated_bytes
        ≡ t.direct_files.allocated_bytes + sum (allocated_seen blocks) (all_seen r xs)
    pub typed :
        (mime : Bytes)
        → count_of mime t'.direct_files.mime_types
          ≡ count_of mime t.direct_files.mime_types + sum (typed_seen mime) (all_seen r xs)
    pub flags : List Bool
    pub detected : detect fx_bytes fx_len database r xs t.reader t.hashes ≡ ok flags
    pub repeated : t'.ring.num_duplicates ≡ t.ring.num_duplicates + trues flags
    pub classes :
        (i : ℕ)
        → (get_or t'.buckets i no_bucket).size_class ≡ (get_or t.buckets i no_bucket).size_class
    pub slots :
        (i : ℕ)
        → (get_or t'.buckets i no_bucket).num_slots ≡ (get_or t.buckets i no_bucket).num_slots
    pub used :
        (i : ℕ)
        → (get_or t'.buckets i no_bucket).used_slots
          ≡ (get_or t.buckets i no_bucket).used_slots + sum (class_seen i) (all_seen r xs)
    pub filled :
        (i : ℕ)
        → (get_or t'.buckets i no_bucket).owned_bytes
          ≡ (get_or t.buckets i no_bucket).owned_bytes + sum (class_bytes_seen i) (all_seen r xs)
    pub size : length t'.buckets ≡ length t.buckets
    pub shape : (t'.ring.capacity ≡ t.ring.capacity) × (t'.ring.len ≡ t.ring.len)
    pub directory : t'.reader.direct ≡ t.reader.direct

  Sums-nil : (t : Tally) → Sums [] t t
  Sums-nil t = record {
    owned = omega arith;
    smallest = refl;
    largest = refl;
    allocated = omega arith;
    typed = λ mime. omega arith;
    flags = [];
    detected = refl;
    repeated = omega arith;
    classes = λ i. refl;
    slots = λ i. refl;
    used = λ i. omega arith;
    filled = λ i. omega arith;
    size = refl;
    shape = (refl, refl);
    directory = refl;
  }

  trues-cons :
      (flag : Bool) (flags : List Bool) (n m k : ℕ)
      → m ≡ (if flag then n + 1 else n)
      → k ≡ m + trues flags
      → k ≡ n + trues (flag ∷ flags)
  trues-cons true flags n m k h h' = omega (arith, h, h')
  trues-cons false flags n m k h h' = omega (arith, h, h')

  Sums-cons :
      (x : ReaderEntry) (xs : List ReaderEntry) (t t1 t2 : Tally)
      → Step fx_bytes fx_len blocks database r x t t1
      → Sums xs t1 t2
      → Sums (x ∷ xs) t t2
  Sums-cons x xs t t1 t2 step sums = record {
    owned = omega (arith, step.owned, sums.owned);
    smallest =
        sums.smallest
        ∙ rw step.least (least-min t.ring.min_entry_size (size_seen (seen r x)) (all_seen r xs));
    largest =
        sums.largest
        ∙ rw step.greatest
            (greatest-max t.ring.max_entry_size (size_seen (seen r x)) (all_seen r xs));
    allocated = omega (arith, step.allocated, sums.allocated);
    typed = λ mime. omega (arith, step.typed mime, sums.typed mime);
    flags = step.flag ∷ sums.flags;
    detected = rw (step.answered, sums.detected);
    repeated =
        trues-cons step.flag sums.flags t.ring.num_duplicates t1.ring.num_duplicates
          t2.ring.num_duplicates step.repeated sums.repeated;
    classes = λ i. sums.classes i ∙ step.classes i;
    slots = λ i. sums.slots i ∙ step.slots i;
    used = λ i. omega (arith, step.used i, sums.used i);
    filled = λ i. omega (arith, step.filled i, sums.filled i);
    size = sums.size ∙ step.size;
    shape = (sums.shape.0 ∙ step.shape.0, sums.shape.1 ∙ step.shape.1);
    directory = sums.directory ∙ step.directory;
  }

  pub count_entries-Sums :
      (xs : List ReaderEntry) (t : Tally)
      → length t.buckets ≡ 11
      → t.reader.direct ≡ r.direct
      → Ensures (Sums xs t) (count_entries fx_bytes fx_len blocks database xs t)
  unfolding count_entries
  count_entries-Sums [] t eleven same = Sums-nil t
  count_entries-Sums (x ∷ xs) t eleven same =
      >>=-Ensures (Step fx_bytes fx_len blocks database r x t) (Sums (x ∷ xs) t) _ _
        (count_entry-Step fx_bytes fx_len blocks database r x t eleven same)
        (λ t1 step.
          extend t1 step (count_entries fx_bytes fx_len blocks database xs t1)
            (count_entries-Sums xs t1 (step.size ∙ eleven) (step.directory ∙ same)))
    where
      extend :
          (t1 : Tally)
          → Step fx_bytes fx_len blocks database r x t t1
          → (result : Result Tally DetectError) → Ensures (Sums xs t1) result
          → Ensures (Sums (x ∷ xs) t) result
      extend t1 step (ok t2) sums = Sums-cons x xs t t1 t2 step sums
      extend t1 step (err e) sums = tt
