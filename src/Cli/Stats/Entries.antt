-- ===== src/Cli/Stats/Entries.antt =====
-- cli/src/main.rs: what each entry adds to the counts of `stats`.
use clipboard_history.Prelude.{
  ℕ, ◌+◌, ◌<◌, ◌≡◌, refl, sym, ap, ◌∙◌, min, max, Bool, true, false, some, Result, ok, length,
  length-set, get_or, get_or-set, arith, Bool-cases, Option-cases, Result-cases, inl, inr, ◌==◌,
  if◌then◌else◌,
}
use clipboard_history.Prelude.Results.{Ensures}
use clipboard_history.Prelude.Files.{Bytes}
use clipboard_history.Core.Buckets.{size_to_bucket, checked_ilog2}
use clipboard_history.Core.Buckets.Classes.{size_to_bucket_fits}
use clipboard_history.Core.InitializedEntry
use clipboard_history.Core.InitializedEntry.Fields.{size-lt}
use clipboard_history.Core.InitializedEntry.{InitializedEntry}
use clipboard_history.Server.Store.{DirectFile}
use clipboard_history.Client.RingReader.{ReaderEntry, DatabaseReader}
use clipboard_history.Client.EntryReader.{
  EntryReader, Kind, bucket, file, kind, to_slice, grow_bucket_if_needed, bucket_entry_to_slice,
  remap,
}
use clipboard_history.Client.DuplicateDetector.{
  Hashes, DetectError, add_entry, hash_entry, is_known, entries_with,
}
use clipboard_history.Cli.Stats.{
  BucketStats, Tally, no_bucket, count_bucketed, count_file, file_of, count_kind, count_size,
  count_entry,
}
use clipboard_history.Cli.Stats.Seen.{
  seen, text, direct, size_seen, allocated_seen, typed_seen, class_seen, class_bytes_seen, count_of,
  count_of-count_mime,
}

pub bucket-lt : (e : InitializedEntry) → size_to_bucket (InitializedEntry.size e) < 11
unfolding size_to_bucket checked_ilog2
bucket-lt e = elim (Bool-cases (InitializedEntry.size e == 0)) [
  | inl unused ↦ let z : InitializedEntry.size e ≡ 0 = ground (arith, unused) in rw z (omega arith)
  | inr some_size ↦
      let pos : 0 < InitializedEntry.size e = ground (arith, some_size) in
      (size_to_bucket_fits (InitializedEntry.size e) pos (size-lt e)).0
]

grow-direct :
    (entry : ReaderEntry) (reader : EntryReader)
    → (grow_bucket_if_needed entry reader).direct ≡ reader.direct
unfolding grow_bucket_if_needed remap
grow-direct entry reader = by_kind (kind entry) refl
  where
    by_kind :
        (k : Kind) → kind entry ≡ k → (grow_bucket_if_needed entry reader).direct ≡ reader.direct
    by_kind file k = rw (grow_bucket_if_needed, k)
    by_kind (bucket e) k = elim (Result-cases (bucket_entry_to_slice reader e)) [
      | inl (bytes, mapped) ↦ rw (grow_bucket_if_needed, k, mapped)
      | inr (short, mapped) ↦ rw (grow_bucket_if_needed, k, mapped)
    ]

module _ (fx_bytes : Bytes → ℕ) (fx_len : ℕ → ℕ) (blocks : Bytes → ℕ)
    (database : DatabaseReader) where
  hash_entry-direct :
      (entry : ReaderEntry) (reader : EntryReader)
      → (hash_entry fx_bytes fx_len entry reader).1.direct ≡ reader.direct
  unfolding hash_entry to_slice
  hash_entry-direct entry reader = grow-direct entry reader

  add_entry-direct :
      (entry : ReaderEntry) (reader : EntryReader) (hashes : Hashes)
      → (add_entry fx_bytes fx_len entry database reader hashes).2.direct ≡ reader.direct
  unfolding add_entry
  add_entry-direct entry reader hashes =
      let same = hash_entry-direct entry reader in
      elim (Result-cases (hash_entry fx_bytes fx_len entry reader).0) [
        | inr (e, hashed) ↦ rw (add_entry, hashed) same
        | inl (hash, hashed) ↦
            elim (Result-cases (
              is_known database (hash_entry fx_bytes fx_len entry reader).1 entry
                (entries_with hash hashes))) [
                  | inr (e, answer) ↦ rw (add_entry, hashed, answer) same
                  | inl (true, answer) ↦ rw (add_entry, hashed, answer) same
                  | inl (false, answer) ↦ rw (add_entry, hashed, answer) same
                ]
      ]

  -- What an entry adds, with what the reader `r` of the start sees there, and the answer of the detector,
  -- which goes on where it was.
  pub record Step (r : EntryReader) (entry : ReaderEntry) (t t' : Tally) : Type 0 where
    pub owned : t'.ring.owned_bytes ≡ t.ring.owned_bytes + size_seen (seen r entry)
    pub least : t'.ring.min_entry_size ≡ min t.ring.min_entry_size (size_seen (seen r entry))
    pub greatest : t'.ring.max_entry_size ≡ max t.ring.max_entry_size (size_seen (seen r entry))
    pub allocated :
        t'.direct_files.allocated_bytes
        ≡ t.direct_files.allocated_bytes + allocated_seen blocks (seen r entry)
    pub typed :
        (mime : Bytes)
        → count_of mime t'.direct_files.mime_types
          ≡ count_of mime t.direct_files.mime_types + typed_seen mime (seen r entry)
    pub flag : Bool
    pub answered :
        add_entry fx_bytes fx_len entry database t.reader t.hashes ≡ (ok flag, t'.hashes, t'.reader)
    pub repeated :
        t'.ring.num_duplicates ≡ (if flag then t.ring.num_duplicates + 1 else t.ring.num_duplicates)
    pub classes :
        (i : ℕ)
        → (get_or t'.buckets i no_bucket).size_class ≡ (get_or t.buckets i no_bucket).size_class
    pub slots :
        (i : ℕ)
        → (get_or t'.buckets i no_bucket).num_slots ≡ (get_or t.buckets i no_bucket).num_slots
    pub used :
        (i : ℕ)
        → (get_or t'.buckets i no_bucket).used_slots
          ≡ (get_or t.buckets i no_bucket).used_slots + class_seen i (seen r entry)
    pub filled :
        (i : ℕ)
        → (get_or t'.buckets i no_bucket).owned_bytes
          ≡ (get_or t.buckets i no_bucket).owned_bytes + class_bytes_seen i (seen r entry)
    pub size : length t'.buckets ≡ length t.buckets
    pub shape : (t'.ring.capacity ≡ t.ring.capacity) × (t'.ring.len ≡ t.ring.len)
    pub directory : t'.reader.direct ≡ t.reader.direct

  module _ (r : EntryReader) (entry : ReaderEntry) (t : Tally) (eleven : length t.buckets ≡ 11)
      (same : t.reader.direct ≡ r.direct) where
    file_of-same : file_of t.reader entry ≡ file_of r entry
    unfolding file_of
    file_of-same = rw same

    abbrev after_add : Result Bool DetectError × Hashes × EntryReader
    after_add = add_entry fx_bytes fx_len entry database t.reader t.hashes

    abbrev after : ℕ → Bool → Tally → Tally
    after size flag t' = record t' {
      ring = count_size size flag t'.ring;
      hashes = after_add.1;
      reader = after_add.2;
    }

    answered_as :
        (flag : Bool) → after_add.0 ≡ ok flag → after_add ≡ (ok flag, after_add.1, after_add.2)
    answered_as flag a = ap (λ x. (x, after_add.1, after_add.2)) a

    bucket-Step :
        (e : InitializedEntry) (flag : Bool)
        → kind entry ≡ bucket e
        → after_add.0 ≡ ok flag
        → Step r entry t (after (InitializedEntry.size e) flag (count_bucketed e t))
    unfolding count_bucketed count_size
    bucket-Step e flag k a =
        let saw : seen r entry ≡ text (InitializedEntry.size e) = rw (seen, k) in
        let b = size_to_bucket (InitializedEntry.size e) in
        let there : b < length t.buckets = omega (arith, bucket-lt e, eleven) in
        let stats = get_or t.buckets b no_bucket in
        let more : BucketStats = record stats {
          used_slots = stats.used_slots + 1;
          owned_bytes = stats.owned_bytes + InitializedEntry.size e;
        } in
        record {
          owned = rw saw;
          least = rw saw;
          greatest = rw saw;
          allocated = rw saw (omega arith);
          typed = λ mime. rw saw (omega arith);
          flag = flag;
          answered = answered_as flag a;
          repeated = refl;
          classes = λ i. ground (arith, get_or-set t.buckets b more i no_bucket there);
          slots = λ i. ground (arith, get_or-set t.buckets b more i no_bucket there);
          used = λ i. rw saw (ground (arith, get_or-set t.buckets b more i no_bucket there));
          filled = λ i. rw saw (ground (arith, get_or-set t.buckets b more i no_bucket there));
          size = length-set t.buckets b more;
          shape = (refl, refl);
          directory = add_entry-direct entry t.reader t.hashes;
        }

    file-Step :
        (f : DirectFile) (flag : Bool)
        → kind entry ≡ file
        → file_of t.reader entry ≡ some f
        → after_add.0 ≡ ok flag
        → Step r entry t (after (length f.content) flag (count_file (blocks f.content) f t))
    unfolding count_file count_size
    file-Step f flag k found a =
        let there : file_of r entry ≡ some f = sym file_of-same ∙ found in
        let saw : seen r entry ≡ direct f = rw (seen, k, there) in
        record {
          owned = rw saw;
          least = rw saw;
          greatest = rw saw;
          allocated = rw saw;
          typed = λ mime. rw saw (count_of-count_mime mime f.mime t.direct_files.mime_types);
          flag = flag;
          answered = answered_as flag a;
          repeated = refl;
          classes = λ i. refl;
          slots = λ i. refl;
          used = λ i. rw saw (omega arith);
          filled = λ i. rw saw (omega arith);
          size = refl;
          shape = (refl, refl);
          directory = add_entry-direct entry t.reader t.hashes;
        }

    pub count_entry-Step :
        Ensures (Step r entry t) (count_entry fx_bytes fx_len blocks database entry t)
    unfolding count_entry count_kind
    count_entry-Step = by_kind (kind entry) refl
      where
        by_kind :
            (k : Kind)
            → kind entry ≡ k
            → Ensures (Step r entry t) (count_entry fx_bytes fx_len blocks database entry t)
        by_kind (bucket e) k = elim (Result-cases after_add.0) [
          | inl (flag, a) ↦ rw (Ensures, count_entry, count_kind, k, a) (bucket-Step e flag k a)
          | inr (e', a) ↦ rw (Ensures, count_entry, count_kind, k, a) tt
        ]
        by_kind file k = elim (Option-cases (file_of t.reader entry)) [
          | inl gone ↦ rw (Ensures, count_entry, count_kind, k, gone) tt
          | inr (f, found) ↦ elim (Result-cases after_add.0) [
            | inl (flag, a) ↦
                rw (Ensures, count_entry, count_kind, k, found, a) (file-Step f flag k found a)
            | inr (e', a) ↦ rw (Ensures, count_entry, count_kind, k, found, a) tt
          ]
        ]
