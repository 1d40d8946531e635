-- ===== src/Cli/Stats/Counted.antt =====
-- cli/src/main.rs: the numbers of entries, and of their bytes, that the rings and the buckets count.
use clipboard_history.Prelude.{
  ℕ, zero, suc, ◌+◌, ◌<◌, ◌≡◌, refl, ◌∙◌, ap, Bool, List, [], ◌∷◌, Result, ok, err, length,
  length-set, get_or, set, arith, Option-cases, inl, inr,
}
use clipboard_history.Prelude.Results.{◌>>=◌, Ensures, >>=-Ensures}
use clipboard_history.Prelude.Files.{Bytes}
use clipboard_history.Core.Buckets.{size_to_bucket}
use clipboard_history.Core.InitializedEntry
use clipboard_history.Core.InitializedEntry.{InitializedEntry}
use clipboard_history.Client.RingReader.{ReaderEntry, DatabaseReader}
use clipboard_history.Client.EntryReader.{Kind, bucket, file, kind}
use clipboard_history.Client.DuplicateDetector.{DetectError, add_entry}
use clipboard_history.Cli.Stats.Entries.{bucket-lt}
use clipboard_history.Cli.Stats.{
  BucketStats, Tally, no_bucket, start_buckets, count_bucketed, count_file, file_of, count_kind,
  count_size, count_entry, count_entries,
}

abbrev pub total : (BucketStats → ℕ) → List BucketStats → ℕ
total f [] = 0
total f (b ∷ bs) = f b + total f bs

abbrev pub used : BucketStats → ℕ
used b = b.used_slots

abbrev pub owned : BucketStats → ℕ
owned b = b.owned_bytes

total-set :
    (f : BucketStats → ℕ) (bs : List BucketStats) (i : ℕ) (v : BucketStats)
    → i < length bs
    → total f (set bs i v) + f (get_or bs i no_bucket) ≡ total f bs + f v
total-set f [] i v h = absurd (omega arith)
total-set f (b ∷ bs) zero v h = omega arith
total-set f (b ∷ bs) (suc i) v h = omega (arith, total-set f bs i v (omega arith))

-- What an entry of some size, or so many entries of any, add to the counts.
abbrev Adds : ℕ → ℕ → Tally → Tally → Type 0
Adds n size t t' =
    (t'.ring.bucketed_entry_count + t'.ring.file_entry_count
      ≡ t.ring.bucketed_entry_count + t.ring.file_entry_count + n)
    × (total used t'.buckets + t.ring.bucketed_entry_count
        ≡ total used t.buckets + t'.ring.bucketed_entry_count)
    × (total owned t'.buckets + t'.direct_files.owned_bytes
        ≡ total owned t.buckets + t.direct_files.owned_bytes + size)
    × (length t'.buckets ≡ length t.buckets)

count_bucketed-Adds :
    (e : InitializedEntry) (t : Tally)
    → length t.buckets ≡ 11
    → Adds 1 (InitializedEntry.size e) t (count_bucketed e t)
unfolding count_bucketed
count_bucketed-Adds e t eleven =
    let b = size_to_bucket (InitializedEntry.size e) in
    let stats = get_or t.buckets b no_bucket in
    let more : BucketStats = record stats {
      used_slots = stats.used_slots + 1;
      owned_bytes = stats.owned_bytes + InitializedEntry.size e;
    } in
    let there : b < length t.buckets = omega (arith, bucket-lt e) in
    (
      omega arith,
      omega (arith, total-set used t.buckets b more there),
      omega (arith, total-set owned t.buckets b more there),
      length-set t.buckets b more,
    )

count_kind-Adds :
    (blocks : Bytes → ℕ) (entry : ReaderEntry) (t : Tally)
    → length t.buckets ≡ 11
    → Ensures
        (λ (r : ℕ × Tally). Adds 1 r.0 t r.1 × (r.1.ring.owned_bytes ≡ t.ring.owned_bytes))
        (count_kind blocks entry t)
unfolding count_kind count_file count_bucketed
count_kind-Adds blocks entry t eleven = by_kind (kind entry) refl
  where
    by_kind :
        (k : Kind)
        → kind entry ≡ k
        → Ensures
            (λ (r : ℕ × Tally). Adds 1 r.0 t r.1 × (r.1.ring.owned_bytes ≡ t.ring.owned_bytes))
            (count_kind blocks entry t)
    by_kind (bucket e) h = rw (Ensures, count_kind, h) (count_bucketed-Adds e t eleven, refl)
    by_kind file h = elim (Option-cases (file_of t.reader entry)) [
      | inl missing ↦ rw (Ensures, count_kind, h, missing) tt
      | inr (f, found) ↦
          rw (Ensures, count_kind, h, found) ((omega arith, refl, omega arith, refl), refl)
    ]

-- So many entries, the size of each of them counted with its ring.
abbrev pub Counted : ℕ → Tally → Tally → Type 0
Counted n t t' =
    (t'.ring.bucketed_entry_count + t'.ring.file_entry_count
      ≡ t.ring.bucketed_entry_count + t.ring.file_entry_count + n)
    × (total used t'.buckets + t.ring.bucketed_entry_count
        ≡ total used t.buckets + t'.ring.bucketed_entry_count)
    × (total owned t'.buckets + t'.direct_files.owned_bytes + t.ring.owned_bytes
        ≡ total owned t.buckets + t.direct_files.owned_bytes + t'.ring.owned_bytes)
    × (length t'.buckets ≡ length t.buckets)

module _ (fx_bytes : Bytes → ℕ) (fx_len : ℕ → ℕ) (blocks : Bytes → ℕ)
    (database : DatabaseReader) where
  count_entry-Counted :
      (entry : ReaderEntry) (t : Tally)
      → length t.buckets ≡ 11
      → Ensures (Counted 1 t) (count_entry fx_bytes fx_len blocks database entry t)
  unfolding count_entry count_size
  count_entry-Counted entry t eleven =
      >>=-Ensures
        (λ (r : ℕ × Tally). Adds 1 r.0 t r.1 × (r.1.ring.owned_bytes ≡ t.ring.owned_bytes))
        (Counted 1 t) (count_kind blocks entry t) _ (count_kind-Adds blocks entry t eleven)
        (λ (size, t') ((counts, slots, bytes, same), ring).
          by_answer (add_entry fx_bytes fx_len entry database t.reader t.hashes).0 size t' counts
            slots bytes same ring)
    where
      by_answer :
          (answer : Result Bool DetectError) (size : ℕ) (t' : Tally)
          → t'.ring.bucketed_entry_count + t'.ring.file_entry_count
            ≡ t.ring.bucketed_entry_count + t.ring.file_entry_count + 1
          → total used t'.buckets + t.ring.bucketed_entry_count
            ≡ total used t.buckets + t'.ring.bucketed_entry_count
          → total owned t'.buckets + t'.direct_files.owned_bytes
            ≡ total owned t.buckets + t.direct_files.owned_bytes + size
          → length t'.buckets ≡ length t.buckets
          → t'.ring.owned_bytes ≡ t.ring.owned_bytes
          → Ensures (Counted 1 t) (
              answer >>= λ duplicate. ok (record t' {
                ring = count_size size duplicate t'.ring;
                hashes = (add_entry fx_bytes fx_len entry database t.reader t.hashes).1;
                reader = (add_entry fx_bytes fx_len entry database t.reader t.hashes).2;
              }))
      by_answer (err e) size t' counts slots bytes same ring = tt
      by_answer (ok duplicate) size t' counts slots bytes same ring =
          (counts, slots, omega (arith, bytes, ring), same)

  pub count_entries-Counted :
      (entries : List ReaderEntry) (t : Tally)
      → length t.buckets ≡ 11
      → Ensures
          (Counted (length entries) t)
          (count_entries fx_bytes fx_len blocks database entries t)
  unfolding count_entries
  count_entries-Counted [] t eleven = (omega arith, refl, refl, refl)
  count_entries-Counted (entry ∷ entries) t eleven =
      >>=-Ensures (Counted 1 t) (Counted (length (entry ∷ entries)) t) _ _
        (count_entry-Counted entry t eleven)
        (λ t' (counts, slots, bytes, same).
          weaken t' counts slots bytes same
            (count_entries fx_bytes fx_len blocks database entries t')
            (count_entries-Counted entries t' (same ∙ eleven)))
    where
      weaken :
          (t' : Tally)
          → t'.ring.bucketed_entry_count + t'.ring.file_entry_count
            ≡ t.ring.bucketed_entry_count + t.ring.file_entry_count + 1
          → total used t'.buckets + t.ring.bucketed_entry_count
            ≡ total used t.buckets + t'.ring.bucketed_entry_count
          → total owned t'.buckets + t'.direct_files.owned_bytes + t.ring.owned_bytes
            ≡ total owned t.buckets + t.direct_files.owned_bytes + t'.ring.owned_bytes
          → length t'.buckets ≡ length t.buckets
          → (result : Result Tally DetectError) → Ensures (Counted (length entries) t') result
          → Ensures (Counted (length (entry ∷ entries)) t) result
      weaken t' counts slots bytes same (err e) h = tt
      weaken t' counts slots bytes same (ok t'') (counts', slots', bytes', same') = (
        omega (arith, counts, counts'),
        omega (arith, slots, slots'),
        omega (arith, bytes, bytes'),
        same' ∙ same,
      )

  pub total-start_buckets :
      (i : ℕ) (lens : List ℕ)
      → (total used (start_buckets i lens) ≡ 0)
        × (total owned (start_buckets i lens) ≡ 0)
        × (length (start_buckets i lens) ≡ length lens)
  unfolding start_buckets
  total-start_buckets i [] = (refl, refl, refl)
  total-start_buckets i (len ∷ lens) =
      let (no_slots, no_bytes, size) = total-start_buckets (i + 1) lens in
      (omega (arith, no_slots), omega (arith, no_bytes), ap suc size)
