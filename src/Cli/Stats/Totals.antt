-- ===== src/Cli/Stats/Totals.antt =====
-- cli/src/main.rs: the counts of `stats` are those of the entries, and agree.
use clipboard_history.Prelude.{
  ℕ, zero, suc, ◌+◌, ◌-◌, ◌/◌, ◌^◌, ◌++◌, ◌<◌, ◌≡◌, refl, ◌∙◌, ap, Bool, List, [], ◌∷◌, Result, ok,
  err, length, get_or, arith,
}
use clipboard_history.Prelude.Results.{◌>>=◌, Ensures, >>=-Ensures}
use clipboard_history.Prelude.Files.{Bytes}
use clipboard_history.Core.Protocol.{favorites, main}
use clipboard_history.Client.RingReader.{ReaderEntry, DatabaseReader}
use clipboard_history.Client.EntryReader.{EntryReader}
use clipboard_history.Client.DuplicateDetector.{DetectError}
use clipboard_history.Client.UiActor.{oldest_first}
use clipboard_history.Core.Ring.{Ring}
use clipboard_history.Client.DuplicateDetector.{Hashes}
use clipboard_history.Client.DuplicateDetector.Exact.{detect}
use clipboard_history.Core.Buckets.{bucket_to_length}
use clipboard_history.Cli.Stats.Seen.{
  Seen, size_seen, allocated_seen, typed_seen, class_seen, class_bytes_seen, count_of,
}
use clipboard_history.Cli.Stats.Sums.{
  all_seen, sum, least, greatest, trues, Sums, count_entries-Sums,
}
use clipboard_history.Cli.Stats.{
  RingStats, Tally, no_bucket, start_buckets, start_ring, count_entries, stats,
}
use clipboard_history.Cli.Stats.Counted.{
  total, used, owned, Counted, count_entries-Counted, total-start_buckets,
}

sum-append : (f : Seen → ℕ) (xs ys : List Seen) → sum f (xs ++ ys) ≡ sum f xs + sum f ys
sum-append f [] ys = omega arith
sum-append f (x ∷ xs) ys = omega (arith, sum-append f xs ys)

Ensures-both :
    (P Q : Tally → Type 0) (m : Result Tally DetectError)
    → Ensures P m
    → Ensures Q m
    → Ensures (λ t. P t × Q t) m
Ensures-both P Q (ok t) p q = (p, q)
Ensures-both P Q (err e) p q = tt

module _ (fx_bytes : Bytes → ℕ) (fx_len : ℕ → ℕ) (blocks : Bytes → ℕ)
    (database : DatabaseReader) where
  abbrev start : EntryReader → Tally
  start reader = record {
    ring = start_ring database.favorites;
    buckets = start_buckets 0 reader.mapped;
    direct_files = record { owned_bytes = 0; allocated_bytes = 0; mime_types = [] };
    hashes = [];
    reader = reader;
  }

  abbrev next_start : Tally → Tally
  next_start favs = record favs { ring = start_ring database.main }

  -- What the reader of the start sees in the two rings.
  abbrev pub both : EntryReader → List Seen
  both reader =
      all_seen reader (oldest_first database.favorites favorites)
      ++ all_seen reader (oldest_first database.main main)

  sum-append_seen :
      (f : Seen → ℕ) (reader : EntryReader)
      → sum f (both reader)
        ≡ sum f (all_seen reader (oldest_first database.favorites favorites))
          + sum f (all_seen reader (oldest_first database.main main))
  sum-append_seen f reader =
      sum-append f (all_seen reader (oldest_first database.favorites favorites))
        (all_seen reader (oldest_first database.main main))

  get_or-start_buckets :
      (k : ℕ) (lens : List ℕ) (i : ℕ)
      → i < length lens
      → ((get_or (start_buckets k lens) i no_bucket).size_class ≡ k + i + 2)
        × ((get_or (start_buckets k lens) i no_bucket).num_slots
            ≡ get_or lens i 0 / bucket_to_length (k + i))
        × ((get_or (start_buckets k lens) i no_bucket).used_slots ≡ 0)
        × ((get_or (start_buckets k lens) i no_bucket).owned_bytes ≡ 0)
  unfolding start_buckets
  get_or-start_buckets k [] i lt = absurd (omega arith)
  get_or-start_buckets k (len ∷ lens) zero lt =
      (omega arith, ap (λ n. len / bucket_to_length n) (omega arith), refl, refl)
  get_or-start_buckets k (len ∷ lens) (suc i) lt =
      let (class, slots, used_none, owned_none) =
        get_or-start_buckets (k + 1) lens i (omega arith) in
      (
        omega (arith, class),
        slots ∙ ap (λ n. get_or lens i 0 / bucket_to_length n) (omega arith),
        used_none,
        owned_none,
      )

  -- The counts of a ring whose entries are `xs`, of which the reader of the start sees the texts and the
  -- direct files, and which a detector that goes on from `now` and `hashes` answers with `flags`.
  pub record RingReport (reader : EntryReader) (source : Ring) (xs : List ReaderEntry)
      (now : EntryReader) (hashes : Hashes) (ring : RingStats) : Type 0 where
    pub capacity : ring.capacity ≡ source.capacity
    pub len : ring.len ≡ source.len
    pub entries : ring.bucketed_entry_count + ring.file_entry_count ≡ length xs
    pub owned : ring.owned_bytes ≡ sum size_seen (all_seen reader xs)
    pub smallest : ring.min_entry_size ≡ least (2 ^ 64 - 1) (all_seen reader xs)
    pub largest : ring.max_entry_size ≡ greatest 0 (all_seen reader xs)
    pub flags : List Bool
    pub detected : detect fx_bytes fx_len database reader xs now hashes ≡ ok flags
    pub duplicates : ring.num_duplicates ≡ trues flags

  -- What `stats` ends with, with regard to a bucket `i` and the direct files of a type.
  pub record Report (reader : EntryReader) (i : ℕ) (mime : Bytes) (favs mains : Tally)
      : Type 0 where
    pub favorite_ring :
        RingReport reader database.favorites
          (oldest_first database.favorites favorites)
          reader
          []
          favs.ring
    pub main_ring :
        RingReport reader database.main
          (oldest_first database.main main)
          favs.reader
          favs.hashes
          mains.ring
    pub used_slots :
        total used mains.buckets ≡ favs.ring.bucketed_entry_count + mains.ring.bucketed_entry_count
    pub owned_bytes :
        total owned mains.buckets + mains.direct_files.owned_bytes
        ≡ favs.ring.owned_bytes + mains.ring.owned_bytes
    pub size_class : (get_or mains.buckets i no_bucket).size_class ≡ i + 2
    pub num_slots :
        (get_or mains.buckets i no_bucket).num_slots ≡ get_or reader.mapped i 0 / bucket_to_length i
    pub used_here : (get_or mains.buckets i no_bucket).used_slots ≡ sum (class_seen i) (both reader)
    pub owned_here :
        (get_or mains.buckets i no_bucket).owned_bytes ≡ sum (class_bytes_seen i) (both reader)
    pub allocated : mains.direct_files.allocated_bytes ≡ sum (allocated_seen blocks) (both reader)
    pub typed : count_of mime mains.direct_files.mime_types ≡ sum (typed_seen mime) (both reader)

  abbrev read : List ReaderEntry → Tally → Result Tally DetectError
  read = count_entries fx_bytes fx_len blocks database

  abbrev Counts : EntryReader → List ReaderEntry → Tally → Tally → Type 0
  Counts reader xs t t' =
      Counted (length xs) t t' × Sums fx_bytes fx_len blocks database reader xs t t'

  read-Counts :
      (reader : EntryReader) (xs : List ReaderEntry) (t : Tally)
      → length t.buckets ≡ 11
      → t.reader.direct ≡ reader.direct
      → Ensures (Counts reader xs t) (read xs t)
  read-Counts reader xs t eleven same =
      Ensures-both (Counted (length xs) t) (Sums fx_bytes fx_len blocks database reader xs t)
        (read xs t) (count_entries-Counted fx_bytes fx_len blocks database xs t eleven)
        (count_entries-Sums fx_bytes fx_len blocks database reader xs t eleven same)

  report :
      (reader : EntryReader) (i : ℕ) (mime : Bytes) (favs mains : Tally)
      → length reader.mapped ≡ 11
      → i < 11
      → Counted (length (oldest_first database.favorites favorites)) (start reader) favs
      → Sums fx_bytes fx_len blocks database reader
          (oldest_first database.favorites favorites)
          (start reader)
          favs
      → Counted (length (oldest_first database.main main)) (next_start favs) mains
      → Sums fx_bytes fx_len blocks database reader
          (oldest_first database.main main)
          (next_start favs)
          mains
      → Report reader i mime favs mains
  report reader i mime favs mains eleven lt (counts, slots, bytes, _) sums
        (counts', slots', bytes', _) sums' =
      let (no_slots, no_bytes, _) =
        total-start_buckets fx_bytes fx_len blocks database 0 reader.mapped in
      let (class, mapped, used_none, owned_none) =
        get_or-start_buckets 0 reader.mapped i (omega (arith, eleven)) in
      record {
        favorite_ring = record {
          capacity = sums.shape.0;
          len = sums.shape.1;
          entries = omega (arith, counts);
          owned = omega (arith, sums.owned);
          smallest = sums.smallest;
          largest = sums.largest;
          flags = sums.flags;
          detected = sums.detected;
          duplicates = omega (arith, sums.repeated);
        };
        main_ring = record {
          capacity = sums'.shape.0;
          len = sums'.shape.1;
          entries = omega (arith, counts');
          owned = omega (arith, sums'.owned);
          smallest = sums'.smallest;
          largest = sums'.largest;
          flags = sums'.flags;
          detected = sums'.detected;
          duplicates = omega (arith, sums'.repeated);
        };
        used_slots = omega (arith, slots, slots', no_slots);
        owned_bytes = omega (arith, bytes, bytes', no_bytes);
        size_class = omega (arith, sums'.classes i, sums.classes i, class);
        num_slots =
            sums'.slots i
            ∙ sums.slots i
            ∙ mapped
            ∙ ap (λ n. get_or reader.mapped i 0 / bucket_to_length n) (omega arith);
        used_here =
            omega
              (arith, sum-append_seen (class_seen i) reader, sums'.used i, sums.used i, used_none);
        owned_here = omega (
          arith,
          sum-append_seen (class_bytes_seen i) reader,
          sums'.filled i,
          sums.filled i,
          owned_none,
        );
        allocated = omega (
          arith,
          sum-append_seen (allocated_seen blocks) reader,
          sums'.allocated,
          sums.allocated,
        );
        typed =
            omega
              (arith, sum-append_seen (typed_seen mime) reader, sums'.typed mime, sums.typed mime);
      }

  -- What `stats` ends with, if it does not end in an error, on a reader with eleven buckets, with regard
  -- to one of them and to the direct files of a type. Of each ring: its capacity and length; as many
  -- entries in buckets and in files as are read from it; the sum of their sizes, the least of them, or
  -- 2^64 - 1, and the greatest, or 0; and as many duplicates as the detector reports, which goes on from
  -- the favorites to the main ring. Of both rings together: the buckets have as many slots in use as there
  -- are entries in buckets, and with the direct files as many bytes as the rings; the bucket has its size
  -- class, as many slots as fit in what is mapped of it, and the texts of its class and their bytes; the
  -- direct files take their blocks of 512 bytes; and those of the type are counted for it.
  pub stats_totals_agree :
      (reader : EntryReader) (i : ℕ) (mime : Bytes)
      → length reader.mapped ≡ 11
      → i < 11
      → Ensures
          (λ (r : Tally × Tally). Report reader i mime r.0 r.1)
          (stats fx_bytes fx_len blocks database reader)
  unfolding stats
  stats_totals_agree reader i mime eleven lt =
      let (_, _, size) = total-start_buckets fx_bytes fx_len blocks database 0 reader.mapped in
      let favorite_entries = oldest_first database.favorites favorites in
      let main_entries = oldest_first database.main main in
      >>=-Ensures (Counts reader favorite_entries (start reader))
        (λ (r : Tally × Tally). Report reader i mime r.0 r.1) (read favorite_entries (start reader))
        (λ favs. read main_entries (next_start favs) >>= λ mains. ok (favs, mains))
        (read-Counts reader favorite_entries (start reader) (size ∙ eleven) refl)
        (λ favs (counted, sums).
          >>=-Ensures (Counts reader main_entries (next_start favs))
            (λ (r : Tally × Tally). Report reader i mime r.0 r.1)
            (read main_entries (next_start favs)) (λ mains. ok (favs, mains))
            (read-Counts reader main_entries (next_start favs) (sums.size ∙ (size ∙ eleven))
              sums.directory)
            (λ mains (counted', sums').
              report reader i mime favs mains eleven lt counted sums counted' sums'))
