-- ===== src/Cli/Stats.antt =====
-- cli/src/main.rs: what the command `stats` counts. How many blocks a direct file takes is an argument.
pub mod Seen
pub mod Entries
pub mod Sums
pub mod Counted
pub mod Totals
use clipboard_history.Prelude.{
  ℕ, zero, suc, ◌+◌, ◌-◌, ◌*◌, ◌/◌, ◌^◌, min, max, Bool, true, false, Option, none, some, List, [],
  ◌∷◌, Result, ok, err, length, get_or, set, if◌then◌else◌,
}
use clipboard_history.Prelude.Results.{◌>>=◌}
use clipboard_history.Prelude.Files.{Bytes}
use clipboard_history.Core.Protocol.{RingKind, favorites, main}
use clipboard_history.Core.Buckets.{size_to_bucket, bucket_to_length}
use clipboard_history.Core.FileName.{direct_file_name}
use clipboard_history.Core.InitializedEntry
use clipboard_history.Core.InitializedEntry.{InitializedEntry}
use clipboard_history.Core.Ring.{Ring}
use clipboard_history.Core.Views.{ring_of, packed_index}
use clipboard_history.Server.Store.{DirectFile, bytes_eq}
use clipboard_history.Client.RingReader.{ReaderEntry, DatabaseReader}
use clipboard_history.Client.EntryReader.{EntryReader, Kind, bucket, file, kind}
use clipboard_history.Client.DuplicateDetector.{Hashes, DetectError, core_error, add_entry}
use clipboard_history.Client.UiActor.{oldest_first}

pub record RingStats : Type 0 where
  pub capacity : ℕ
  pub len : ℕ
  pub bucketed_entry_count : ℕ
  pub file_entry_count : ℕ
  pub num_duplicates : ℕ
  pub min_entry_size : ℕ
  pub max_entry_size : ℕ
  pub owned_bytes : ℕ

pub record BucketStats : Type 0 where
  pub size_class : ℕ
  pub num_slots : ℕ
  pub used_slots : ℕ
  pub owned_bytes : ℕ

pub record DirectFileStats : Type 0 where
  pub owned_bytes : ℕ
  pub allocated_bytes : ℕ
  pub mime_types : List (Bytes × ℕ)

-- The counts, the detector and the reader while a ring is read.
pub record Tally : Type 0 where
  pub ring : RingStats
  pub buckets : List BucketStats
  pub direct_files : DirectFileStats
  pub hashes : Hashes
  pub reader : EntryReader

abbrev pub no_bucket : BucketStats
no_bucket = record { size_class = 0; num_slots = 0; used_slots = 0; owned_bytes = 0 }

-- The first loop: the classes and the slots of the buckets, of which so much is mapped.
unfoldable pub start_buckets : ℕ → List ℕ → List BucketStats
start_buckets i [] = []
start_buckets i (len ∷ lens) =
    record no_bucket { size_class = i + 2; num_slots = len / bucket_to_length i }
    ∷ start_buckets (i + 1) lens

-- A ring's counts before its entries; `min_entry_size` is `u64::MAX`.
abbrev pub start_ring : Ring → RingStats
start_ring ring = record {
  capacity = ring.capacity;
  len = ring.len;
  bucketed_entry_count = 0;
  file_entry_count = 0;
  num_duplicates = 0;
  min_entry_size = 2 ^ 64 - 1;
  max_entry_size = 0;
  owned_bytes = 0;
}

-- `mime_types.entry(mime).or_default() += 1`
unfoldable pub count_mime : Bytes → List (Bytes × ℕ) → List (Bytes × ℕ)
count_mime mime [] = (mime, 1) ∷ []
count_mime mime ((m, n) ∷ rest) =
    let later = count_mime mime rest in
    if bytes_eq m mime then (m, n + 1) ∷ rest else (m, n) ∷ later

unfoldable pub count_bucketed : InitializedEntry → Tally → Tally
count_bucketed e t =
    let b = size_to_bucket (InitializedEntry.size e) in
    let stats = get_or t.buckets b no_bucket in
    record t {
      ring = record t.ring { bucketed_entry_count = t.ring.bucketed_entry_count + 1 };
      buckets = set t.buckets b (record stats {
        used_slots = stats.used_slots + 1;
        owned_bytes = stats.owned_bytes + InitializedEntry.size e;
      });
    }

unfoldable pub count_file : ℕ → DirectFile → Tally → Tally
count_file blocks f t = record t {
  ring = record t.ring { file_entry_count = t.ring.file_entry_count + 1 };
  direct_files = record {
    owned_bytes = t.direct_files.owned_bytes + length f.content;
    allocated_bytes = t.direct_files.allocated_bytes + blocks * 512;
    mime_types = count_mime f.mime t.direct_files.mime_types;
  };
}

-- `to_file` of a direct file
unfoldable pub file_of : EntryReader → ReaderEntry → Option DirectFile
file_of reader entry = elim (ring_of entry.rai) [
  | none ↦ none
  | some ring ↦ reader.direct (direct_file_name ring (packed_index entry.rai))
]

-- The size of the entry, and the counts of its kind.
unfoldable pub count_kind : (Bytes → ℕ) → ReaderEntry → Tally → Result (ℕ × Tally) DetectError
count_kind blocks entry t = elim (kind entry) [
  | bucket e ↦ ok (InitializedEntry.size e, count_bucketed e t)
  | file ↦ elim (file_of t.reader entry) [
    | none ↦ err core_error
    | some f ↦ ok (length f.content, count_file (blocks f.content) f t)
  ]
]

unfoldable pub count_size : ℕ → Bool → RingStats → RingStats
count_size size duplicate ring = record ring {
  owned_bytes = ring.owned_bytes + size;
  min_entry_size = min ring.min_entry_size size;
  max_entry_size = max ring.max_entry_size size;
  num_duplicates = if duplicate then ring.num_duplicates + 1 else ring.num_duplicates;
}

module _ (fx_bytes : Bytes → ℕ) (fx_len : ℕ → ℕ) (blocks : Bytes → ℕ)
    (database : DatabaseReader) where
  unfoldable pub count_entry : ReaderEntry → Tally → Result Tally DetectError
  count_entry entry t =
      let (answer, hashes, reader) = add_entry fx_bytes fx_len entry database t.reader t.hashes in
      count_kind blocks entry t >>= λ (size, t'). answer >>= λ duplicate.
      ok (record t' { ring = count_size size duplicate t'.ring; hashes = hashes; reader = reader })

  unfoldable pub count_entries : List ReaderEntry → Tally → Result Tally DetectError
  count_entries [] t = ok t
  count_entries (entry ∷ entries) t = count_entry entry t >>= λ t'. count_entries entries t'

  -- `stats`: the counts after the favorites, and after the main ring.
  unfoldable pub stats : EntryReader → Result (Tally × Tally) DetectError
  stats reader =
      count_entries (oldest_first database.favorites favorites) (record {
        ring = start_ring database.favorites;
        buckets = start_buckets 0 reader.mapped;
        direct_files = record { owned_bytes = 0; allocated_bytes = 0; mime_types = [] };
        hashes = [];
        reader = reader;
      })
      >>= λ favs.
          count_entries (oldest_first database.main main)
            (record favs { ring = start_ring database.main })
          >>= λ mains. ok (favs, mains)
