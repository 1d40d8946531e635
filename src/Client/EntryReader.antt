-- ===== src/Client/EntryReader.antt =====
-- client-sdk/src/ring_reader.rs: `EntryReader` and the methods of `Entry` that load an entry's data.
pub mod Loading
use clipboard_history.Prelude.{
  ℕ, ◌+◌, ◌*◌, Bool, true, false, Option, none, some, List, [], Result, ok, err, get_or, set, ltb,
  if◌then◌else◌,
}
use clipboard_history.Prelude.Files.{Bytes, read_at}
use clipboard_history.Core.Protocol.{RingKind}
use clipboard_history.Core.InitializedEntry
use clipboard_history.Core.InitializedEntry.{InitializedEntry, is_file}
use clipboard_history.Core.Buckets.{size_to_bucket, bucket_to_length}
use clipboard_history.Core.FileName.{direct_file_name}
use clipboard_history.Core.Views.{ring_of, packed_index}
use clipboard_history.Server.Store.{Directory, DirectFile}
use clipboard_history.Client.RingReader.{ReaderEntry}

-- The mapped bucket files: the contents, shared with the server, and how much of each is mapped.
pub record EntryReader : Type 0 where
  pub buckets : List Bytes
  pub mapped : List ℕ
  pub direct : Directory

pub data Kind : Type 0 where
  bucket : InitializedEntry → Kind
  file : Kind

-- `Entry::kind`
unfoldable pub kind : ReaderEntry → Kind
kind entry = elim (is_file entry.metadata) [ true ↦ file | false ↦ bucket entry.metadata ]

pub record BucketTooShort : Type 0 where
  pub bucket : ℕ
  pub needed_len : ℕ

unfoldable pub bucket_entry_to_slice : EntryReader → InitializedEntry → Result Bytes BucketTooShort
bucket_entry_to_slice reader entry =
    let index = InitializedEntry.index entry in
    let size = InitializedEntry.size entry in
    let b = size_to_bucket size in
    let size_class = bucket_to_length b in
    let start = size_class * index in
    if ltb (get_or reader.mapped b 0) (start + size)
    then err (record { bucket = b; needed_len = size_class * (index + 1) })
    else ok (read_at (get_or reader.buckets b []) start size)

-- `Mmap::remap`, where the system call succeeds.
unfoldable pub remap : ℕ → ℕ → EntryReader → EntryReader
remap b len reader = record reader { mapped = set reader.mapped b len }

unfoldable pub grow_bucket_if_needed : ReaderEntry → EntryReader → EntryReader
grow_bucket_if_needed entry reader = elim (kind entry) [
  | file ↦ reader
  | bucket e ↦ elim (bucket_entry_to_slice reader e) [
    | ok bytes ↦ reader
    | err short ↦ remap short.bucket short.needed_len reader
  ]
]

-- `to_slice_raw`: `err` for a direct file that cannot be opened, `none` for a mapping too short.
unfoldable pub to_slice_raw : ReaderEntry → EntryReader → Result (Option Bytes) (Unit {0})
to_slice_raw entry reader = elim (kind entry) [
  | bucket e ↦ elim (bucket_entry_to_slice reader e) [
    | err short ↦ ok none
    | ok bytes ↦ ok (some bytes)
  ]
  | file ↦ elim (ring_of entry.rai) [
    | none ↦ err tt
    | some ring ↦ elim (reader.direct (direct_file_name ring (packed_index entry.rai))) [
      | none ↦ err tt
      | some f ↦ ok (some f.content)
    ]
  ]
]

-- `to_slice`: the result, `none` where its `unwrap` panics, and the reader with its mapping grown.
unfoldable pub to_slice : ReaderEntry → EntryReader → Result (Option Bytes) (Unit {0}) × EntryReader
to_slice entry reader =
    let reader' = grow_bucket_if_needed entry reader in (to_slice_raw entry reader', reader')

-- `mime_type`: of the attribute of a direct file; a file without one has the empty type.
unfoldable pub mime_type : ReaderEntry → EntryReader → Result Bytes (Unit {0})
mime_type entry reader = elim (kind entry) [
  | bucket e ↦ ok []
  | file ↦ elim (ring_of entry.rai) [
    | none ↦ err tt
    | some ring ↦ elim (reader.direct (direct_file_name ring (packed_index entry.rai))) [
      | none ↦ err tt
      | some f ↦ ok f.mime
    ]
  ]
]
