-- ===== src/Client/DuplicateDetector.antt =====
-- client-sdk/src/duplicate_detection.rs: `DuplicateDetector`. The hash of `FxHasher` is an argument; the
-- entries with a hash are those that a list of pairs has for it, in order.
pub mod Exact
use clipboard_history.Prelude.{
  ℕ, ◌^◌, Bool, true, false, Option, none, some, List, [], ◌∷◌, ◌++◌, Result, ok, err, length,
  bit_and, leb, ◌==◌, if◌then◌else◌,
}
use clipboard_history.Prelude.Bits.{mask}
use clipboard_history.Prelude.Files.{Bytes}
use clipboard_history.Core.Views.{RingAndIndex, id_of}
use clipboard_history.Server.Store.{bytes_eq}
use clipboard_history.Client.RingReader.{ReaderEntry, DatabaseReader, get_raw}
use clipboard_history.Client.EntryReader.{
  EntryReader, Kind, bucket, file, kind, to_slice, to_slice_raw,
}

-- `hashes`
abbrev pub Hashes : Type 0
Hashes = List (ℕ × RingAndIndex)

unfoldable pub entries_with : ℕ → Hashes → List RingAndIndex
entries_with hash [] = []
entries_with hash ((h, rai) ∷ rest) =
    let later = entries_with hash rest in if h == hash then rai ∷ later else later

-- An error of the core, or a panic of `unwrap`.
pub data DetectError : Type 0 where
  core_error panicked : DetectError

-- The data of an entry that is to be hashed; a direct file is mapped.
abbrev pub loaded_of : Result (Option Bytes) (Unit {0}) → Result Bytes DetectError
loaded_of (err e) = err core_error
loaded_of (ok none) = err panicked
loaded_of (ok (some bytes)) = ok bytes

-- The hash of a text, and that of a direct file, which is of its length if that is long.
abbrev pub hash_kind : (Bytes → ℕ) → (ℕ → ℕ) → Kind → Bytes → ℕ
hash_kind fx_bytes fx_len (bucket e) bytes = fx_bytes bytes
hash_kind fx_bytes fx_len file bytes =
    if leb 4096 (length bytes) then fx_len (length bytes) else fx_bytes bytes

-- `u32::try_from(hash & u64::from(u32::MAX))`
unfoldable pub hash_entry :
    (Bytes → ℕ) → (ℕ → ℕ) → ReaderEntry → EntryReader → Result ℕ DetectError × EntryReader
hash_entry fx_bytes fx_len entry reader =
    let (loaded, reader') = to_slice entry reader in
    (
      elim (loaded_of loaded) [
        | err e ↦ err e
        | ok bytes ↦ ok (bit_and (hash_kind fx_bytes fx_len (kind entry) bytes) (mask 32))
      ],
      reader',
    )

-- The data of an earlier entry; a mapping that is too short is `IdNotFoundError::Entry`.
unfoldable pub raw_data : DatabaseReader → EntryReader → RingAndIndex → Result Bytes DetectError
raw_data database reader rai = elim (id_of rai) [
  | none ↦ err panicked
  | some id ↦ elim (get_raw database id) [
    | err e ↦ err core_error
    | ok entry ↦ elim (to_slice_raw entry reader) [
      | err e ↦ err core_error
      | ok none ↦ err core_error
      | ok (some bytes) ↦ ok bytes
    ]
  ]
]

-- The loop over the entries with the hash.
unfoldable pub any_same :
    DatabaseReader → EntryReader → Bytes → List RingAndIndex → Result Bool DetectError
any_same database reader content [] = ok false
any_same database reader content (rai ∷ rest) =
    let later = any_same database reader content rest in
    elim (raw_data database reader rai) [
      | err e ↦ err e
      | ok bytes ↦ if bytes_eq content bytes then ok true else later
    ]

abbrev pub first_with : List RingAndIndex → Bool
first_with [] = true
first_with (rai ∷ rest) = false

-- Whether an entry is known, with the hash, among the entries that have it.
unfoldable pub is_known :
    DatabaseReader → EntryReader → ReaderEntry → List RingAndIndex → Result Bool DetectError
is_known database reader entry [] = ok false
is_known database reader entry (rai ∷ rest) = elim (loaded_of (to_slice_raw entry reader)) [
  | err e ↦ err e
  | ok content ↦ any_same database reader content (rai ∷ rest)
]

-- `add_entry`
unfoldable pub add_entry :
    (Bytes → ℕ)
    → (ℕ → ℕ)
    → ReaderEntry
    → DatabaseReader
    → EntryReader
    → Hashes
    → Result Bool DetectError × Hashes × EntryReader
add_entry fx_bytes fx_len entry database reader hashes =
    let (hashed, reader') = hash_entry fx_bytes fx_len entry reader in
    elim hashed [
      | err e ↦ (err e, hashes, reader')
      | ok hash ↦ elim (is_known database reader' entry (entries_with hash hashes)) [
        | err e ↦ (err e, hashes, reader')
        | ok true ↦ (ok true, hashes, reader')
        | ok false ↦ (ok false, hashes ++ ((hash, entry.rai) ∷ []), reader')
      ]
    ]
