-- ===== src/Core/Entry/Words.antt =====
-- Entries and their words: what is written is read back.
use clipboard_history.Prelude.{ℕ, ◌^◌, ◌<◌, ◌≡◌, refl, arith}
use clipboard_history.Core.InitializedEntry.{size, is_file, bucket, max_entries}
use clipboard_history.Core.InitializedEntry.Fields.{size_mod, bucket_fields}
use clipboard_history.Core.Entry.{Entry, uninitialized, bucketed, file, raw_of_entry, entry_of_raw}

-- What an entry may hold: a slot's word has 32 bits and a size.
abbrev pub IsEntry : Entry → Type 0
IsEntry uninitialized = Unit {0}
IsEntry (bucketed e) = (0 < size e) × (e < 2 ^ 32)
IsEntry file = Unit {0}

pub raw_of_entry-lt : (e : Entry) → IsEntry e → raw_of_entry e < 2 ^ 32
unfolding raw_of_entry
raw_of_entry-lt uninitialized h = omega arith
raw_of_entry-lt (bucketed w) h = h.1
raw_of_entry-lt file h = omega arith

-- An entry is read back from its word.
pub entry_of_raw-raw_of_entry : (e : Entry) → IsEntry e → entry_of_raw (raw_of_entry e) ≡ e
unfolding entry_of_raw raw_of_entry is_file size
entry_of_raw-raw_of_entry uninitialized h = refl
entry_of_raw-raw_of_entry (bucketed w) h = ground (arith, size_mod w)
entry_of_raw-raw_of_entry file h = refl

pub entry_of_raw-IsEntry : (w : ℕ) → w < 2 ^ 32 → IsEntry (entry_of_raw w)
unfolding entry_of_raw is_file
entry_of_raw-IsEntry w h = ground arith

pub IsEntry-bucket :
    (s i : ℕ) → 0 < s → s < 2 ^ 12 → i < max_entries → IsEntry (bucketed (bucket s i))
IsEntry-bucket s i pos hs hi = omega (arith, bucket_fields s i pos hs hi)
