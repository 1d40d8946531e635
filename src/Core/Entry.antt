-- ===== src/Core/Entry.antt =====
-- core/src/ring.rs: `enum Entry` and the 32-bit word `RawEntry` that the ring file holds for it.
pub mod Words
use clipboard_history.Prelude.{ℕ, ◌==◌, if◌then◌else◌}
use clipboard_history.Core.InitializedEntry.{InitializedEntry, file_word, is_file}

pub data Entry : Type 0 where
  uninitialized : Entry
  bucketed : InitializedEntry → Entry
  file : Entry

-- `impl From<Entry> for RawEntry`
unfoldable pub raw_of_entry : Entry → ℕ
raw_of_entry uninitialized = 0
raw_of_entry (bucketed e) = e
raw_of_entry file = file_word

-- `impl From<RawEntry> for Entry`
unfoldable pub entry_of_raw : ℕ → Entry
entry_of_raw value =
    if value == 0 then uninitialized else if is_file value then file else bucketed value
