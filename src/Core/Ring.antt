-- ===== src/Core/Ring.antt =====
-- core/src/ring.rs: the header, the offsets and `struct Ring`, a view of the mapped ring file.
-- The mapping is shared with the file, so the file's bytes stand in the ring itself (`mem`), and
-- the server's writer changes them there.
pub mod Walk
use clipboard_history.Prelude.{
  ℕ, ◌+◌, ◌-◌, ◌*◌, ◌/◌, ◌≤◌, ◌<◌, min, max, Bool, true, false, ◌&&◌, ◌||◌, not, Option, none, some,
  List, [], ◌∷◌, ◌++◌, Result, ok, err, length, ltb, leb, ◌==◌, if◌then◌else◌,
}
use clipboard_history.Prelude.Files.{Bytes, byte_at, read_u32, to_le_bytes}
use clipboard_history.Core.InitializedEntry.{max_entries}
use clipboard_history.Core.Entry.{Entry, entry_of_raw}

pub record Ring : Type 0 where
  pub mem : Bytes
  pub len : ℕ
  pub capacity : ℕ

abbrev pub magic : Bytes
magic = 0x4D ∷ 0x18 ∷ 0x32 ∷ []

abbrev pub version : ℕ
version = 0

pub record Header : Type 0 where
  pub magic : Bytes
  pub version : ℕ
  pub write_head : ℕ

abbrev pub default_header : Header
default_header = record { magic = magic; version = version; write_head = 0 }

-- `u64::from(entries) * size_of::<RawEntry>() + size_of::<Header>()`
abbrev pub entries_to_offset : ℕ → ℕ
entries_to_offset entries = entries * 4 + 8

-- The subtraction saturates, as it does on these numbers.
abbrev pub offset_to_entries : ℕ → ℕ
offset_to_entries offset = (offset - 8) / 4

pub data OpenError : Type 0 where
  -- `Not a Ringboard database.`
  invalid_magic : OpenError
  -- `clamp` asserts that its bounds are in order.
  panicked : OpenError

same_magic : Bytes → Bool
same_magic f = byte_at f 0 == 0x4D && (byte_at f 1 == 0x18 && byte_at f 2 == 0x32)

-- `Ring::open_fd` on a file with these bytes, where the system calls succeed.
unfoldable pub open_fd : ℕ → Bytes → Result Ring OpenError
unfolding same_magic
open_fd requested f =
    let entries = offset_to_entries (length f) in
    if ltb max_entries entries
    then err panicked
    else if ltb (length f) 3 || not (same_magic f)
    then err invalid_magic
    else ok (record { mem = f; len = entries; capacity = min (max requested entries) max_entries })

unfoldable pub is_empty : Ring → Bool
is_empty r = r.len == 0

unfoldable pub set_len : ℕ → Ring → Ring
set_len len r = record r { len = len }

unfoldable pub write_head : Ring → ℕ
write_head r = read_u32 r.mem 4

-- `capacity() - 1` is not reached at capacity 0: every ring is opened with a positive one.
unfoldable pub next_head : Ring → ℕ → ℕ
next_head r current = if leb (r.capacity - 1) current then 0 else current + 1

unfoldable pub next_entry : Ring → ℕ → ℕ
unfolding is_empty
next_entry r current =
    if is_empty r then current else if leb (r.len - 1) current then 0 else current + 1

unfoldable pub prev_entry : Ring → ℕ → ℕ
unfolding is_empty
prev_entry r current =
    if is_empty r then current else if current == 0 then r.len - 1 else current - 1

unfoldable pub get : Ring → ℕ → Option Entry
get r index =
    if leb r.len index then none else some (entry_of_raw (read_u32 r.mem (entries_to_offset index)))
