-- ===== src/Server/RingWriter.antt =====
-- server/src/allocator.rs: `struct RingWriter`, the server's writes to a ring file. The reader's
-- mapping shares the file's bytes, so a write is a change of `Ring.mem`.
pub mod Laws
use clipboard_history.Prelude.{ℕ, ◌++◌, ◌∷◌, []}
use clipboard_history.Prelude.Files.{Bytes, write_at, to_le_bytes}
use clipboard_history.Core.Entry.{Entry, raw_of_entry}
use clipboard_history.Core.Ring.{Ring, Header, default_header, entries_to_offset}

-- What `RingWriter::open` writes to a file that it creates.
unfoldable pub header_bytes : Bytes
header_bytes =
    default_header.magic ++ (default_header.version ∷ to_le_bytes default_header.write_head)

-- `RingWriter::write`, where the system call succeeds.
unfoldable pub write : Entry → ℕ → Ring → Ring
write entry at r = record r {
  mem = write_at r.mem (entries_to_offset at) (to_le_bytes (raw_of_entry entry));
}

-- `RingWriter::set_write_head`, where the system call succeeds.
unfoldable pub set_write_head : ℕ → Ring → Ring
set_write_head head r = record r { mem = write_at r.mem 4 (to_le_bytes head) }
