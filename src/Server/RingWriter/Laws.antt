-- ===== src/Server/RingWriter/Laws.antt =====
-- What a reader of the ring sees after the server's writes.
use clipboard_history.Prelude.{
  ℕ, ◌+◌, ◌≤◌, ◌<◌, ◌^◌, ◌≡◌, ◌≢◌, ◌⊎◌, inl, inr, refl, ap, none, some, length, arith, ltb, leb,
  ◌==◌, if◌then◌else◌, max,
}
use mathlib.Core.Path.{subst}
use clipboard_history.Prelude.Files.{
  read_u32, read_u32-lt, to_le_bytes, length-write_at, read_u32-write_at_self,
  read_u32-write_at_other,
}
use clipboard_history.Core.Entry.{Entry, raw_of_entry, entry_of_raw}
use clipboard_history.Core.Entry.Words.{
  entry_of_raw-IsEntry, IsEntry, raw_of_entry-lt, entry_of_raw-raw_of_entry,
}
use clipboard_history.Core.Ring.{Ring, get, write_head, entries_to_offset}
use clipboard_history.Server.RingWriter.{write, set_write_head}

apart :
    (i j : ℕ)
    → i ≢ j
    → (entries_to_offset j + 4 ≤ entries_to_offset i)
      ⊎ (entries_to_offset i + 4 ≤ entries_to_offset j)
apart i j h = grind arith

pub len-write : (e : Entry) (i : ℕ) (r : Ring) → (write e i r).len ≡ r.len
unfolding write
len-write e i r = refl

pub len-set_write_head : (h : ℕ) (r : Ring) → (set_write_head h r).len ≡ r.len
unfolding set_write_head
len-set_write_head h r = refl

-- The entry in the file at a position, whatever the length of the ring.
unfoldable pub slot_entry : Ring → ℕ → Entry
slot_entry r i = entry_of_raw (read_u32 r.mem (entries_to_offset i))

pub get-slot_entry :
    (r : Ring) (i : ℕ) → get r i ≡ (if leb r.len i then none else some (slot_entry r i))
unfolding get slot_entry
get-slot_entry r i = refl

pub slot_entry-IsEntry : (r : Ring) (i : ℕ) → IsEntry (slot_entry r i)
unfolding slot_entry
slot_entry-IsEntry r i =
    entry_of_raw-IsEntry (read_u32 r.mem (entries_to_offset i))
      (read_u32-lt r.mem (entries_to_offset i))

pub slot_entry-write :
    (e : Entry) (i : ℕ) (r : Ring) (j : ℕ)
    → IsEntry e
    → slot_entry (write e i r) j ≡ (if i == j then e else slot_entry r j)
unfolding slot_entry write
slot_entry-write e i r j h = ground (
  arith,
  apart i j,
  read_u32-write_at_self r.mem (entries_to_offset i) (raw_of_entry e) (raw_of_entry-lt e h),
  read_u32-write_at_other r.mem (entries_to_offset i) (raw_of_entry e) (entries_to_offset j),
  entry_of_raw-raw_of_entry e h,
)

pub slot_entry-set_write_head :
    (h : ℕ) (r : Ring) (j : ℕ) → slot_entry (set_write_head h r) j ≡ slot_entry r j
unfolding slot_entry set_write_head
slot_entry-set_write_head h r j =
    ap entry_of_raw (read_u32-write_at_other r.mem 4 h (entries_to_offset j) (inr (omega arith)))

-- What a reader gets lies inside the ring and is a proper entry.
pub get-eq-some :
    (r : Ring) (i : ℕ) (e : Entry)
    → get r i ≡ some e
    → (i < r.len) × (slot_entry r i ≡ e) × IsEntry e
get-eq-some r i e h =
    let (within, same) = parts in (within, same, subst IsEntry same (slot_entry-IsEntry r i))
  where
    parts : (i < r.len) × (slot_entry r i ≡ e)
    parts = ground (arith, get-slot_entry r i)

-- A reader sees the written entry at its position, if the ring is that long, and every other
-- position as before.
pub get-write :
    (e : Entry) (i : ℕ) (r : Ring) (j : ℕ)
    → IsEntry e
    → get (write e i r) j ≡ (if i == j then (if ltb j r.len then some e else none) else get r j)
get-write e i r j h = ground (
  arith,
  get-slot_entry (write e i r) j,
  get-slot_entry r j,
  slot_entry-write e i r j h,
  len-write e i r,
)

pub write_head-write : (e : Entry) (i : ℕ) (r : Ring) → write_head (write e i r) ≡ write_head r
unfolding write write_head
write_head-write e i r =
    read_u32-write_at_other r.mem (entries_to_offset i) (raw_of_entry e) 4 (inl (omega arith))

pub get-set_write_head : (h : ℕ) (r : Ring) (j : ℕ) → get (set_write_head h r) j ≡ get r j
unfolding get set_write_head
get-set_write_head h r j =
    ground (arith, read_u32-write_at_other r.mem 4 h (entries_to_offset j) (inr (omega arith)))

pub write_head-set_write_head :
    (h : ℕ) (r : Ring) → h < 2 ^ 32 → write_head (set_write_head h r) ≡ h
unfolding set_write_head write_head
write_head-set_write_head h r lt = read_u32-write_at_self r.mem 4 h lt

pub length-write :
    (e : Entry) (i : ℕ) (r : Ring)
    → length (write e i r).mem ≡ max (length r.mem) (entries_to_offset (i + 1))
unfolding write to_le_bytes
length-write e i r =
    omega (arith, length-write_at r.mem (entries_to_offset i) (to_le_bytes (raw_of_entry e)))

pub length-set_write_head :
    (h : ℕ) (r : Ring) → length (set_write_head h r).mem ≡ max (length r.mem) 8
unfolding set_write_head to_le_bytes
length-set_write_head h r = omega (arith, length-write_at r.mem 4 (to_le_bytes h))
