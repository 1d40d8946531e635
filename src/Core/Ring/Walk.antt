-- ===== src/Core/Ring/Walk.antt =====
-- The steps round a ring, and how a ring is opened.
use clipboard_history.Prelude.{min, max, ℕ, ◌+◌, ◌≤◌, ◌<◌, ◌≡◌, ok, arith, length, max}
use clipboard_history.Prelude.Files.{Bytes}
use clipboard_history.Core.InitializedEntry.{max_entries}
use clipboard_history.Core.Ring.{
  Ring, open_fd, next_head, next_entry, prev_entry, entries_to_offset,
}

-- On the indices of a ring that is not empty, stepping forward and stepping back undo one another,
-- and both stay inside the ring.
pub next_entry-prev_entry :
    (r : Ring) (i : ℕ)
    → i < r.len
    → (next_entry r (prev_entry r i) ≡ i)
      × (prev_entry r (next_entry r i) ≡ i)
      × (next_entry r i < r.len)
      × (prev_entry r i < r.len)
unfolding next_entry prev_entry
next_entry-prev_entry r i h = ground arith

pub next_head-lt : (r : Ring) (i : ℕ) → 0 < r.capacity → next_head r i < r.capacity
unfolding next_head
next_head-lt r i h = ground arith

-- A ring opens with as many entries as the file holds whole words behind its header, with room for
-- them, and with a capacity of what was asked for, or of what the file holds where that is more, up
-- to the maximum.
pub open_fd_sizes :
    (requested : ℕ) (f : Bytes) {r : Ring}
    → open_fd requested f ≡ ok r
    → (r.mem ≡ f)
      × (r.len ≤ r.capacity)
      × (r.capacity ≤ max_entries)
      × (entries_to_offset r.len ≤ max 8 (length f))
      × (length f < entries_to_offset (r.len + 1))
      × (r.capacity ≡ min (max requested r.len) max_entries)
unfolding open_fd
open_fd_sizes requested f e = ground arith
