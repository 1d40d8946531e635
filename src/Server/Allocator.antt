-- ===== src/Server/Allocator.antt =====
-- server/src/allocator.rs: the operations of `Allocator` that the requests call.
pub mod Files
pub mod Run
pub mod Owned
pub mod Swap
pub mod Remove
pub mod Room
pub mod Add
pub mod Move
pub mod Placed
pub mod Emptied
use clipboard_history.Prelude.{
  ℕ, ◌+◌, Bool, true, false, not, ◌&&◌, ◌||◌, Option, none, some, List, [], ◌∷◌, Result, ok, err,
  ltb, ◌==◌, if◌then◌else◌,
}
use clipboard_history.Prelude.Files.{Bytes}
use clipboard_history.Core.Protocol.{
  RingKind, favorites, main, IdNotFoundError, composite_id, decompose_id, same_kind,
}
use clipboard_history.Core.Protocol.{entry as entry_not_found}
use clipboard_history.Core.Entry.{Entry, uninitialized, bucketed, file}
use clipboard_history.Core.FileName.{direct_file_name}
use clipboard_history.Core.Ring
use clipboard_history.Server.Store.{
  Allocator, DirectFile, Directory, Context, CliError, io, multiple, M, pure, throw, ◌>>=◌, ◌>>◌,
  on_error, gets, modify, syscall, ring_at, put_ring, write, set_write_head, link, rename_direct,
}
use clipboard_history.Server.Slots.{alloc, free}
use clipboard_history.Server.Gc

-- Makes room at the write head: the entry there is given up.
unfoldable pub make_room : RingKind → ℕ → M (Unit {0})
make_room to head = do
  ring ← gets (ring_at to)
  elim (Ring.get ring head) [
    | none ↦ pure tt
    | some uninitialized ↦ write to uninitialized head
    | some file ↦ do write to uninitialized head; free file to head
    | some (bucketed e) ↦ do
      write to uninitialized head
      free (bucketed e) to head
      freed ← Gc.gc 0xffff
      pure tt
  ]

-- `set_len(len)` if `len` is more than the ring has.
abbrev pub grow_ring : RingKind → ℕ → Allocator → Allocator
grow_ring to len s =
    if ltb (ring_at to s).len len then put_ring to (Ring.set_len len (ring_at to s)) s else s

-- `add_internal`
unfoldable pub add_internal : RingKind → (ℕ → M Entry) → M ℕ
add_internal to make_entry = do
  head ← gets (λ s. Ring.write_head (ring_at to s))
  make_room to head
  entry ← make_entry head
  on_error (write to entry head)
      (λ e. on_error (free entry to head) (λ e2. throw (multiple e e2)) >> throw e)
  next ← gets (λ s. Ring.next_head (ring_at to s) head)
  set_write_head to next
  modify (grow_ring to (head + 1))
  pure head

-- `add`: the identifier of `AddResponse::Success`.
unfoldable pub add : Bytes → RingKind → Bytes → M ℕ
add bytes to mime = do
  id ← add_internal to (λ head. alloc bytes mime to head)
  pure (composite_id to id)

-- `get_entry`
unfoldable pub get_entry : ℕ → Allocator → Result (RingKind × ℕ × Entry) IdNotFoundError
get_entry composite s = elim (decompose_id composite) [
  | err e ↦ err e
  | ok (kind, id) ↦ elim (Ring.get (ring_at kind s) id) [
    | none ↦ err (entry_not_found id)
    | some e ↦ ok (kind, id, e)
  ]
]

-- `renameat` inside the directory, over whatever has the new name.
unfoldable pub rename : Bytes → Bytes → M (Unit {0})
rename from to = do
  syscall rename_direct
  dir ← gets (λ s. s.direct_dir)
  elim (dir from) [
    | none ↦ throw (io rename_direct)
    | some f ↦
        modify (λ s. record s { direct_dir = link to (some f) (link from none s.direct_dir) })
  ]

-- `renameat_with(…, RenameFlags::EXCHANGE)`
unfoldable pub exchange : Bytes → Bytes → M (Unit {0})
exchange from to = do
  syscall rename_direct
  dir ← gets (λ s. s.direct_dir)
  elim (dir from) [
    | none ↦ throw (io rename_direct)
    | some f ↦ elim (dir to) [
      | none ↦ throw (io rename_direct)
      | some g ↦
          modify (λ s. record s { direct_dir = link to (some f) (link from (some g) s.direct_dir) })
    ]
  ]

-- The closure of `move_to_front`: a slot stays where it is, a file gets the name of the new place.
unfoldable pub carry : RingKind → ℕ → Entry → RingKind → ℕ → M Entry
carry from from_id file to to_id = do
  rename (direct_file_name from from_id) (direct_file_name to to_id)
  pure file
carry from from_id entry to to_id = pure entry

abbrev pub unwrap_or : Option RingKind → RingKind → RingKind
unwrap_or none from = from
unwrap_or (some to) from = to

unfoldable pub move_found : RingKind → ℕ → Entry → RingKind → M (Result ℕ IdNotFoundError)
move_found from from_id entry to = do
  ring ← gets (ring_at from)
  elim (same_kind from to && Ring.next_head ring from_id == Ring.write_head ring) [
    | true ↦ pure (ok (composite_id from from_id))
    | false ↦ do
      write from uninitialized from_id
      to_id ← add_internal to (λ to_id. carry from from_id entry to to_id)
      pure (ok (composite_id to to_id))
  ]

-- `move_to_front`: the identifier of `MoveToFrontResponse::Success`, or its error.
unfoldable pub move_to_front : ℕ → Option RingKind → M (Result ℕ IdNotFoundError)
move_to_front id to = do
  found ← gets (get_entry id)
  elim found [
    | err e ↦ pure (err e)
    | ok (from, from_id, uninitialized) ↦ pure (err (entry_not_found from_id))
    | ok (from, from_id, file) ↦ move_found from from_id file (unwrap_or to from)
    | ok (from, from_id, bucketed e) ↦ move_found from from_id (bucketed e) (unwrap_or to from)
  ]

-- The `match` on the two entries of `swap`: which file is renamed, and how.
unfoldable pub swap_files : RingKind → ℕ → Entry → RingKind → ℕ → Entry → M (Unit {0})
swap_files ring1 id1 file ring2 id2 file =
    exchange (direct_file_name ring1 id1) (direct_file_name ring2 id2)
swap_files ring1 id1 file ring2 id2 entry2 =
    rename (direct_file_name ring1 id1) (direct_file_name ring2 id2)
swap_files ring1 id1 entry1 ring2 id2 file =
    rename (direct_file_name ring2 id2) (direct_file_name ring1 id1)
swap_files ring1 id1 entry1 ring2 id2 entry2 = pure tt

-- `SwapResponse`
pub record SwapResponse : Type 0 where
  pub error1 : Option IdNotFoundError
  pub error2 : Option IdNotFoundError

abbrev pub swap_response : Option IdNotFoundError → Option IdNotFoundError → SwapResponse
swap_response e1 e2 = record { error1 = e1; error2 = e2 }

unfoldable pub swap_found : RingKind → ℕ → Entry → RingKind → ℕ → Entry → M SwapResponse
swap_found ring1 id1 uninitialized ring2 id2 uninitialized =
    pure (swap_response (some (entry_not_found id1)) (some (entry_not_found id2)))
swap_found ring1 id1 entry1 ring2 id2 entry2 = do
  write ring1 entry2 id1
  write ring2 entry1 id2
  swap_files ring1 id1 entry1 ring2 id2 entry2
  pure (swap_response none none)

-- `swap`
unfoldable pub swap : ℕ → ℕ → M SwapResponse
swap id1 id2 = do
  first ← gets (get_entry id1)
  elim first [
    | err e ↦ pure (swap_response (some e) none)
    | ok (ring1, i1, entry1) ↦ do
      second ← gets (get_entry id2)
      elim second [
        | err e ↦ pure (swap_response none (some e))
        | ok (ring2, i2, entry2) ↦ swap_found ring1 i1 entry1 ring2 i2 entry2
      ]
  ]

unfoldable pub remove_found : RingKind → ℕ → Entry → M (Option IdNotFoundError)
remove_found ring id uninitialized = pure (some (entry_not_found id))
remove_found ring id entry = do write ring uninitialized id; free entry ring id; pure none

-- `remove`: the error of `RemoveResponse`.
unfoldable pub remove : ℕ → M (Option IdNotFoundError)
remove id = do
  found ← gets (get_entry id)
  elim found [ err e ↦ pure (some e) | ok (ring, i, entry) ↦ remove_found ring i entry ]
