-- ===== src/Server/Slots.antt =====
-- server/src/allocator.rs: `FreeLists`, `BucketSlotGuard` and the methods of `AllocatorData`, which
-- keep an entry's data in a bucket slot or in a file of its own.
pub mod Accounts
pub mod Filled
pub mod AllocBucket
use clipboard_history.Prelude.{
  ℕ, zero, suc, ◌+◌, ◌-◌, ◌*◌, Bool, true, false, ◌&&◌, ◌||◌, Option, none, some, List, [], ◌∷◌,
  ◌++◌, Result, ok, err, get_or, set, length, take, drop, ltb, leb, ◌==◌, if◌then◌else◌,
}
use clipboard_history.Prelude.Files.{Bytes, write_at}
use clipboard_history.Prelude.Vecs.{pop}
use clipboard_history.Core.Protocol.{RingKind}
use clipboard_history.Core.InitializedEntry
use clipboard_history.Core.Entry.{Entry, uninitialized, bucketed, file}
use clipboard_history.Core.Buckets.{size_to_bucket, bucket_to_length}
use clipboard_history.Core.FileName.{direct_file_name}
use clipboard_history.Core.Mimes.{is_text_mime}
use clipboard_history.Server.Store.{
  Allocator, DirectFile, Context, CliError, io, M, pure, throw, ◌>>=◌, ◌>>◌, on_error, gets, modify,
  syscall, link, create_receiver, receive_data, copy_bucket, write_nul, set_mime, link_direct,
  unlink_direct,
}

abbrev pub free_list : ℕ → Allocator → List ℕ
free_list bucket s = get_or s.free_lists bucket []

abbrev pub put_free_list : ℕ → List ℕ → Allocator → Allocator
put_free_list bucket slots s = record s { free_lists = set s.free_lists bucket slots }

-- `FreeLists::free`; also what the drop of a `BucketSlotGuard` does.
abbrev pub free_slot : ℕ → ℕ → Allocator → Allocator
free_slot bucket index s = put_free_list bucket (free_list bucket s ++ (index ∷ [])) s

-- The bytes of `f` from `off` on, `n` of them or up to the end of the file.
abbrev pub slice : Bytes → ℕ → ℕ → Bytes
slice f off n = take n (drop off f)

-- `copy_file_range_all` into a file: nothing is written where nothing is read.
abbrev pub copy_into : Bytes → Bytes → ℕ → Bytes
copy_into [] f off = f
copy_into (b ∷ bs) f off = write_at f off (b ∷ bs)

abbrev pub put_file : ℕ → Bytes → Allocator → Allocator
put_file bucket f s = record s { files = set s.files bucket f }

-- The writes of `alloc_bucket` to the bucket file. In a new slot the NUL byte stands at the end of
-- the slot, so that the file grows to whole slots; in a reused one it follows the data.
unfoldable pub fill_slot : ℕ → ℕ → Bool → Bytes → M (Unit {0})
fill_slot bucket index grow bytes = do
  let len = bucket_to_length bucket
  syscall copy_bucket
  modify (λ s. put_file bucket (copy_into bytes (get_or s.files bucket []) (index * len)) s)
  elim (ltb (length bytes) len) [
    | false ↦ pure tt
    | true ↦ do
      syscall write_nul
      modify (λ s.
          put_file bucket
            (write_at (get_or s.files bucket [])
              (if grow then (index + 1) * len - 1 else index * len + length bytes) (0 ∷ []))
            s)
  ]

-- `alloc_bucket`: a free slot is held by a guard, which gives it back if a write fails; a new slot is
-- counted before the writes.
unfoldable pub alloc_bucket : Bytes → M Entry
alloc_bucket bytes s =
    let size = length bytes in
    let bucket = size_to_bucket size in
    elim (pop (free_list bucket s)) [
      | some (index, rest) ↦
          on_error
            (fill_slot bucket index false bytes
              >> pure (bucketed (InitializedEntry.bucket size index)))
            (λ e. modify (free_slot bucket index) >> throw e) (put_free_list bucket rest s)
      | none ↦
          let index = get_or s.slot_counts bucket 0 in
          (fill_slot bucket index true bytes
              >> pure (bucketed (InitializedEntry.bucket size index)))
            (record s { slot_counts = set s.slot_counts bucket (index + 1) })
    ]

-- `alloc_direct`: the file is named last, and not over an existing one.
unfoldable pub alloc_direct : Bytes → Bytes → RingKind → ℕ → M Entry
alloc_direct bytes mime to id = do
  elim mime [ [] ↦ pure tt | _ ∷ _ ↦ syscall set_mime ]
  syscall link_direct
  let name = direct_file_name to id
  dir ← gets (λ s. s.direct_dir)
  elim (dir name) [
    | some _ ↦ throw (io link_direct)
    | none ↦ do
      modify (λ s. record s {
        direct_dir = link name (some (record { content = bytes; mime = mime })) s.direct_dir;
      })
      pure file
  ]

-- `AllocatorData::alloc` of the bytes that the client sent.
unfoldable pub alloc : Bytes → Bytes → RingKind → ℕ → M Entry
alloc bytes mime to id = do
  syscall create_receiver
  syscall receive_data
  elim (is_text_mime mime) [
    | true ↦ elim (ltb 0 (length bytes) && ltb (length bytes) 4096) [
      | true ↦ alloc_bucket bytes
      | false ↦ alloc_direct bytes [] to id
    ]
    | false ↦ alloc_direct bytes mime to id
  ]

-- `free_direct`
unfoldable pub free_direct : RingKind → ℕ → M (Unit {0})
free_direct to id = do
  syscall unlink_direct
  let name = direct_file_name to id
  dir ← gets (λ s. s.direct_dir)
  elim (dir name) [
    | none ↦ throw (io unlink_direct)
    | some _ ↦ modify (λ s. record s { direct_dir = link name none s.direct_dir })
  ]

-- `AllocatorData::free`
unfoldable pub free : Entry → RingKind → ℕ → M (Unit {0})
free uninitialized to id = pure tt
free (bucketed e) to id =
    modify (free_slot (size_to_bucket (InitializedEntry.size e)) (InitializedEntry.index e))
free file to id = free_direct to id
