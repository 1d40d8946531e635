-- ===== src/Server/Requests/Replies.antt =====
-- server/src/requests.rs: one reply to each request, with the next number.
use mathlib.Core.List.{append-nil}
use clipboard_history.Prelude.{
  ℕ, ◌+◌, ◌*◌, ◌%◌, ◌^◌, ◌≤◌, ◌<◌, ◌≡◌, Option, refl, false, some, List, [], ◌∷◌, ◌++◌, length,
  drop, Result, ok, err, arith, ltb,
}
use clipboard_history.Prelude.Files.{Bytes, read_u32, to_le_bytes}
use clipboard_history.Core.Protocol.{RingKind}
use clipboard_history.Server.Store.{Allocator, CliError, panicked, continue, throw}
use clipboard_history.Server.Allocator.{add, move_to_front, swap, remove}
use clipboard_history.Server.Gc.{gc}
use clipboard_history.Server.SendMsgBufs.{Message, init_buf}
use clipboard_history.Server.Requests.{
  Request, add_entry, move_entry, swap_entries, remove_entry, garbage_collect, Response, added,
  moved, swapped, removed, collected, Wire, ServerState, add_all, respond, to_ne_bytes, reply,
  reply_bytes, answer, handle,
}

-- An `Add` comes with one file.
abbrev pub HasItsFile : Request → List Bytes → Type 0
HasItsFile (add_entry to mime_type) fds = length fds ≡ 1
HasItsFile (move_entry id to) fds = Unit
HasItsFile (swap_entries id1 id2) fds = Unit
HasItsFile (remove_entry id) fds = Unit
HasItsFile (garbage_collect max_wasted_bytes) fds = Unit

-- The sequence number at the head of a reply.
abbrev pub read_u64 : Bytes → ℕ
read_u64 bytes = read_u32 bytes 0 + 2 ^ 32 * read_u32 bytes 4

read_u64-to_ne_bytes : (x : ℕ) (rest : Bytes) → x < 2 ^ 64 → read_u64 (to_ne_bytes x ++ rest) ≡ x
unfolding read_u32 to_le_bytes
read_u64-to_ne_bytes x rest h = omega arith

single :
    {A : Type 0} (m : Result A CliError × Allocator) (f : A → Response) (rs : List Response)
    (a : Allocator)
    → continue (λ r s. (ok (f r ∷ []), s)) m ≡ (ok rs, a)
    → (r : Response) × (rs ≡ r ∷ [])
single (ok x, s) f rs a h = (f x, ground (arith, h))
single (err e, s) f rs a h = absurd (ground (arith, h))

respond_one :
    (q : Request) (fds : List Bytes) (s a : Allocator) (rs : List Response)
    → HasItsFile q fds
    → respond q fds s ≡ (ok rs, a)
    → (r : Response) × (rs ≡ r ∷ [])
unfolding respond add_all
respond_one (add_entry to mime) [] s a rs one h = absurd (omega arith)
respond_one (add_entry to mime) (fd ∷ []) s a rs one h = single (add fd to mime s) added rs a h
respond_one (add_entry to mime) (fd ∷ g ∷ fds) s a rs one h = absurd (omega arith)
respond_one (move_entry id to) fds s a rs one h = single (move_to_front id to s) moved rs a h
respond_one (swap_entries id1 id2) fds s a rs one h = single (swap id1 id2 s) swapped rs a h
respond_one (remove_entry id) fds s a rs one h = single (remove id s) removed rs a h
respond_one (garbage_collect max) fds s a rs one h = single (gc max s) collected rs a h

-- `handle` of a message that is long enough for a request, where an `Add` comes with one file and the
-- allocator carries the request out: it replies once, and the reply's first eight bytes are the number
-- after the last one, in 64 bits, and the others the response; the new state has that number and what
-- the allocator has become.
pub handle_replies :
    (wire : Wire) (request_data : Bytes) (fds : List Bytes) (s : ServerState) (a : Allocator)
    (rs : List Response)
    → wire.request_size ≤ length request_data
    → HasItsFile (wire.read_request request_data) fds
    → respond (wire.read_request request_data) fds s.allocator ≡ (ok rs, a)
    → (r : Response) × (m : Message) × (s' : ServerState) × (rs ≡ r ∷ [])
      × (handle wire request_data fds s ≡ ok (some m, s'))
      × (read_u64 m.data_bytes ≡ (s.sequence_number + 1) % 2 ^ 64)
      × (drop 8 m.data_bytes ≡ wire.response_bytes r)
      × (s'.sequence_number ≡ (s.sequence_number + 1) % 2 ^ 64)
      × (s'.allocator ≡ a)
unfolding handle reply reply_bytes init_buf to_le_bytes
handle_replies wire request_data fds s a rs long one run =
    let enough : ltb (length request_data) wire.request_size ≡ false = ground arith in
    let (r, single_response) =
      respond_one (wire.read_request request_data) fds s.allocator a rs one run in
    let n = (s.sequence_number + 1) % 2 ^ 64 in
    let start = record s { allocator = a; sequence_number = n } in
    (
      r,
      (init_buf [] (reply_bytes wire n (r ∷ [])) start.send_bufs).0,
      record start { send_bufs = (init_buf [] (reply_bytes wire n (r ∷ [])) start.send_bufs).1 },
      single_response,
      rw (enough, handle, run, single_response),
      read_u64-to_ne_bytes n (wire.response_bytes r ++ []) (omega arith),
      append-nil (wire.response_bytes r),
      refl,
      refl,
    )

-- A second file is one too many, after it has been added.
add_all_full :
    (to : RingKind) (mime : Bytes) (fd : Bytes) (fds : List Bytes) (r : Response)
    (responses : List Response) (s : Allocator)
    → (e : CliError) × ((add_all to mime (fd ∷ fds) (r ∷ responses) s).0 ≡ err e)
unfolding add_all
add_all_full to mime fd fds r responses s = second (add fd to mime s)
  where
    second :
        (m : Result ℕ CliError × Allocator)
        → (e : CliError) × ((continue (λ id. throw {A = List Response} panicked) m).0 ≡ err e)
    second (ok id, a) = (panicked, refl)
    second (err e, a) = (e, refl)

add_all-too_many :
    (to : RingKind) (mime fd g : Bytes) (fds : List Bytes) (s : Allocator)
    → (e : CliError) × ((add_all to mime (fd ∷ g ∷ fds) [] s).0 ≡ err e)
unfolding add_all
add_all-too_many to mime fd g fds s = first (add fd to mime s)
  where
    first :
        (m : Result ℕ CliError × Allocator)
        → (e : CliError) × ((continue (λ id. add_all to mime (g ∷ fds) (added id ∷ [])) m).0
            ≡ err e)
    first (ok id, a) = add_all_full to mime g fds (added id) [] a
    first (err e, a) = (e, refl)

-- What becomes of an `Add` without a file, and with more than one: an empty reply, and an error or
-- a panic.
abbrev pub WithoutItsFile :
    ServerState → List Bytes → Result (Option Message × ServerState) CliError → Type 0
WithoutItsFile s [] result =
    (m : Message) × (s' : ServerState) × (result ≡ ok (some m, s'))
    × (m.control ≡ [])
    × (m.data_bytes ≡ [])
    × (s'.sequence_number ≡ (s.sequence_number + 1) % 2 ^ 64)
    × (s'.allocator ≡ s.allocator)
WithoutItsFile s (fd ∷ []) result = Unit
WithoutItsFile s (fd ∷ g ∷ fds) result = (e : CliError) × (result ≡ err e)

-- `handle` of an `Add` in a message that is long enough for a request: if it comes with no file,
-- `handle` sends an empty reply, without the number that it has taken for it, and leaves the allocator
-- as it was; with two files or more, it ends in an error or in a panic, either of which ends the
-- server.
pub handle_needs_one_file :
    (wire : Wire) (request_data : Bytes) (fds : List Bytes) (s : ServerState) (to : RingKind)
    (mime : Bytes)
    → wire.request_size ≤ length request_data
    → wire.read_request request_data ≡ add_entry to mime
    → WithoutItsFile s fds (handle wire request_data fds s)
unfolding handle respond reply reply_bytes init_buf add_all
handle_needs_one_file wire request_data [] s to mime long is_add =
    let n = (s.sequence_number + 1) % 2 ^ 64 in
    let enough : ltb (length request_data) wire.request_size ≡ false = ground arith in
    let start = record s { sequence_number = n } in
    (
      (init_buf [] [] start.send_bufs).0,
      record start { send_bufs = (init_buf [] [] start.send_bufs).1 },
      rw (enough, handle, is_add),
      refl,
      refl,
      refl,
      refl,
    )
handle_needs_one_file wire request_data (fd ∷ []) s to mime long is_add = tt
handle_needs_one_file wire request_data (fd ∷ g ∷ fds) s to mime long is_add =
    rw (enough, handle, is_add)
      (answers (add_all to mime (fd ∷ g ∷ fds) [] s.allocator)
        (add_all-too_many to mime fd g fds s.allocator))
  where
    n : ℕ
    n = (s.sequence_number + 1) % 2 ^ 64

    enough : ltb (length request_data) wire.request_size ≡ false
    enough = ground arith

    answers :
        (m : Result (List Response) CliError × Allocator)
        → (e : CliError) × (m.0 ≡ err e)
        → (e : CliError) × (answer wire n s m ≡ err e)
    answers (ok rs, a) (e, h) = absurd (ground (arith, h))
    answers (err e, a) h = (e, refl)
