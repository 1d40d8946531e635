-- ===== src/Server/Requests.antt =====
-- server/src/requests.rs: what the server does with a client's message. The bytes of a request and of a
-- reply are laid out by the compiler; `Wire` stands for that layout. A file descriptor that comes with a
-- message stands for the bytes that it yields.
pub mod Replies
use clipboard_history.Prelude.{
  ℕ, ◌+◌, ◌%◌, ◌/◌, ◌^◌, Bool, true, false, Option, none, some, List, [], ◌∷◌, ◌++◌, length, Result,
  ok, err, get_or, ltb, ◌==◌,
}
use clipboard_history.Prelude.Files.{Bytes, to_le_bytes}
use clipboard_history.Core.Protocol.{RingKind, IdNotFoundError}
use clipboard_history.Server.Store.{Allocator, CliError, panicked, M, pure, throw, ◌>>=◌, ◌>>◌}
use clipboard_history.Server.Gc.{gc}
use clipboard_history.Server.Allocator.{add, move_to_front, swap, remove, SwapResponse}
use clipboard_history.Server.SendMsgBufs.{SendMsgBufs, Message, init_buf}

pub data Request : Type 0 where
  add_entry : RingKind → Bytes → Request
  move_entry : ℕ → Option RingKind → Request
  swap_entries : ℕ → ℕ → Request
  remove_entry : ℕ → Request
  garbage_collect : ℕ → Request

-- `AddResponse`, `MoveToFrontResponse`, `SwapResponse`, `RemoveResponse`, `GarbageCollectResponse`
pub data Response : Type 0 where
  added : ℕ → Response
  moved : Result ℕ IdNotFoundError → Response
  swapped : SwapResponse → Response
  removed : Option IdNotFoundError → Response
  collected : ℕ → Response

-- `size_of::<Request>()`, the reading of a request and `as_bytes` of a response.
pub record Wire : Type 0 where
  pub request_size : ℕ
  pub read_request : Bytes → Request
  pub response_bytes : Response → Bytes

-- What `handle` works on.
pub record ServerState : Type 0 where
  pub allocator : Allocator
  pub send_bufs : SendMsgBufs
  pub sequence_number : ℕ

-- `VERSION`
abbrev pub version : ℕ
version = 0

-- `connect`: whether the client's version is right, the reply and the buffers.
unfoldable pub connect : Bytes → SendMsgBufs → Bool × Message × SendMsgBufs
connect payload send_bufs =
    let (response, bufs) = init_buf [] (version ∷ []) send_bufs in
    (get_or payload 0 0 == version, response, bufs)

-- The loop of `add`: a second response does not fit the `ArrayVec`.
unfoldable pub add_all : RingKind → Bytes → List Bytes → List Response → M (List Response)
add_all kind mime_type [] responses = pure responses
add_all kind mime_type (fd ∷ fds) [] = do
  id ← add fd kind mime_type
  add_all kind mime_type fds (added id ∷ [])
add_all kind mime_type (fd ∷ fds) (r ∷ responses) = do id ← add fd kind mime_type; throw panicked

-- The `match` of `handle`.
unfoldable pub respond : Request → List Bytes → M (List Response)
respond (add_entry to mime_type) fds = add_all to mime_type fds []
respond (move_entry id to) fds = do r ← move_to_front id to; pure (moved r ∷ [])
respond (swap_entries id1 id2) fds = do r ← swap id1 id2; pure (swapped r ∷ [])
respond (remove_entry id) fds = do r ← remove id; pure (removed r ∷ [])
respond (garbage_collect max_wasted_bytes) fds = do r ← gc max_wasted_bytes; pure (collected r ∷ [])

-- `u64::to_ne_bytes` on a little-endian machine.
abbrev pub to_ne_bytes : ℕ → Bytes
to_ne_bytes x = to_le_bytes (x % 2 ^ 32) ++ to_le_bytes (x / 2 ^ 32)

-- What the loop of `reply` appends, for each response; its debug assertion, that there is one, is not
-- checked in a release build.
unfoldable pub reply_bytes : Wire → ℕ → List Response → Bytes
reply_bytes wire sequence_number [] = []
reply_bytes wire sequence_number (r ∷ responses) =
    to_ne_bytes sequence_number
    ++ (wire.response_bytes r ++ reply_bytes wire sequence_number responses)

unfoldable pub reply :
    Wire → ℕ → List Response → ServerState → Result (Option Message × ServerState) CliError
reply wire sequence_number responses s =
    let (m, bufs) = init_buf [] (reply_bytes wire sequence_number responses) s.send_bufs in
    ok (some m, record s { send_bufs = bufs })

abbrev pub answer :
    Wire
    → ℕ
    → ServerState
    → Result (List Response) CliError × Allocator
    → Result (Option Message × ServerState) CliError
answer wire n s (ok responses, a) =
    reply wire n responses (record s { allocator = a; sequence_number = n })
answer wire n s (err e, a) = err e

-- `handle`
unfoldable pub handle :
    Wire → Bytes → List Bytes → ServerState → Result (Option Message × ServerState) CliError
handle wire request_data fds s = elim (ltb (length request_data) wire.request_size) [
  | true ↦ ok (none, s)
  | false ↦
      let n = (s.sequence_number + 1) % 2 ^ 64 in
      answer wire n s (respond (wire.read_request request_data) fds s.allocator)
]
