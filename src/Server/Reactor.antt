-- ===== src/Server/Reactor.antt =====
-- server/src/reactor.rs: the event loop. The kernel's completions come one after the other; a handler
-- changes the state and queues submissions. An `unwrap` of nothing is a panic; debug assertions are not
-- checked, as in a release build. Where a handler queues a submission there is room, since the loop
-- over the completions stops at fewer than two free slots.
pub mod Stuck
pub mod Refused
pub mod Closing
use clipboard_history.Prelude.{
  ℕ, ◌+◌, ◌-◌, Bool, true, false, not, ◌&&◌, ◌||◌, Option, none, some, List, [], ◌∷◌, ◌++◌, length,
  Result, ok, err, get_or, set, replicate, ltb, leb, ◌==◌, if◌then◌else◌,
}
use clipboard_history.Prelude.Results.{◌>>=◌}
use clipboard_history.Prelude.Files.{Bytes}
use clipboard_history.Server.Store.{
  CliError, io, internal, panicked, accept_socket, register_ring, receive_from, send_to,
  close_client, unregister_ring, poll_signals,
}
use clipboard_history.Server.Store
use clipboard_history.Server.SendMsgBufs.{
  SendMsgBufs, Message, bufs_of, alloc, free, trim, drain_pending_sends, has_pending_sends,
  has_ready_block, has_outstanding_sends, max_num_clients,
}
use clipboard_history.Server.Requests.{Wire, ServerState, connect, handle}
use clipboard_history.Server.Clients.{
  Clients, is_connected, is_closing, set_connected, set_send_buffered, set_disconnecting,
  set_disconnected, set_closed, set_pending_recv, take_pending_recv,
}

-- What the loop asks of the kernel. A message that is linked holds back the next one.
pub data Submission : Type 0 where
  accept_clients poll_low_mem : Submission
  receive close : ℕ → Submission
  send : ℕ → ℕ → Message → Bool → Submission

-- The variables of `run`; `client_buffers` tells which clients have a buffer ring, and `running` is
-- false once the loop has been left.
pub record Reactor : Type 0 where
  pub server : ServerState
  pub clients : Clients
  pub client_buffers : List Bool
  pub pending_accept : Bool
  pub clients_with_pending_sends : List ℕ
  pub submissions : List Submission
  pub running : Bool

-- `result` of each completion, and what comes with it. `broken` is any error without an arm of its own.
pub data Accepted : Type 0 where
  -- the client, and whether its buffer ring could be registered
  accepted : ℕ → Bool → Accepted
  too_many accept_broken : Accepted

pub data Received : Type 0 where
  no_buffers reset receive_broken truncated : Received
  -- the index of the buffer, the payload and the files
  message : ℕ → Bytes → List Bytes → Received

pub data Sent : Type 0 where
  sent broken_pipe send_reset canceled send_broken : Sent

pub data Completion : Type 0 where
  -- the flags `more` of the entry
  on_accept : Accepted → Bool → Completion
  on_receive : ℕ → Received → Bool → Completion
  on_sendmsg : ℕ → ℕ → Sent → Completion
  -- whether the call and the unregistering succeed
  on_close : ℕ → Bool → Bool → Completion
  -- `POLLIN`
  on_signal : Option Bool → Completion
  -- `POLLERR` and `POLLPRI`
  on_low_mem : Option (Bool × Bool) → Bool → Completion

abbrev pub push : Submission → Reactor → Reactor
push sub s = record s { submissions = s.submissions ++ (sub ∷ []) }

abbrev pub push_unless : Bool → Submission → Reactor → Reactor
push_unless more sub s = if more then s else push sub s

abbrev pub with_clients : (Clients → Clients) → Reactor → Reactor
with_clients f s = record s { clients = f s.clients }

abbrev pub with_bufs : SendMsgBufs → Reactor → Reactor
with_bufs bufs s = record s { server = record s.server { send_bufs = bufs } }

abbrev pub outstanding : ℕ → Reactor → Bool
outstanding client s = has_outstanding_sends (bufs_of client s.server.send_bufs)

-- The closure `try_close`.
unfoldable pub try_close : ℕ → Reactor → Reactor
try_close client s =
    if outstanding client s
    then with_clients (set_disconnecting client) s
    else with_clients (set_disconnected client) (push (close client) s)

abbrev pub has_ring : ℕ → Reactor → Bool
has_ring client s = get_or s.client_buffers client false

abbrev pub put_ring : ℕ → Bool → Reactor → Reactor
put_ring client value s = record s { client_buffers = set s.client_buffers client value }

-- `REQ_TYPE_ACCEPT`
unfoldable pub handle_accept : Accepted → Bool → Reactor → Result Reactor CliError
handle_accept too_many more s = ok (record s { pending_accept = true })
handle_accept accept_broken more s = err (io accept_socket)
handle_accept (accepted client registered) more s =
    if registered
    then ok (push (receive client) (push_unless more accept_clients (put_ring client true s)))
    else err (io register_ring)

-- A client whose replies wait is in the list once; the `ArrayVec` panics when it is full.
unfoldable pub note_pending_send : ℕ → Reactor → Result Reactor CliError
note_pending_send client s =
    let (before, clients) = set_send_buffered client true s.clients in
    let s' = record s { clients = clients } in
    if before
    then ok s'
    else if leb max_num_clients (length s.clients_with_pending_sends)
    then err panicked
    else ok
        (record s' { clients_with_pending_sends = s.clients_with_pending_sends ++ (client ∷ []) })

-- The response to a message: that of `handle`, or that of `connect` with the client's new flags.
unfoldable pub response_to :
    Wire → ℕ → Bytes → List Bytes → Reactor → Result (Option Message × Reactor) CliError
response_to wire client payload fds s = elim (is_connected s.clients client) [
  | true ↦ do
    (response, server) ← handle wire payload fds s.server
    ok (response, record s { server = server })
  | false ↦
      let (valid, response, bufs) = connect payload s.server.send_bufs in
      ok (
        some response,
        with_clients (if valid then set_connected client else set_disconnected client)
            (with_bufs bufs s),
      )
]

-- `send_bufs.alloc`
unfoldable pub queue_response : ℕ → ℕ → Option Message → Reactor → Result Reactor CliError
queue_response client index none s = ok s
queue_response client index (some m) s = elim (alloc client index m s.server.send_bufs) [
  | none ↦ err panicked
  | some bufs ↦ ok (with_bufs bufs s)
]

-- What follows the response: the next receive, or the close of a client that is not connected.
unfoldable pub after_response : ℕ → Bool → Reactor → Reactor
after_response client more s =
    if is_connected s.clients client
    then push_unless more (receive client) s
    else try_close client s

unfoldable pub handle_payload :
    Wire → ℕ → ℕ → Bytes → List Bytes → Bool → Reactor → Result Reactor CliError
handle_payload wire client index payload fds more s = do
  noted ← note_pending_send client s
  (response, served) ← response_to wire client payload fds noted
  queued ← queue_response client index response served
  ok (after_response client more queued)

unfoldable pub handle_message :
    Wire → ℕ → ℕ → Bytes → List Bytes → Bool → Reactor → Result Reactor CliError
handle_message wire client index [] fds more s =
    if is_closing s.clients client then ok s else ok (try_close client s)
handle_message wire client index (b ∷ payload) fds more s = elim (is_closing s.clients client) [
  | true ↦ ok s
  | false ↦ handle_payload wire client index (b ∷ payload) fds more s
]

-- `REQ_TYPE_RECV`
unfoldable pub handle_receive : Wire → ℕ → Received → Bool → Reactor → Result Reactor CliError
handle_receive wire client no_buffers more s = ok (with_clients (set_pending_recv client) s)
handle_receive wire client reset more s = ok (try_close client s)
handle_receive wire client receive_broken more s = err (io receive_from)
handle_receive wire client truncated more s = err internal
handle_receive wire client (message index payload fds) more s =
    if has_ring client s then handle_message wire client index payload fds more s else err panicked

-- The `match` on the result of a `sendmsg`.
unfoldable pub after_send : ℕ → Sent → Reactor → Result Reactor CliError
after_send client sent s = ok s
after_send client broken_pipe s =
    ok (if is_closing s.clients client then s else with_clients (set_disconnecting client) s)
after_send client send_reset s =
    ok (if is_closing s.clients client then s else with_clients (set_disconnecting client) s)
after_send client canceled s = ok s
after_send client send_broken s = err (io send_to)

-- A receive that found no buffer is asked for again.
unfoldable pub restore_receive : ℕ → Reactor → Reactor
restore_receive client s =
    let (waiting, clients) = take_pending_recv client s.clients in
    let s' = record s { clients = clients } in if waiting then push (receive client) s' else s'

-- The end of `REQ_TYPE_SENDMSG`.
unfoldable pub resume : ℕ → Reactor → Reactor
resume client s =
    if is_closing s.clients client && is_connected s.clients client
    then try_close client s
    else if not (is_closing s.clients client) && is_connected s.clients client
    then restore_receive client s
    else s

-- `send_bufs.free` and the recycling of the buffer.
unfoldable pub release : ℕ → ℕ → Reactor → Result Reactor CliError
release client token s = elim (free client token s.server.send_bufs) [
  | none ↦ err panicked
  | some bufs ↦ if has_ring client s then ok (with_bufs bufs s) else err panicked
]

-- `REQ_TYPE_SENDMSG`
unfoldable pub handle_sendmsg : ℕ → ℕ → Sent → Reactor → Result Reactor CliError
handle_sendmsg client token result s = do
  freed ← release client token s
  noted ← after_send client result freed
  ok (resume client noted)

-- `REQ_TYPE_CLOSE`
unfoldable pub restore_accept : Reactor → Reactor
restore_accept s =
    if s.pending_accept && s.clients.pending_closes == 0
    then record (push accept_clients s) { pending_accept = false }
    else s

unfoldable pub handle_close : ℕ → Bool → Bool → Reactor → Result Reactor CliError
handle_close client closed unregistered s =
    if closed
    then if has_ring client s && not unregistered
      then err (io unregister_ring)
      else ok (restore_accept (put_ring client false (with_clients (set_closed client) s)))
    else err (io close_client)

-- `REQ_TYPE_READ_SIGNALS`
unfoldable pub handle_signal : Option Bool → Reactor → Result Reactor CliError
handle_signal none s = err (io poll_signals)
handle_signal (some false) s = err internal
handle_signal (some true) s = ok (record s { running = false })

-- `REQ_TYPE_LOW_MEM`
unfoldable pub handle_low_mem : Option (Bool × Bool) → Bool → Reactor → Result Reactor CliError
handle_low_mem none more s = err (io Store.poll_low_mem)
handle_low_mem (some (true, pri)) more s = err internal
handle_low_mem (some (false, false)) more s = err internal
handle_low_mem (some (false, true)) more s =
    let s' = push_unless more poll_low_mem s in ok (with_bufs (trim s'.server.send_bufs) s')

-- The `match` on the type of a completion.
unfoldable pub handle_completion : Wire → Completion → Reactor → Result Reactor CliError
handle_completion wire (on_accept result more) s = handle_accept result more s
handle_completion wire (on_receive client result more) s = handle_receive wire client result more s
handle_completion wire (on_sendmsg client token result) s = handle_sendmsg client token result s
handle_completion wire (on_close client closed unregistered) s =
    handle_close client closed unregistered s
handle_completion wire (on_signal result) s = handle_signal result s
handle_completion wire (on_low_mem result more) s = handle_low_mem result more s

-- The loop over the completions: it stops where fewer than two submissions fit, and behind a signal.
-- The completions that are left wait for the next turn.
unfoldable pub process :
    Wire → ℕ → List Completion → Reactor → Result (Reactor × List Completion) CliError
process wire capacity [] s = ok (s, [])
process wire capacity (c ∷ cs) s = elim (not s.running || ltb (capacity - length s.submissions) 2) [
  | true ↦ ok (s, c ∷ cs)
  | false ↦ do s' ← handle_completion wire c s; process wire capacity cs s'
]

-- The submissions of `drain_send_bufs`: each but the last is linked to the next.
unfoldable pub sends : ℕ → List (ℕ × Message) → List Submission
sends client [] = []
sends client ((token, m) ∷ rest) = send client token m (ltb 0 (length rest)) ∷ sends client rest

-- `drain_send_bufs`
unfoldable pub drain_send_bufs : ℕ → ℕ → Reactor → Reactor
drain_send_bufs client capacity s =
    let (drained, bufs) =
      drain_pending_sends client (capacity - length s.submissions) s.server.send_bufs in
    record (with_bufs bufs s) { submissions = s.submissions ++ sends client drained }

abbrev pub not_buffered : ℕ → Reactor → Reactor
not_buffered client s = record s { clients = (set_send_buffered client false s.clients).1 }

-- The loop over `clients_with_pending_sends`: the state and `remaining_sends`.
unfoldable pub flush_sends : ℕ → List ℕ → Reactor → Reactor × List ℕ
flush_sends capacity [] s = (s, [])
flush_sends capacity (client ∷ rest) s =
    elim (has_ready_block (bufs_of client s.server.send_bufs)) [
      | false ↦ let (s', left) = flush_sends capacity rest s in (s', client ∷ left)
      | true ↦
          let s' = drain_send_bufs client capacity s in
          elim (has_pending_sends (bufs_of client s'.server.send_bufs)) [
            | true ↦ (s', client ∷ rest)
            | false ↦ flush_sends capacity rest (not_buffered client s')
          ]
    ]

-- The end of a turn of the loop.
unfoldable pub flush : ℕ → Reactor → Reactor
flush capacity s =
    let (s', left) = flush_sends capacity s.clients_with_pending_sends s in
    record s' { clients_with_pending_sends = left }

-- One turn of the loop of `run`, on the completions that wait: the kernel has taken the submissions.
unfoldable pub turn :
    Wire → ℕ → List Completion → Reactor → Result (Reactor × List Completion) CliError
turn wire capacity cs s = do
  (s', left) ← process wire capacity cs (record s { submissions = [] })
  ok (if s'.running then flush capacity s' else s', left)
