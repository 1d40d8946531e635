-- ===== src/Server/Reactor/Stuck/Receives.antt =====
-- server/src/reactor.rs: accepting and receiving, while a client is stuck.
use clipboard_history.Prelude.{
  ℕ, ◌<◌, ◌≡◌, ◌≢◌, refl, ap, Bool, true, false, Option, none, some, List, [], ◌∷◌, ◌++◌, Result,
  ok, err, arith, if◌then◌else◌, Bool-cases, Option-cases, inl, inr,
}
use clipboard_history.Prelude.Flags.{width}
use clipboard_history.Prelude.Files.{Bytes}
use clipboard_history.Server.SendMsgBufs.{SendMsgBufs, Message}
use clipboard_history.Server.Requests.{Wire, ServerState, handle, connect}
use clipboard_history.Server.Clients.{is_connected, is_closing, set_connected, set_disconnected}
use clipboard_history.Server.Clients.Laws.{set_connected_flags, set_disconnected_flags}
use clipboard_history.Server.Reactor.{
  Reactor, accept_clients, receive, Accepted, accepted, too_many, accept_broken, Received,
  no_buffers, reset, receive_broken, truncated, message, push, push_unless, with_clients, with_bufs,
  has_ring, put_ring, handle_accept, note_pending_send, queue_response, response_to, after_response,
  handle_payload, handle_message, handle_receive,
}
use clipboard_history.Prelude.Results.{Ensures, >>=-Ensures, ◌>>=◌}
use clipboard_history.Prelude.Flags.{has_flag, set_flag}
use clipboard_history.Prelude.{length, leb}
use clipboard_history.Server.Store.{CliError, io, register_ring, panicked}
use clipboard_history.Server.Clients.{set_send_buffered, set_pending_recv}
use clipboard_history.Server.SendMsgBufs.{alloc, max_num_clients}
use clipboard_history.Server.Reactor.Stuck.{
  IsStuck, push-IsStuck, flags-IsStuck, try_close-IsStuck, Stays, with_bufs-IsStuck,
  push_unless-IsStuck,
}

module _ (client n : ℕ) (p : Bool) (h : client < width) where
  pub handle_accept-IsStuck :
      (a : Accepted) (more : Bool) (s : Reactor)
      → IsStuck client n p s
      → Stays client n p h (handle_accept a more s)
  unfolding handle_accept
  handle_accept-IsStuck too_many more s stuck = record {
    closing = stuck.closing;
    away = stuck.away;
    closed = stuck.closed;
    waiting = λ _. refl;
  }
  handle_accept-IsStuck accept_broken more s stuck = tt
  handle_accept-IsStuck (accepted k registered) more s stuck = registers registered
    where
      registers :
          (registered : Bool)
          → Stays client n p h (
              if registered
              then ok (push (receive k) (push_unless more accept_clients (put_ring k true s)))
              else err (io register_ring))
      registers false = tt
      registers true =
          push-IsStuck client n p h (receive k)
            (push_unless more accept_clients (put_ring k true s)) refl
            (push_unless-IsStuck client n p h more accept_clients (put_ring k true s) refl (record {
              closing = stuck.closing;
              away = stuck.away;
              closed = stuck.closed;
              waiting = stuck.waiting;
            }))

  pub note_pending_send-IsStuck :
      (k : ℕ) (s : Reactor) → IsStuck client n p s → Stays client n p h (note_pending_send k s)
  unfolding note_pending_send set_send_buffered
  note_pending_send-IsStuck k s stuck = elim (Bool-cases (has_flag s.clients.pending_sends k)) [
    | inl before ↦ rw before (record {
      closing = stuck.closing;
      away = stuck.away;
      closed = stuck.closed;
      waiting = stuck.waiting;
    })
    | inr first ↦ rw first (room (leb max_num_clients (length s.clients_with_pending_sends)))
  ]
    where
      room :
          (full : Bool)
          → Stays client n p h (
              if full
              then err panicked
              else ok (record s {
                clients = record s.clients { pending_sends = set_flag s.clients.pending_sends k };
                clients_with_pending_sends = s.clients_with_pending_sends ++ (k ∷ []);
              }))
      room true = tt
      room false = record {
        closing = stuck.closing;
        away = stuck.away;
        closed = stuck.closed;
        waiting = stuck.waiting;
      }

  pub queue_response-IsStuck :
      (k index : ℕ) (r : Option Message) (s : Reactor)
      → IsStuck client n p s
      → Stays client n p h (queue_response k index r s)
  unfolding queue_response
  queue_response-IsStuck k index none s stuck = stuck
  queue_response-IsStuck k index (some m) s stuck =
      elim (Option-cases (alloc k index m s.server.send_bufs)) [
        | inl full ↦ rw (full, queue_response) tt
        | inr (bufs, room) ↦ rw (room, queue_response) (with_bufs-IsStuck client n p h bufs s stuck)
      ]

  pub response_to-IsStuck :
      (wire : Wire) (k : ℕ) (payload : Bytes) (fds : List Bytes) (s : Reactor)
      → k < width
      → k ≢ client
      → IsStuck client n p s
      → Ensures
          (λ (r : Option Message × Reactor). IsStuck client n p r.1)
          (response_to wire k payload fds s)
  unfolding response_to
  response_to-IsStuck wire k payload fds s hk ne stuck =
      elim (Bool-cases (is_connected s.clients k)) [
        | inl here ↦
            rw (here, response_to)
              (>>=-Ensures (λ (r : Option Message × ServerState). Unit {0})
                (λ (r : Option Message × Reactor). IsStuck client n p r.1)
                (handle wire payload fds s.server) (λ r. ok (r.0, record s { server = r.1 }))
                (trivial (handle wire payload fds s.server))
                (λ r _. record {
                  closing = stuck.closing;
                  away = stuck.away;
                  closed = stuck.closed;
                  waiting = stuck.waiting;
                }))
        | inr fresh ↦ rw (fresh, response_to) (connects (connect payload s.server.send_bufs))
      ]
    where
      trivial :
          (r : Result (Option Message × ServerState) CliError)
          → Ensures (λ (r : Option Message × ServerState). Unit {0}) r
      trivial (ok a) = tt
      trivial (err e) = tt

      connects :
          (r : Bool × Message × SendMsgBufs)
          → IsStuck client n p
              (with_clients (if r.0 then set_connected k else set_disconnected k) (with_bufs r.2 s))
      connects (true, m, bufs) =
          flags-IsStuck client n p h (with_bufs bufs s) (set_connected k s.clients)
            (ground (arith, set_connected_flags s.clients k client hk h))
            (with_bufs-IsStuck client n p h bufs s stuck)
      connects (false, m, bufs) =
          flags-IsStuck client n p h (with_bufs bufs s) (set_disconnected k s.clients)
            (ground (arith, set_disconnected_flags s.clients k client hk h))
            (with_bufs-IsStuck client n p h bufs s stuck)

  pub after_response-IsStuck :
      (k : ℕ) (more : Bool) (s : Reactor)
      → k < width
      → k ≢ client
      → IsStuck client n p s
      → IsStuck client n p (after_response k more s)
  unfolding after_response
  after_response-IsStuck k more s hk ne stuck = elim (Bool-cases (is_connected s.clients k)) [
    | inl here ↦ rw here (push_unless-IsStuck client n p h more (receive k) s refl stuck)
    | inr gone ↦ rw gone (try_close-IsStuck client n p h k s hk ne stuck)
  ]

  pub handle_payload-IsStuck :
      (wire : Wire) (k index : ℕ) (payload : Bytes) (fds : List Bytes) (more : Bool) (s : Reactor)
      → k < width
      → k ≢ client
      → IsStuck client n p s
      → Stays client n p h (handle_payload wire k index payload fds more s)
  unfolding handle_payload
  handle_payload-IsStuck wire k index payload fds more s hk ne stuck =
      >>=-Ensures (IsStuck client n p) (IsStuck client n p) (note_pending_send k s)
        (λ noted. response_to wire k payload fds noted >>= λ r. responded r)
        (note_pending_send-IsStuck k s stuck)
        (λ noted stuck1.
          >>=-Ensures (λ (r : Option Message × Reactor). IsStuck client n p r.1)
            (IsStuck client n p) (response_to wire k payload fds noted) responded
            (response_to-IsStuck wire k payload fds noted hk ne stuck1)
            (λ r stuck2.
              >>=-Ensures (IsStuck client n p) (IsStuck client n p) (queue_response k index r.0 r.1)
                (λ q. ok (after_response k more q)) (queue_response-IsStuck k index r.0 r.1 stuck2)
                (λ q stuck3. after_response-IsStuck k more q hk ne stuck3)))
    where
      responded : Option Message × Reactor → Result Reactor CliError
      responded r = queue_response k index r.0 r.1 >>= λ q. ok (after_response k more q)

  -- A client that is closing is another one than a client that is not.
  pub open_ne :
      (k : ℕ) (s : Reactor) → IsStuck client n p s → is_closing s.clients k ≡ false → k ≢ client
  open_ne k s stuck here e = ground (arith, ap (is_closing s.clients) e, stuck.closing)

  pub handle_message-IsStuck :
      (wire : Wire) (k index : ℕ) (payload : Bytes) (fds : List Bytes) (more : Bool) (s : Reactor)
      → k < width
      → IsStuck client n p s
      → Stays client n p h (handle_message wire k index payload fds more s)
  unfolding handle_message
  handle_message-IsStuck wire k index [] fds more s hk stuck =
      elim (Bool-cases (is_closing s.clients k)) [
        | inl closing ↦ rw closing stuck
        | inr here ↦ rw here (try_close-IsStuck client n p h k s hk (open_ne k s stuck here) stuck)
      ]
  handle_message-IsStuck wire k index (b ∷ payload) fds more s hk stuck =
      elim (Bool-cases (is_closing s.clients k)) [
        | inl closing ↦ rw (closing, handle_message) stuck
        | inr here ↦
            rw (here, handle_message)
              (handle_payload-IsStuck wire k index (b ∷ payload) fds more s hk
                (open_ne k s stuck here) stuck)
      ]

  pub handle_receive-IsStuck :
      (wire : Wire) (k : ℕ) (r : Received) (more : Bool) (s : Reactor)
      → k < width
      → (r ≡ reset → k ≢ client)
      → IsStuck client n p s
      → Stays client n p h (handle_receive wire k r more s)
  unfolding handle_receive set_pending_recv
  handle_receive-IsStuck wire k no_buffers more s hk ne stuck = record {
    closing = stuck.closing;
    away = stuck.away;
    closed = stuck.closed;
    waiting = stuck.waiting;
  }
  handle_receive-IsStuck wire k reset more s hk ne stuck =
      try_close-IsStuck client n p h k s hk (ne refl) stuck
  handle_receive-IsStuck wire k receive_broken more s hk ne stuck = tt
  handle_receive-IsStuck wire k truncated more s hk ne stuck = tt
  handle_receive-IsStuck wire k (message index payload fds) more s hk ne stuck =
      elim (Bool-cases (has_ring k s)) [
        | inl ring ↦ rw ring (handle_message-IsStuck wire k index payload fds more s hk stuck)
        | inr gone ↦ rw gone tt
      ]
