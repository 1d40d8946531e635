-- ===== src/Server/Reactor/Stuck.antt =====
-- server/src/reactor.rs: a client that is marked as closing and is not connected.
pub mod Receives
pub mod Sends
pub mod Turns
use clipboard_history.Prelude.{
  ℕ, ◌+◌, ◌<◌, ◌≡◌, ◌≢◌, refl, sym, ap, ◌∙◌, Bool, true, false, ◌||◌, Option, none, some, List, [],
  ◌∷◌, ◌++◌, Result, ok, err, arith, ◌==◌, if◌then◌else◌, Bool-cases, Option-cases, inl, inr,
}
use clipboard_history.Prelude.Flags.{width}
use clipboard_history.Prelude.Files.{Bytes}
use clipboard_history.Server.SendMsgBufs.{SendMsgBufs, Message, bufs_of}
use clipboard_history.Server.Requests.{Wire, ServerState, handle, connect}
use clipboard_history.Server.Clients.{
  Clients, is_connected, is_closing, set_connected, set_disconnecting, set_disconnected, set_closed,
}
use clipboard_history.Server.Clients.Laws.{
  flags_of, set_connected_flags, set_disconnected_flags, set_disconnecting_flags, set_closed_flags,
}
use clipboard_history.Server.Reactor.{
  Reactor, Submission, accept_clients, poll_low_mem, receive, close, send, Accepted, accepted,
  too_many, accept_broken, Received, no_buffers, reset, receive_broken, truncated, message, Sent,
  sent, broken_pipe, send_reset, canceled, send_broken, push, push_unless, with_clients, with_bufs,
  outstanding, try_close, has_ring, put_ring, handle_accept, note_pending_send, queue_response,
  response_to, after_response, handle_payload, handle_message, handle_receive, after_send,
  restore_receive, resume, release, handle_sendmsg, handle_close, restore_accept, handle_signal,
  handle_low_mem, Completion, on_accept, on_receive, on_sendmsg, on_close, on_signal, on_low_mem,
  handle_completion, sends, drain_send_bufs, flush_sends, flush, not_buffered,
}
use clipboard_history.Prelude.Results.{Ensures, >>=-Ensures, Ensures-ok, ◌>>=◌}
use clipboard_history.Prelude.Flags.{has_flag, set_flag, clear_flag, has_flag-ne-zero}
use clipboard_history.Prelude.{length, leb, ◌-◌, ◌&&◌, not}
use clipboard_history.Server.Store.{CliError, io, register_ring, panicked}
use clipboard_history.Server.Clients.{set_send_buffered, set_pending_recv, take_pending_recv}
use clipboard_history.Server.SendMsgBufs.{
  alloc, free, trim, drain_pending_sends, has_ready_block, has_pending_sends, max_num_clients,
}

-- How often the client's descriptor is closed.
abbrev pub closes : ℕ → List Submission → ℕ
closes client [] = 0
closes client (accept_clients ∷ subs) = closes client subs
closes client (poll_low_mem ∷ subs) = closes client subs
closes client (receive k ∷ subs) = closes client subs
closes client (close k ∷ subs) = (if k == client then 1 else 0) + closes client subs
closes client (send k token m linked ∷ subs) = closes client subs

pub closes-append :
    (client : ℕ) (xs ys : List Submission)
    → closes client (xs ++ ys) ≡ closes client xs + closes client ys
closes-append client [] ys = omega arith
closes-append client (accept_clients ∷ xs) ys = closes-append client xs ys
closes-append client (poll_low_mem ∷ xs) ys = closes-append client xs ys
closes-append client (receive k ∷ xs) ys = closes-append client xs ys
closes-append client (close k ∷ xs) ys = omega (arith, closes-append client xs ys)
closes-append client (send k token m linked ∷ xs) ys = closes-append client xs ys

-- The completion is not the end of a close of the client nor a reset of its receive, and it is about a
-- client that there may be.
abbrev pub Spares : ℕ → Completion → Type 0
Spares client (on_accept r more) = Unit
Spares client (on_receive k r more) = (k < width) × (r ≡ reset → k ≢ client)
Spares client (on_sendmsg k token r) = k < width
Spares client (on_close k closed unregistered) = (k < width) × (k ≢ client)
Spares client (on_signal r) = Unit
Spares client (on_low_mem r more) = Unit

-- The client is marked as closing and not as connected, its descriptor has been given to `close` so
-- often since the queue was last taken, and an acceptance that waits (`p`) waits still.
pub record IsStuck (client n : ℕ) (p : Bool) (s : Reactor) : Type 0 where
  pub closing : is_closing s.clients client ≡ true
  pub away : is_connected s.clients client ≡ false
  pub closed : closes client s.submissions ≡ n
  pub waiting : p ≡ true → s.pending_accept ≡ true

module _ (client n : ℕ) (p : Bool) (h : client < width) where
  pub push-IsStuck :
      (sub : Submission) (s : Reactor)
      → closes client (sub ∷ []) ≡ 0
      → IsStuck client n p s
      → IsStuck client n p (push sub s)
  push-IsStuck sub s other stuck = record {
    closing = stuck.closing;
    away = stuck.away;
    closed = omega (arith, closes-append client s.submissions (sub ∷ []), stuck.closed);
    waiting = stuck.waiting;
  }

  -- A change of another client's flags.
  pub flags-IsStuck :
      (s : Reactor) (c : Clients)
      → flags_of c client ≡ flags_of s.clients client
      → IsStuck client n p s
      → IsStuck client n p (record s { clients = c })
  flags-IsStuck s c same stuck = record {
    closing = ground arith;
    away = ground arith;
    closed = stuck.closed;
    waiting = stuck.waiting;
  }

  pub try_close-IsStuck :
      (k : ℕ) (s : Reactor)
      → k < width
      → k ≢ client
      → IsStuck client n p s
      → IsStuck client n p (try_close k s)
  unfolding try_close
  try_close-IsStuck k s hk ne stuck = elim (Bool-cases (outstanding k s)) [
    | inl busy ↦ rw busy (
        flags-IsStuck s (set_disconnecting k s.clients)
          (ground (arith, set_disconnecting_flags s.clients k client hk h)) stuck)
    | inr idle ↦ rw idle (
        flags-IsStuck (push (close k) s) (set_disconnected k s.clients)
          (ground (arith, set_disconnected_flags s.clients k client hk h))
          (push-IsStuck (close k) s (ground arith) stuck))
  ]

  abbrev pub Stays : Result Reactor CliError → Type 0
  Stays = Ensures (IsStuck client n p)

  pub with_bufs-IsStuck :
      (bufs : SendMsgBufs) (s : Reactor)
      → IsStuck client n p s
      → IsStuck client n p (with_bufs bufs s)
  with_bufs-IsStuck bufs s stuck = record {
    closing = stuck.closing;
    away = stuck.away;
    closed = stuck.closed;
    waiting = stuck.waiting;
  }

  pub push_unless-IsStuck :
      (more : Bool) (sub : Submission) (s : Reactor)
      → closes client (sub ∷ []) ≡ 0
      → IsStuck client n p s
      → IsStuck client n p (push_unless more sub s)
  push_unless-IsStuck true sub s other stuck = stuck
  push_unless-IsStuck false sub s other stuck = push-IsStuck sub s other stuck
