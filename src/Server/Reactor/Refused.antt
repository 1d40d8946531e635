-- ===== src/Server/Reactor/Refused.antt =====
-- server/src/reactor.rs: a client that is refused for its version.
use clipboard_history.Prelude.{
  ℕ, ◌+◌, ◌<◌, ◌≡◌, ◌≢◌, refl, Bool, true, false, Option, none, some, List, [], ◌∷◌, ◌++◌, Result,
  ok, err, arith, ◌==◌, leb, length, get_or, get_or-set, if◌then◌else◌, Bool-cases, Option-cases,
  inl, inr,
}
use clipboard_history.Prelude.Results.{Ensures, >>=-Ensures, Ensures-ok, ◌>>=◌}
use clipboard_history.Prelude.Flags.{width, has_flag, set_flag}
use clipboard_history.Prelude.Files.{Bytes}
use clipboard_history.Server.Store.{CliError, panicked}
use clipboard_history.Server.SendMsgBufs.{
  init_buf, SendMsgBufs, Message, ClientBufs, bufs_of, put_bufs, new_client, slot_of, alloc,
  alloc_client, max_num_clients, max_num_bufs_per_client, has_outstanding_sends,
}
use clipboard_history.Server.Requests.{Wire, connect, version}
use clipboard_history.Server.Clients.{is_connected, is_closing, set_send_buffered}
use clipboard_history.Server.Clients.Laws.{set_disconnected_flags, set_disconnecting_flags}
use clipboard_history.Server.Reactor.{
  Reactor, message, Completion, outstanding, try_close, has_ring, note_pending_send, queue_response,
  response_to, after_response, handle_payload, handle_message, handle_receive, handle_completion,
  flush,
}
use clipboard_history.Server.Reactor.Stuck.{closes, Spares, IsStuck}
use clipboard_history.Server.Reactor.Stuck.Turns.{handle_completion-IsStuck, flush-IsStuck}

-- What the loop does later, on completions that spare the client; the kernel takes the submissions
-- from time to time.
pub data Run (wire : Wire) (client : ℕ) (s : Reactor) : Reactor → Type 0 where
  here : Run wire client s s
  handled :
      {t u : Reactor} (c : Completion)
      → Run wire client s t
      → Spares client c
      → handle_completion wire c t ≡ ok u
      → Run wire client s u
  submitted :
      {t : Reactor} → Run wire client s t → Run wire client s (record t { submissions = [] })
  flushed :
      {t : Reactor} (capacity : ℕ) → Run wire client s t → Run wire client s (flush capacity t)

Run-IsStuck :
    (wire : Wire) (client : ℕ) (p : Bool) (s t : Reactor)
    → client < width
    → IsStuck client 0 p s
    → Run wire client s t
    → IsStuck client 0 p t
Run-IsStuck wire client p s t h stuck here = stuck
Run-IsStuck wire client p s t h stuck (handled {t = t'} c run spares step) =
    Ensures-ok (IsStuck client 0 p) (handle_completion wire c t') t
      (handle_completion-IsStuck client 0 p h wire c t' spares
        (Run-IsStuck wire client p s t' h stuck run))
      step
Run-IsStuck wire client p s t h stuck (submitted {t = t'} run) =
    let stuck' = Run-IsStuck wire client p s t' h stuck run in
    record { closing = stuck'.closing; away = stuck'.away; closed = refl; waiting = stuck'.waiting }
Run-IsStuck wire client p s t h stuck (flushed {t = t'} capacity run) =
    flush-IsStuck client 0 p h capacity t' (Run-IsStuck wire client p s t' h stuck run)

alloc_client_count :
    (token : ℕ) (m : Message) (c c' : ClientBufs)
    → alloc_client token m c ≡ some c'
    → c'.alloc_count ≡ c.alloc_count + 1
unfolding alloc_client
alloc_client_count token m c c' run = elim (Option-cases (get_or c.bufs (slot_of token) none)) [
  | inr (taken, e) ↦ let now = rw (e, alloc_client) at run in absurd (ground (arith, now))
  | inl e ↦ elim (Bool-cases (leb max_num_bufs_per_client (length c.pending_bufs))) [
    | inl full ↦ let now = rw (e, full, alloc_client) at run in absurd (ground (arith, now))
    | inr room ↦ let now = rw (e, room, alloc_client) at run in ground (arith, now)
  ]
]

-- A buffer that has been allocated is outstanding.
alloc_outstanding :
    (client index : ℕ) (m : Message) (s bufs : SendMsgBufs)
    → client < length s.clients
    → alloc client index m s ≡ some bufs
    → has_outstanding_sends (bufs_of client bufs) ≡ true
unfolding alloc has_outstanding_sends
alloc_outstanding client index m s bufs lt run =
    elim (Option-cases (alloc_client index m (bufs_of client s))) [
      | inl e ↦ let now = rw (e, alloc) at run in absurd (ground (arith, now))
      | inr (c, e) ↦
          let now : put_bufs client c s ≡ bufs = ground (arith, run, e) in
          ground (
            arith,
            now,
            get_or-set s.clients client c client new_client lt,
            alloc_client_count index m (bufs_of client s) c e,
          )
    ]

module _ (client : ℕ) (h : client < width) where
  -- A client that the loop does not know yet.
  record IsNew (p : Bool) (s : Reactor) : Type 0 where
    away : is_connected s.clients client ≡ false
    closed : closes client s.submissions ≡ 0
    waiting : p ≡ true → s.pending_accept ≡ true
    known : client < length s.server.send_bufs.clients

  -- The same once it has been refused; a reply waits if `r` is one.
  record IsRefused (p : Bool) (r : Option Message) (s : Reactor) : Type 0 where
    stuck : IsStuck client 0 p s
    known : client < length s.server.send_bufs.clients
    answered : r ≢ none

  note-IsNew : (p : Bool) (s : Reactor) → IsNew p s → Ensures (IsNew p) (note_pending_send client s)
  unfolding note_pending_send set_send_buffered
  note-IsNew p s new = elim (Bool-cases (has_flag s.clients.pending_sends client)) [
    | inl before ↦
        rw before (record {
          away = new.away;
          closed = new.closed;
          waiting = new.waiting;
          known = new.known;
        })
    | inr first ↦ rw first (room (leb max_num_clients (length s.clients_with_pending_sends)))
  ]
    where
      room :
          (full : Bool)
          → Ensures (IsNew p) (
              if full
              then err panicked
              else ok (record s {
                clients = record s.clients {
                  pending_sends = set_flag s.clients.pending_sends client;
                };
                clients_with_pending_sends = s.clients_with_pending_sends ++ (client ∷ []);
              }))
      room true = tt
      room false = record {
        away = new.away;
        closed = new.closed;
        waiting = new.waiting;
        known = new.known;
      }

  response_to-IsRefused :
      (wire : Wire) (b : ℕ) (payload : Bytes) (fds : List Bytes) (p : Bool) (s : Reactor)
      → b ≢ version
      → IsNew p s
      → Ensures
          (λ (r : Option Message × Reactor). IsRefused p r.0 r.1)
          (response_to wire client (b ∷ payload) fds s)
  unfolding response_to connect init_buf
  response_to-IsRefused wire b payload fds p s other new =
      let wrong : (b == version) ≡ false = ground arith in
      let flags = set_disconnected_flags s.clients client client h h in
      rw (new.away, wrong, response_to)
        (record {
          stuck = record {
            closing = ground (arith, flags);
            away = ground (arith, flags);
            closed = new.closed;
            waiting = new.waiting;
          };
          known = new.known;
          answered = λ e. cc;
        })

  queue_response-IsStuck :
      (index : ℕ) (p : Bool) (r : Option Message) (s : Reactor)
      → IsRefused p r s
      → Ensures
          (λ t. IsStuck client 0 p t × (outstanding client t ≡ true))
          (queue_response client index r s)
  unfolding queue_response
  queue_response-IsStuck index p none s refused = absurd (refused.answered refl)
  queue_response-IsStuck index p (some m) s refused =
      elim (Option-cases (alloc client index m s.server.send_bufs)) [
        | inl full ↦ rw (full, queue_response) tt
        | inr (bufs, room) ↦
            rw (room, queue_response)
              (
                record {
                  closing = refused.stuck.closing;
                  away = refused.stuck.away;
                  closed = refused.stuck.closed;
                  waiting = refused.stuck.waiting;
                },
                alloc_outstanding client index m s.server.send_bufs bufs refused.known room,
              )
      ]

  after_response-IsStuck :
      (more : Bool) (p : Bool) (s : Reactor)
      → IsStuck client 0 p s
      → outstanding client s ≡ true
      → IsStuck client 0 p (after_response client more s)
  unfolding after_response try_close
  after_response-IsStuck more p s stuck busy =
      let flags = set_disconnecting_flags s.clients client client h h in
      rw (stuck.away, busy)
        (record {
          closing = ground (arith, flags);
          away = ground (arith, flags, stuck.away);
          closed = stuck.closed;
          waiting = stuck.waiting;
        })

  handle_payload-IsStuck :
      (wire : Wire) (index b : ℕ) (payload : Bytes) (fds : List Bytes) (more p : Bool) (s : Reactor)
      → b ≢ version
      → IsNew p s
      → Ensures (IsStuck client 0 p) (handle_payload wire client index (b ∷ payload) fds more s)
  unfolding handle_payload
  handle_payload-IsStuck wire index b payload fds more p s other new =
      >>=-Ensures (IsNew p) (IsStuck client 0 p) (note_pending_send client s)
        (λ noted. response_to wire client (b ∷ payload) fds noted >>= responded)
        (note-IsNew p s new)
        (λ noted new1.
          >>=-Ensures (λ (r : Option Message × Reactor). IsRefused p r.0 r.1) (IsStuck client 0 p)
            (response_to wire client (b ∷ payload) fds noted) responded
            (response_to-IsRefused wire b payload fds p noted other new1)
            (λ r refused.
              >>=-Ensures (λ t. IsStuck client 0 p t × (outstanding client t ≡ true))
                (IsStuck client 0 p) (queue_response client index r.0 r.1)
                (λ q. ok (after_response client more q))
                (queue_response-IsStuck index p r.0 r.1 refused)
                (λ q (stuck, busy). after_response-IsStuck more p q stuck busy)))
    where
      responded : Option Message × Reactor → Result Reactor CliError
      responded r = queue_response client index r.0 r.1 >>= λ q. ok (after_response client more q)

  handle_receive-IsStuck :
      (wire : Wire) (index b : ℕ) (payload : Bytes) (fds : List Bytes) (more p : Bool) (s : Reactor)
      → b ≢ version
      → is_closing s.clients client ≡ false
      → IsNew p s
      → Ensures
          (IsStuck client 0 p)
          (handle_receive wire client (message index (b ∷ payload) fds) more s)
  unfolding handle_receive handle_message
  handle_receive-IsStuck wire index b payload fds more p s other open_still new =
      elim (Bool-cases (has_ring client s)) [
        | inr gone ↦ rw gone tt
        | inl ring ↦
            rw (ring, open_still, handle_message)
              (handle_payload-IsStuck wire index b payload fds more p s other new)
      ]

-- A client whose first message has another version than the server's is never closed: whatever
-- completions follow, if none is a reset of its receive nor the end of a close of it, which nothing
-- asks for, its descriptor is not given to `close`, it stays marked as closing, and an acceptance that
-- waits for a free descriptor when the message arrives is not asked for again.
pub refused_is_never_closed :
    (wire : Wire) (client index b : ℕ) (payload : Bytes) (fds : List Bytes) (more : Bool)
    (s t u : Reactor)
    → client < width
    → client < length s.server.send_bufs.clients
    → is_connected s.clients client ≡ false
    → is_closing s.clients client ≡ false
    → closes client s.submissions ≡ 0
    → b ≢ version
    → handle_receive wire client (message index (b ∷ payload) fds) more s ≡ ok t
    → Run wire client t u
    → (closes client u.submissions ≡ 0)
      × (is_closing u.clients client ≡ true)
      × (s.pending_accept ≡ true → u.pending_accept ≡ true)
refused_is_never_closed wire client index b payload fds more s t u h known away open_still none_yet
      other step run =
    let p = s.pending_accept in
    let refused : IsStuck client 0 p t =
      Ensures-ok (IsStuck client 0 p)
        (handle_receive wire client (message index (b ∷ payload) fds) more s) t
        (handle_receive-IsStuck client h wire index b payload fds more p s other open_still
          (record { away = away; closed = none_yet; waiting = λ e. e; known = known }))
        step in
    let stuck = Run-IsStuck wire client p t u h refused run in
    (stuck.closed, stuck.closing, stuck.waiting)
