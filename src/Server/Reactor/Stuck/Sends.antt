-- ===== src/Server/Reactor/Stuck/Sends.antt =====
-- server/src/reactor.rs: the end of a send, while a client is stuck.
use clipboard_history.Prelude.{
  ℕ, ◌<◌, refl, ap, Bool, ok, arith, if◌then◌else◌, Bool-cases, Option-cases, inl, inr,
}
use clipboard_history.Prelude.Flags.{width}
use clipboard_history.Server.Clients.{is_connected, is_closing, set_disconnecting}
use clipboard_history.Server.Clients.Laws.{set_disconnecting_flags}
use clipboard_history.Server.Reactor.{
  Reactor, receive, Sent, sent, broken_pipe, send_reset, canceled, send_broken, with_clients,
  has_ring, after_send, restore_receive, resume, release, handle_sendmsg,
}
use clipboard_history.Prelude.Results.{>>=-Ensures, ◌>>=◌}
use clipboard_history.Prelude.Flags.{has_flag, clear_flag}
use clipboard_history.Server.Clients.{take_pending_recv}
use clipboard_history.Server.SendMsgBufs.{free}
use clipboard_history.Server.Reactor.Stuck.{
  IsStuck, push-IsStuck, flags-IsStuck, try_close-IsStuck, Stays, with_bufs-IsStuck,
}
use clipboard_history.Server.Reactor.Stuck.Receives.{open_ne}

module _ (client n : ℕ) (p : Bool) (h : client < width) where
  -- The flag set for a client whose send has failed.
  pub disconnecting-IsStuck :
      (k : ℕ) (s : Reactor)
      → k < width
      → IsStuck client n p s
      → IsStuck client n p
          (if is_closing s.clients k then s else with_clients (set_disconnecting k) s)
  disconnecting-IsStuck k s hk stuck = elim (Bool-cases (is_closing s.clients k)) [
    | inl closing ↦ rw closing stuck
    | inr here ↦
        let ne = open_ne client n p h k s stuck here in
        rw here (
          flags-IsStuck client n p h s (set_disconnecting k s.clients)
            (ground (arith, set_disconnecting_flags s.clients k client hk h)) stuck)
  ]

  pub after_send-IsStuck :
      (k : ℕ) (r : Sent) (s : Reactor)
      → k < width
      → IsStuck client n p s
      → Stays client n p h (after_send k r s)
  unfolding after_send
  after_send-IsStuck k sent s hk stuck = stuck
  after_send-IsStuck k broken_pipe s hk stuck = disconnecting-IsStuck k s hk stuck
  after_send-IsStuck k send_reset s hk stuck = disconnecting-IsStuck k s hk stuck
  after_send-IsStuck k canceled s hk stuck = stuck
  after_send-IsStuck k send_broken s hk stuck = tt

  pub restore_receive-IsStuck :
      (k : ℕ) (s : Reactor) → IsStuck client n p s → IsStuck client n p (restore_receive k s)
  unfolding restore_receive take_pending_recv
  restore_receive-IsStuck k s stuck = elim (Bool-cases (has_flag s.clients.pending_recv k)) [
    | inl waiting ↦ rw waiting (push-IsStuck client n p h (receive k) after refl taken)
    | inr idle ↦ rw idle taken
  ]
    where
      after : Reactor
      after = record s {
        clients = record s.clients { pending_recv = clear_flag s.clients.pending_recv k };
      }

      taken : IsStuck client n p after
      taken = record {
        closing = stuck.closing;
        away = stuck.away;
        closed = stuck.closed;
        waiting = stuck.waiting;
      }

  pub resume-IsStuck :
      (k : ℕ) (s : Reactor) → k < width → IsStuck client n p s → IsStuck client n p (resume k s)
  unfolding resume
  resume-IsStuck k s hk stuck = elim (Bool-cases (is_connected s.clients k)) [
    | inl here ↦ elim (Bool-cases (is_closing s.clients k)) [
      | inl closing ↦
          rw (here, closing)
            (try_close-IsStuck client n p h k s hk
              (λ e. ground (arith, ap (is_connected s.clients) e, stuck.away)) stuck)
      | inr open_still ↦ rw (here, open_still) (restore_receive-IsStuck k s stuck)
    ]
    | inr gone ↦ elim (Bool-cases (is_closing s.clients k)) [
      | inl closing ↦ rw (gone, closing) stuck
      | inr open_still ↦ rw (gone, open_still) stuck
    ]
  ]

  pub release-IsStuck :
      (k token : ℕ) (s : Reactor) → IsStuck client n p s → Stays client n p h (release k token s)
  unfolding release
  release-IsStuck k token s stuck = elim (Option-cases (free k token s.server.send_bufs)) [
    | inl missing ↦ rw (missing, release) tt
    | inr (bufs, found) ↦ elim (Bool-cases (has_ring k s)) [
      | inl ring ↦ rw (found, ring, release) (with_bufs-IsStuck client n p h bufs s stuck)
      | inr gone ↦ rw (found, gone, release) tt
    ]
  ]

  pub handle_sendmsg-IsStuck :
      (k token : ℕ) (r : Sent) (s : Reactor)
      → k < width
      → IsStuck client n p s
      → Stays client n p h (handle_sendmsg k token r s)
  unfolding handle_sendmsg
  handle_sendmsg-IsStuck k token r s hk stuck =
      >>=-Ensures (IsStuck client n p) (IsStuck client n p) (release k token s)
        (λ freed. after_send k r freed >>= λ noted. ok (resume k noted))
        (release-IsStuck k token s stuck)
        (λ freed stuck1.
          >>=-Ensures (IsStuck client n p) (IsStuck client n p) (after_send k r freed)
            (λ noted. ok (resume k noted)) (after_send-IsStuck k r freed hk stuck1)
            (λ noted stuck2. resume-IsStuck k noted hk stuck2))
