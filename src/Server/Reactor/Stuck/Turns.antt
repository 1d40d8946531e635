-- ===== src/Server/Reactor/Stuck/Turns.antt =====
-- server/src/reactor.rs: every completion and the end of a turn, while a client is stuck.
use clipboard_history.Prelude.{
  ℕ, ◌<◌, ◌≡◌, ◌≢◌, refl, Bool, true, false, Option, none, some, List, [], ◌∷◌, arith, ◌==◌,
  Bool-cases, inl, inr,
}
use clipboard_history.Prelude.Flags.{width}
use clipboard_history.Server.SendMsgBufs.{Message, bufs_of}
use clipboard_history.Server.Requests.{Wire}
use clipboard_history.Server.Clients.{set_closed}
use clipboard_history.Server.Clients.Laws.{set_closed_flags}
use clipboard_history.Server.Reactor.{
  Reactor, poll_low_mem, push_unless, with_clients, has_ring, put_ring, handle_close,
  restore_accept, handle_signal, handle_low_mem, Completion, on_accept, on_receive, on_sendmsg,
  on_close, on_signal, on_low_mem, handle_completion, sends, drain_send_bufs, flush_sends, flush,
  not_buffered,
}
use clipboard_history.Prelude.Flags.{has_flag-ne-zero}
use clipboard_history.Prelude.{length, ◌-◌, ◌&&◌, not}
use clipboard_history.Server.Clients.{set_send_buffered}
use clipboard_history.Server.SendMsgBufs.{
  trim, drain_pending_sends, has_ready_block, has_pending_sends,
}
use clipboard_history.Server.Reactor.Stuck.{
  closes, closes-append, Spares, IsStuck, flags-IsStuck, Stays, with_bufs-IsStuck,
  push_unless-IsStuck,
}
use clipboard_history.Server.Reactor.Stuck.Receives.{handle_accept-IsStuck, handle_receive-IsStuck}
use clipboard_history.Server.Reactor.Stuck.Sends.{handle_sendmsg-IsStuck}

module _ (client n : ℕ) (p : Bool) (h : client < width) where
  pub handle_close-IsStuck :
      (k : ℕ) (closed unregistered : Bool) (s : Reactor)
      → k < width
      → k ≢ client
      → IsStuck client n p s
      → Stays client n p h (handle_close k closed unregistered s)
  unfolding handle_close restore_accept
  handle_close-IsStuck k false unregistered s hk ne stuck = tt
  handle_close-IsStuck k true unregistered s hk ne stuck =
      elim (Bool-cases (has_ring k s && not unregistered)) [
        | inl broken ↦ rw broken tt
        | inr fine ↦ rw (fine, restored) after
      ]
    where
      cleared : Reactor
      cleared = put_ring k false (with_clients (set_closed k) s)

      after : IsStuck client n p cleared
      after =
          let stuck1 =
            flags-IsStuck client n p h s (set_closed k s.clients)
              (ground (arith, set_closed_flags s.clients k client hk h)) stuck in
          record {
            closing = stuck1.closing;
            away = stuck1.away;
            closed = stuck1.closed;
            waiting = stuck1.waiting;
          }

      restored : (cleared.pending_accept && cleared.clients.pending_closes == 0) ≡ false
      restored =
          ground (arith, has_flag-ne-zero cleared.clients.pending_closes client after.closing)

  pub handle_signal-IsStuck :
      (r : Option Bool) (s : Reactor)
      → IsStuck client n p s
      → Stays client n p h (handle_signal r s)
  unfolding handle_signal
  handle_signal-IsStuck none s stuck = tt
  handle_signal-IsStuck (some false) s stuck = tt
  handle_signal-IsStuck (some true) s stuck = record {
    closing = stuck.closing;
    away = stuck.away;
    closed = stuck.closed;
    waiting = stuck.waiting;
  }

  pub handle_low_mem-IsStuck :
      (r : Option (Bool × Bool)) (more : Bool) (s : Reactor)
      → IsStuck client n p s
      → Stays client n p h (handle_low_mem r more s)
  unfolding handle_low_mem
  handle_low_mem-IsStuck none more s stuck = tt
  handle_low_mem-IsStuck (some (true, pri)) more s stuck = tt
  handle_low_mem-IsStuck (some (false, false)) more s stuck = tt
  handle_low_mem-IsStuck (some (false, true)) more s stuck =
      let s' = push_unless more poll_low_mem s in
      with_bufs-IsStuck client n p h (trim s'.server.send_bufs) s'
        (push_unless-IsStuck client n p h more poll_low_mem s refl stuck)

  pub handle_completion-IsStuck :
      (wire : Wire) (c : Completion) (s : Reactor)
      → Spares client c
      → IsStuck client n p s
      → Stays client n p h (handle_completion wire c s)
  unfolding handle_completion
  handle_completion-IsStuck wire (on_accept r more) s spares stuck =
      handle_accept-IsStuck client n p h r more s stuck
  handle_completion-IsStuck wire (on_receive k r more) s (hk, ne) stuck =
      handle_receive-IsStuck client n p h wire k r more s hk ne stuck
  handle_completion-IsStuck wire (on_sendmsg k token r) s hk stuck =
      handle_sendmsg-IsStuck client n p h k token r s hk stuck
  handle_completion-IsStuck wire (on_close k closed unregistered) s (hk, ne) stuck =
      handle_close-IsStuck k closed unregistered s hk ne stuck
  handle_completion-IsStuck wire (on_signal r) s spares stuck = handle_signal-IsStuck r s stuck
  handle_completion-IsStuck wire (on_low_mem r more) s spares stuck =
      handle_low_mem-IsStuck r more s stuck

  pub closes-sends : (k : ℕ) (drained : List (ℕ × Message)) → closes client (sends k drained) ≡ 0
  unfolding sends
  closes-sends k [] = refl
  closes-sends k ((token, m) ∷ rest) = closes-sends k rest

  pub drain_send_bufs-IsStuck :
      (k capacity : ℕ) (s : Reactor)
      → IsStuck client n p s
      → IsStuck client n p (drain_send_bufs k capacity s)
  unfolding drain_send_bufs
  drain_send_bufs-IsStuck k capacity s stuck =
      let room = capacity - length s.submissions in
      let drained = (drain_pending_sends k room s.server.send_bufs).0 in
      record {
        closing = stuck.closing;
        away = stuck.away;
        closed = omega (
          arith,
          closes-append client s.submissions (sends k drained),
          closes-sends k drained,
          stuck.closed,
        );
        waiting = stuck.waiting;
      }

  pub flush_sends-IsStuck :
      (capacity : ℕ) (ks : List ℕ) (s : Reactor)
      → IsStuck client n p s
      → IsStuck client n p (flush_sends capacity ks s).0
  unfolding flush_sends set_send_buffered
  flush_sends-IsStuck capacity [] s stuck = stuck
  flush_sends-IsStuck capacity (k ∷ ks) s stuck =
      elim (Bool-cases (has_ready_block (bufs_of k s.server.send_bufs))) [
        | inr busy ↦ rw (busy, flush_sends) (flush_sends-IsStuck capacity ks s stuck)
        | inl ready ↦
            let s' = drain_send_bufs k capacity s in
            let stuck' = drain_send_bufs-IsStuck k capacity s stuck in
            elim (Bool-cases (has_pending_sends (bufs_of k s'.server.send_bufs))) [
              | inl more ↦ rw (ready, more, flush_sends) stuck'
              | inr done ↦
                  rw (ready, done, flush_sends)
                    (flush_sends-IsStuck capacity ks (not_buffered k s') (record {
                      closing = stuck'.closing;
                      away = stuck'.away;
                      closed = stuck'.closed;
                      waiting = stuck'.waiting;
                    }))
            ]
      ]

  pub flush-IsStuck :
      (capacity : ℕ) (s : Reactor) → IsStuck client n p s → IsStuck client n p (flush capacity s)
  unfolding flush
  flush-IsStuck capacity s stuck =
      let stuck' = flush_sends-IsStuck capacity s.clients_with_pending_sends s stuck in
      record {
        closing = stuck'.closing;
        away = stuck'.away;
        closed = stuck'.closed;
        waiting = stuck'.waiting;
      }
