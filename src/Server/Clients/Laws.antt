-- ===== src/Server/Clients/Laws.antt =====
-- server/src/reactor.rs: a method of `Clients` changes the flags of its client and no others.
use clipboard_history.Prelude.{ℕ, Bool, true, false, ◌<◌, ◌≡◌, refl, arith, ◌==◌, if◌then◌else◌}
use clipboard_history.Prelude.Flags.{width, has_flag, has_flag-set_flag, has_flag-clear_flag}
use clipboard_history.Server.Clients.{
  Clients, is_connected, is_closing, set_connected, set_disconnecting, set_disconnected, set_closed,
  set_pending_recv, take_pending_recv, set_send_buffered,
}

-- The flags of a client: the four words, bit by bit.
pub record Flags : Type 0 where
  pub connected : Bool
  pub closing : Bool
  pub waiting : Bool
  pub buffered : Bool

abbrev pub flags_of : Clients → ℕ → Flags
flags_of c id = record {
  connected = is_connected c id;
  closing = is_closing c id;
  waiting = has_flag c.pending_recv id;
  buffered = has_flag c.pending_sends id;
}

module _ (c : Clients) (id j : ℕ) (hid : id < width) (hj : j < width) where
  pub set_connected_flags : flags_of (set_connected id c) j ≡ (
      if id == j
      then record (flags_of c j) { connected = true; closing = false; waiting = false }
      else flags_of c j)
  unfolding set_connected
  set_connected_flags = ground (
    arith,
    has_flag-set_flag c.connections id j,
    has_flag-clear_flag c.pending_closes id j hid hj,
    has_flag-clear_flag c.pending_recv id j hid hj,
  )

  pub set_disconnected_flags : flags_of (set_disconnected id c) j ≡ (
      if id == j then record (flags_of c j) { connected = false; closing = true } else flags_of c j)
  unfolding set_disconnected
  set_disconnected_flags = ground (
    arith,
    has_flag-clear_flag c.connections id j hid hj,
    has_flag-set_flag c.pending_closes id j,
  )

  pub set_disconnecting_flags :
      flags_of (set_disconnecting id c) j
      ≡ (if id == j then record (flags_of c j) { closing = true } else flags_of c j)
  unfolding set_disconnecting
  set_disconnecting_flags = ground (arith, has_flag-set_flag c.pending_closes id j)

  pub set_closed_flags : flags_of (set_closed id c) j ≡ (
      if id == j
      then record (flags_of c j) { connected = false; closing = false; waiting = false }
      else flags_of c j)
  unfolding set_closed
  set_closed_flags = ground (
    arith,
    has_flag-clear_flag c.connections id j hid hj,
    has_flag-clear_flag c.pending_closes id j hid hj,
    has_flag-clear_flag c.pending_recv id j hid hj,
  )

  pub take_pending_recv_flags :
      flags_of (take_pending_recv id c).1 j
      ≡ (if id == j then record (flags_of c j) { waiting = false } else flags_of c j)
  unfolding take_pending_recv
  take_pending_recv_flags = ground (arith, has_flag-clear_flag c.pending_recv id j hid hj)

  set_send_buffered_flags :
      (value : Bool)
      → flags_of (set_send_buffered id value c).1 j
        ≡ (if id == j then record (flags_of c j) { buffered = value } else flags_of c j)
  unfolding set_send_buffered
  set_send_buffered_flags true = ground (arith, has_flag-set_flag c.pending_sends id j)
  set_send_buffered_flags false = ground (arith, has_flag-clear_flag c.pending_sends id j hid hj)

-- The four words of `Clients` hold a table of flags for the clients below 32: each method sets or clears
-- the flags of its client, as the table with that client's row replaced, and leaves the others of that
-- row and every other row alone; `take_pending_recv` and `set_send_buffered` return the flag as it was.
pub methods_refine_flags :
    (c : Clients) (id j : ℕ) (value : Bool)
    → id < width
    → j < width
    → (flags_of (set_connected id c) j ≡ (
        if id == j
        then record (flags_of c j) { connected = true; closing = false; waiting = false }
        else flags_of c j))
      × (flags_of (set_disconnecting id c) j
          ≡ (if id == j then record (flags_of c j) { closing = true } else flags_of c j))
      × (flags_of (set_disconnected id c) j ≡ (
          if id == j
          then record (flags_of c j) { connected = false; closing = true }
          else flags_of c j))
      × (flags_of (set_closed id c) j ≡ (
          if id == j
          then record (flags_of c j) { connected = false; closing = false; waiting = false }
          else flags_of c j))
      × (flags_of (set_pending_recv id c) j
          ≡ (if id == j then record (flags_of c j) { waiting = true } else flags_of c j))
      × (flags_of (take_pending_recv id c).1 j
          ≡ (if id == j then record (flags_of c j) { waiting = false } else flags_of c j))
      × ((take_pending_recv id c).0 ≡ (flags_of c id).waiting)
      × (flags_of (set_send_buffered id value c).1 j
          ≡ (if id == j then record (flags_of c j) { buffered = value } else flags_of c j))
      × ((set_send_buffered id value c).0 ≡ (flags_of c id).buffered)
unfolding set_pending_recv take_pending_recv set_send_buffered
methods_refine_flags c id j value hid hj = (
  set_connected_flags c id j hid hj,
  set_disconnecting_flags c id j hid hj,
  set_disconnected_flags c id j hid hj,
  set_closed_flags c id j hid hj,
  ground (arith, has_flag-set_flag c.pending_recv id j),
  take_pending_recv_flags c id j hid hj,
  refl,
  set_send_buffered_flags c id j hid hj value,
  refl,
)
