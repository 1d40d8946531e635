-- ===== src/Server/Clients.antt =====
-- server/src/reactor.rs: `Clients`, the flags of the clients in four words of 32 bits.
pub mod Laws
use clipboard_history.Prelude.{
  ℕ, Bool, true, false, not, ◌&&◌, ◌||◌, ◌<◌, ◌≡◌, refl, arith, ◌==◌, if◌then◌else◌,
}
use clipboard_history.Prelude.Flags.{
  width, has_flag, set_flag, clear_flag, has_flag-set_flag, has_flag-clear_flag,
}

pub record Clients : Type 0 where
  pub connections : ℕ
  pub pending_closes : ℕ
  pub pending_recv : ℕ
  pub pending_sends : ℕ

abbrev pub no_clients : Clients
no_clients = record { connections = 0; pending_closes = 0; pending_recv = 0; pending_sends = 0 }

abbrev pub is_connected : Clients → ℕ → Bool
is_connected c id = has_flag c.connections id

abbrev pub is_closing : Clients → ℕ → Bool
is_closing c id = has_flag c.pending_closes id

unfoldable pub set_connected : ℕ → Clients → Clients
set_connected id c = record c {
  connections = set_flag c.connections id;
  pending_closes = clear_flag c.pending_closes id;
  pending_recv = clear_flag c.pending_recv id;
}

-- `set_send_buffered`: the flag before, and the flags after.
unfoldable pub set_send_buffered : ℕ → Bool → Clients → Bool × Clients
set_send_buffered id value c = (
  has_flag c.pending_sends id,
  record c {
    pending_sends = if value then set_flag c.pending_sends id else clear_flag c.pending_sends id;
  },
)

unfoldable pub set_disconnecting : ℕ → Clients → Clients
set_disconnecting id c = record c { pending_closes = set_flag c.pending_closes id }

unfoldable pub set_disconnected : ℕ → Clients → Clients
set_disconnected id c = record c {
  connections = clear_flag c.connections id;
  pending_closes = set_flag c.pending_closes id;
}

unfoldable pub set_closed : ℕ → Clients → Clients
set_closed id c = record c {
  connections = clear_flag c.connections id;
  pending_closes = clear_flag c.pending_closes id;
  pending_recv = clear_flag c.pending_recv id;
}

unfoldable pub set_pending_recv : ℕ → Clients → Clients
set_pending_recv id c = record c { pending_recv = set_flag c.pending_recv id }

unfoldable pub take_pending_recv : ℕ → Clients → Bool × Clients
take_pending_recv id c =
    (has_flag c.pending_recv id, record c { pending_recv = clear_flag c.pending_recv id })
