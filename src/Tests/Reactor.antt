-- ===== src/Tests/Reactor.antt =====
-- The event loop and its requests on small runs.
use clipboard_history.Prelude.{
  ◌≡◌, refl, true, false, none, some, [], ◌∷◌, ok, err, drop, replicate, set, arith, ◌==◌,
  if◌then◌else◌, zero, suc,
}
use clipboard_history.Prelude.Results.{◌>>=◌}
use clipboard_history.Prelude.Flags.{has_flag, set_flag, clear_flag}
use clipboard_history.Prelude.Files.{Bytes}
use clipboard_history.Core.Protocol.{main, decompose_id}
use clipboard_history.Core.Protocol.{entry as entry_not_found}
use clipboard_history.Core.Ring
use clipboard_history.Server.Store.{CliError}
use clipboard_history.Server.SendMsgBufs.{
  Message, new_bufs, new_client, init_buf, alloc, alloc_client, has_outstanding_sends, free,
  free_client, drain_client, has_ready_block, has_pending_sends, drain_pending_sends,
}
use clipboard_history.Server.Allocator.{remove, get_entry}
use clipboard_history.Server.Requests.{
  Request, remove_entry, add_entry, Response, Wire, ServerState, connect, handle, respond, removed,
}
use clipboard_history.Server.Requests.Replies.{
  read_u64, handle_replies, handle_needs_one_file, WithoutItsFile,
}
use clipboard_history.Server.Clients.{
  no_clients, is_connected, is_closing, set_connected, set_disconnecting, set_disconnected,
  set_closed, set_pending_recv, take_pending_recv, set_send_buffered, set_send_buffered,
}
use clipboard_history.Server.Clients.Laws.{flags_of, methods_refine_flags}
use clipboard_history.Server.Reactor.{
  Reactor, message, sent, broken_pipe, on_sendmsg, note_pending_send, response_to, queue_response,
  after_response, try_close, handle_message, handle_payload, handle_receive, handle_completion,
  handle_sendmsg, release, flush_sends, drain_send_bufs, after_send, resume, flush,
}
use clipboard_history.Server.Reactor.Stuck.{closes}
use clipboard_history.Server.Reactor.Refused.{
  here, handled, submitted, flushed, refused_is_never_closed,
}
use clipboard_history.Server.Reactor.Closing.{run_sends, closed_client_is_closed}
use clipboard_history.Tests.Server.{start, empty_ring}

-- A layout of requests and responses: the first byte of a request says what it is.
abbrev request_of : Bytes → Request
request_of [] = remove_entry 0
request_of (zero ∷ bytes) = add_entry main bytes
request_of (suc n ∷ bytes) = remove_entry n

abbrev response_of : Response → Bytes
response_of (removed none) = 0 ∷ []
response_of (removed (some e)) = 1 ∷ []
response_of r = 2 ∷ []

abbrev wire : Wire
wire = record { request_size = 2; read_request = request_of; response_bytes = response_of }

abbrev fresh_server : ServerState
fresh_server = record { allocator = start; send_bufs = new_bufs; sequence_number = 41 }

-- The loop when client 3 has been accepted.
abbrev one_client : Reactor
one_client = record {
  server = fresh_server;
  clients = no_clients;
  client_buffers = set (replicate 32 false) 3 true;
  pending_accept = true;
  clients_with_pending_sends = [];
  submissions = [];
  running = true;
}

abbrev version_reply : Message
version_reply = record { control = []; data_bytes = 0 ∷ [] }

-- The loop when client 3 has said that it has version 9.
abbrev refused : Reactor
refused = record one_client {
  server = record fresh_server {
    send_bufs = record {
      clients = set new_bufs.clients 3 (record {
        bufs = set new_client.bufs 0 (some version_reply);
        alloc_count = 1;
        pending_bufs = (0, version_reply) ∷ [];
      });
      pool = 0;
    };
  };
  clients = record no_clients { pending_closes = 8; pending_sends = 8 };
  clients_with_pending_sends = 3 ∷ [];
}

is_refused : handle_receive wire 3 (message 0 (9 ∷ []) []) true one_client ≡ ok refused
unfolding handle_receive handle_message has_flag handle_payload note_pending_send set_send_buffered
    response_to queue_response alloc alloc_client connect init_buf after_response set_disconnected
    clear_flag set_flag try_close has_outstanding_sends set_disconnecting
is_refused = refl

-- The same when its reply has been sent.
abbrev replied : Reactor
replied = record refused {
  server = record fresh_server { send_bufs = record new_bufs { pool = 1 } };
  clients = record no_clients { pending_closes = 8 };
  clients_with_pending_sends = [];
}

is_replied :
    handle_completion wire (on_sendmsg 3 0 sent) (record (flush 64 refused) { submissions = [] })
    ≡ ok replied
unfolding handle_completion flush handle_sendmsg release free free_client flush_sends
    has_ready_block has_pending_sends drain_send_bufs drain_pending_sends drain_client after_send
    resume has_flag set_send_buffered clear_flag
is_replied = refl

refused_is_never_closed_example :
    (closes 3 replied.submissions ≡ 0)
    × (is_closing replied.clients 3 ≡ true)
    × (true ≡ true → replied.pending_accept ≡ true)
unfolding has_flag
refused_is_never_closed_example =
    refused_is_never_closed wire 3 0 9 [] [] true one_client refused replied (omega arith)
      (omega arith) refl refl refl (λ e. absurd (omega (arith, e))) is_refused
      (handled (on_sendmsg 3 0 sent) (submitted (flushed 64 here)) (omega arith) is_replied)

abbrev first : Message
first = record { control = []; data_bytes = 1 ∷ [] }

-- Client 3 is connected, and two replies are being sent.
abbrev two_sends : Reactor
two_sends = record one_client {
  server = record fresh_server {
    send_bufs = record {
      clients = set new_bufs.clients 3 (record {
        bufs = set (set new_client.bufs 0 (some version_reply)) 1 (some first);
        alloc_count = 2;
        pending_bufs = [];
      });
      pool = 0;
    };
  };
  clients = record no_clients { connections = 8 };
}

closed_client_is_closed_example :
    (t : Reactor) × ((handle_receive wire 3 (message 2 [] []) true two_sends >>= λ s.
    run_sends 3 ((1, broken_pipe) ∷ []) s)
      ≡ ok t)
    × (closes 3 t.submissions ≡ 0)
    × (is_connected t.clients 3 ≡ true)
    × (is_closing t.clients 3 ≡ true)
unfolding has_flag free_client
closed_client_is_closed_example =
    closed_client_is_closed 3 wire 2 [] true ((1, broken_pipe) ∷ (0, sent) ∷ []) 1 two_sends
      (omega arith) (omega arith) refl refl refl refl
      (
        (λ e. cc),
        record {
          bufs = set new_client.bufs 0 (some version_reply);
          alloc_count = 1;
          pending_bufs = [];
        },
        refl,
        ((λ e. cc), new_client, refl, tt),
      )

methods_refine_flags_example :
    (flags_of (set_connected 3 no_clients) 5 ≡ (
      if 3 == 5
      then record (flags_of no_clients 5) { connected = true; closing = false; waiting = false }
      else flags_of no_clients 5))
    × (flags_of (set_disconnecting 3 no_clients) 5 ≡ (
        if 3 == 5
        then record (flags_of no_clients 5) { closing = true }
        else flags_of no_clients 5))
    × (flags_of (set_disconnected 3 no_clients) 5 ≡ (
        if 3 == 5
        then record (flags_of no_clients 5) { connected = false; closing = true }
        else flags_of no_clients 5))
    × (flags_of (set_closed 3 no_clients) 5 ≡ (
        if 3 == 5
        then record (flags_of no_clients 5) { connected = false; closing = false; waiting = false }
        else flags_of no_clients 5))
    × (flags_of (set_pending_recv 3 no_clients) 5 ≡ (
        if 3 == 5
        then record (flags_of no_clients 5) { waiting = true }
        else flags_of no_clients 5))
    × (flags_of (take_pending_recv 3 no_clients).1 5 ≡ (
        if 3 == 5
        then record (flags_of no_clients 5) { waiting = false }
        else flags_of no_clients 5))
    × ((take_pending_recv 3 no_clients).0 ≡ (flags_of no_clients 3).waiting)
    × (flags_of (set_send_buffered 3 true no_clients).1 5 ≡ (
        if 3 == 5
        then record (flags_of no_clients 5) { buffered = true }
        else flags_of no_clients 5))
    × ((set_send_buffered 3 true no_clients).0 ≡ (flags_of no_clients 3).buffered)
methods_refine_flags_example = methods_refine_flags no_clients 3 5 true (omega arith) (omega arith)

-- A `Remove` of an entry of an empty ring.
abbrev remove_request : Bytes
remove_request = 1 ∷ 7 ∷ []

handle_replies_example :
    (r : Response) × (m : Message) × (s' : ServerState) × (removed (some (entry_not_found 0)) ∷ []
      ≡ r ∷ [])
    × (handle wire remove_request [] fresh_server ≡ ok (some m, s'))
    × (read_u64 m.data_bytes ≡ 42)
    × (drop 8 m.data_bytes ≡ wire.response_bytes r)
    × (s'.sequence_number ≡ 42)
    × (s'.allocator ≡ start)
unfolding respond remove get_entry decompose_id Ring.get empty_ring
handle_replies_example =
    handle_replies wire remove_request [] fresh_server start
      (removed (some (entry_not_found 0)) ∷ []) (omega arith) tt refl

handle_needs_one_file_example :
    WithoutItsFile fresh_server [] (handle wire (0 ∷ 1 ∷ []) [] fresh_server)
handle_needs_one_file_example =
    handle_needs_one_file wire (0 ∷ 1 ∷ []) [] fresh_server main (1 ∷ []) (omega arith) refl

two_files_end_the_server :
    (e : CliError) × (handle wire (0 ∷ 1 ∷ []) ((5 ∷ []) ∷ (6 ∷ []) ∷ []) fresh_server ≡ err e)
two_files_end_the_server =
    handle_needs_one_file wire (0 ∷ 1 ∷ []) ((5 ∷ []) ∷ (6 ∷ []) ∷ []) fresh_server main (1 ∷ [])
      (omega arith) refl
