-- ===== src/Lib.antt =====
-- A model of Ringboard, a clipboard history in Rust. A server owns a database directory and clients
-- read it through shared mappings. The database has two rings of entries (favorites and main), eleven
-- bucket files of slots for short texts, one file for each size class, and a directory `direct` of
-- files for everything else. An entry of a ring is a word of 32 bits: unused, a slot (its size and its
-- index in the bucket of its size), or a direct file, whose name is the entry's identifier.
--
-- Core models the crate core: Core.Protocol core/src/protocol.rs (`composite_id`, `decompose_id`),
-- Core.InitializedEntry, Core.Entry and Core.Ring core/src/ring.rs (the words, `Ring` and its steps),
-- Core.Buckets, Core.Mimes and Core.FileName core/src/utils.rs (`size_to_bucket`,
-- `bucket_to_length`, `TEXT_MIMES`, `direct_file_name`), Core.Views core/src/views.rs.
-- Server models server/src/allocator.rs: Server.RingWriter `RingWriter`, Server.Store the struct
-- `Allocator` with what it owns, Server.Slots the methods of `AllocatorData`, Server.Gc `gc_`,
-- Server.Allocator the requests `add`, `move_to_front`, `swap` and `remove`, Server.FreeLists
-- `FreeLists::load`; Server.SendMsgBufs is server/src/send_msg_bufs.rs, the clients' send buffers,
-- Server.Requests server/src/requests.rs, what the server does with a message, Server.Clients and
-- Server.Reactor server/src/reactor.rs, the flags of the clients and the event loop. Client models
-- client-sdk/src/ring_reader.rs: Client.RingReader the iterators and `DatabaseReader`,
-- Client.EntryReader `EntryReader` and the loading of an entry's data; Client.Search is
-- client-sdk/src/search.rs, Client.UiActor the answers of client-sdk/src/ui_actor.rs to a search
-- and to the request for the first page, Client.DuplicateDetector
-- client-sdk/src/duplicate_detection.rs. System puts a client beside the server. X11 models the
-- crate x11, the clipboard watcher: X11.BestTarget x11/src/best_target.rs (which of the offered
-- types to ask for), X11.Deduplication x11/src/deduplication.rs (whether a copy is in the history
-- already), and x11/src/main.rs in X11.Requests (what is asked of the two servers), X11.Paste (the
-- answers to who pastes), X11.Copy (the states of a transfer) and X11.Watcher (all events, and the
-- loop); X11.Loopback joins the two sides. Cli.Pipeline models the pipelined requests of
-- cli/src/main.rs and Cli.Stats the command `stats`. Modules below these hold the proofs and are
-- named for what they prove; Prelude has the Boolean tests, the lists, the bytes of a file and the
-- vectors; Tests has runs and examples.
--
-- A file is the list of its bytes; a mapped byte past the end reads as zero. A method of the
-- allocator takes the state and returns a result beside the new state, since a method that fails
-- keeps what it has changed. Every system call takes the next item of `faults`, `true` making it
-- fail, and succeeds past the end of the list: so the error paths are runs of the model. Debug
-- assertions are not checked, as in a release build, but for the one of `SendMsgBufs::alloc`, which
-- is a panic here. The data of an `add` stands for the bytes that the client's descriptor yields. A
-- number of the source is a natural number, cut to its width where the source may overflow: `index << 12`,
-- `index << 8` and the `id + 1` of `ArrayMap::remember` in 32 bits.
--
-- Fuel: `next_dir` has `len() + 2` rounds, since a reader visits an index once; the logarithm halves a
-- number of 16 bits, so 16 rounds; a number of 64 bits has at most 20 digits, and a hash of 64 bits
-- is folded in 64 rounds at most. `Client.RingReader.drain` is a `for` loop of so many rounds over a
-- reader, `run` of X11.Watcher the loop over the events that come; a pipelined request waits at
-- most for the pending ones, so it has one round more than there are of them.
--
-- Not modelled: the opening and closing of a database (lock file, permissions, `save`), the set-up of
-- the event loops and the memory that the server shares with the kernel, failing requests to the X
-- server, what is shown of an entry, the user interfaces and the rest of the command line. Log lines
-- are left out.
pub mod Prelude
pub mod Core
pub mod Server
pub mod Client
pub mod X11
pub mod Cli
pub mod System
mod Tests
