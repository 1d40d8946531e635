-- ===== src/Server/SendMsgBufs.antt =====
-- server/src/send_msg_bufs.rs: the send buffers of the clients. A message stands for its vector and the
-- `msghdr` behind it, which names the two parts of the vector; the table of one client is a record of
-- its own.
pub mod Counts
use clipboard_history.Prelude.{
  ℕ, ◌+◌, ◌-◌, min, Bool, true, false, not, bit_and, Option, none, some, List, [], ◌∷◌, ◌++◌,
  length, get_or, set, take, drop, replicate, ltb, leb, ◌==◌, if◌then◌else◌,
}
use clipboard_history.Prelude.Files.{Bytes}

abbrev pub max_num_clients : ℕ
max_num_clients = 32

abbrev pub max_num_bufs_per_client : ℕ
max_num_bufs_per_client = 8

-- What `init_buf` builds: the bytes that its closures append.
pub record Message : Type 0 where
  pub control : Bytes
  pub data_bytes : Bytes

-- `bufs[client]`, `alloc_counts[client]` and `pending_bufs[client]`
pub record ClientBufs : Type 0 where
  pub bufs : List (Option Message)
  pub alloc_count : ℕ
  pub pending_bufs : List (ℕ × Message)

pub record SendMsgBufs : Type 0 where
  pub clients : List ClientBufs
  -- How many vectors are kept.
  pub pool : ℕ

abbrev pub new_client : ClientBufs
new_client = record {
  bufs = replicate max_num_bufs_per_client none;
  alloc_count = 0;
  pending_bufs = [];
}

-- `SendMsgBufs::new`
abbrev pub new_bufs : SendMsgBufs
new_bufs = record { clients = replicate max_num_clients new_client; pool = 0 }

abbrev pub bufs_of : ℕ → SendMsgBufs → ClientBufs
bufs_of client s = get_or s.clients client new_client

abbrev pub put_bufs : ℕ → ClientBufs → SendMsgBufs → SendMsgBufs
put_bufs client c s = record s { clients = set s.clients client c }

-- `token & TOKEN_MASK`
abbrev pub slot_of : ℕ → ℕ
slot_of token = bit_and token (max_num_bufs_per_client - 1)

-- `drain_pending_sends`: the drained allocations and what is left.
unfoldable pub drain_client : ℕ → ClientBufs → List (ℕ × Message) × ClientBufs
drain_client max_sends c =
    let n = min max_sends (length c.pending_bufs) in
    (take n c.pending_bufs, record c { pending_bufs = drop n c.pending_bufs })

unfoldable pub drain_pending_sends : ℕ → ℕ → SendMsgBufs → List (ℕ × Message) × SendMsgBufs
drain_pending_sends client max_sends s =
    let (drained, c) = drain_client max_sends (bufs_of client s) in (drained, put_bufs client c s)

unfoldable pub has_pending_sends : ClientBufs → Bool
has_pending_sends c = not (length c.pending_bufs == 0)

unfoldable pub has_ready_block : ClientBufs → Bool
has_ready_block c = length c.pending_bufs == c.alloc_count

unfoldable pub has_outstanding_sends : ClientBufs → Bool
has_outstanding_sends c = ltb 0 c.alloc_count

-- `init_buf`: a vector of the pool, or a new one, which the closures fill from its start.
unfoldable pub init_buf : Bytes → Bytes → SendMsgBufs → Message × SendMsgBufs
init_buf control data_bytes s =
    (record { control = control; data_bytes = data_bytes }, record s { pool = s.pool - 1 })

-- `alloc` for one client; `none` is a panic, of the debug assertion that the token is free, or of the
-- full queue. A release build does not check the assertion: it would drop the buffer that the token has.
unfoldable pub alloc_client : ℕ → Message → ClientBufs → Option ClientBufs
alloc_client token message c = elim (get_or c.bufs (slot_of token) none) [
  | some m ↦ none
  | none ↦
      if leb max_num_bufs_per_client (length c.pending_bufs)
      then none
      else some (record {
        bufs = set c.bufs (slot_of token) (some message);
        alloc_count = c.alloc_count + 1;
        pending_bufs = c.pending_bufs ++ ((slot_of token, message) ∷ []);
      })
]

unfoldable pub alloc : ℕ → ℕ → Message → SendMsgBufs → Option SendMsgBufs
alloc client token message s = elim (alloc_client token message (bufs_of client s)) [
  | none ↦ none
  | some c ↦ some (put_bufs client c s)
]

-- `free` for one client; `none` is a panic, of the subtraction or of the `unwrap`.
unfoldable pub free_client : ℕ → ClientBufs → Option ClientBufs
free_client token c =
    if c.alloc_count == 0 then none else elim (get_or c.bufs (slot_of token) none) [
      | none ↦ none
      | some m ↦
          some
            (record c { bufs = set c.bufs (slot_of token) none; alloc_count = c.alloc_count - 1 })
    ]

unfoldable pub free : ℕ → ℕ → SendMsgBufs → Option SendMsgBufs
free client token s = elim (free_client token (bufs_of client s)) [
  | none ↦ none
  | some c ↦ some (record (put_bufs client c s) { pool = s.pool + 1 })
]

-- `trim`
unfoldable pub trim : SendMsgBufs → SendMsgBufs
trim s = record s { pool = 0 }
