-- ===== src/Tests/SendMsgBufs.antt =====
-- A client's send buffers on small runs.
use clipboard_history.Prelude.{◌≡◌, refl, true, none, some, [], ◌∷◌, ◌++◌, get_or}
use clipboard_history.Server.SendMsgBufs.{
  Message, ClientBufs, new_client, alloc_client, drain_client, free_client, has_ready_block,
}
use clipboard_history.Server.SendMsgBufs.Counts.{
  filled, IsCounted, Reachable, fresh, allocated, Reachable-alloc,
}

abbrev reply : Message
reply = record { control = []; data_bytes = 1 ∷ 2 ∷ [] }

abbrev one_queued : ClientBufs
one_queued = record {
  bufs = none ∷ none ∷ none ∷ none ∷ none ∷ some reply ∷ none ∷ none ∷ [];
  alloc_count = 1;
  pending_bufs = (5, reply) ∷ [];
}

first_alloc : alloc_client 13 reply new_client ≡ some one_queued
unfolding alloc_client
first_alloc = refl

one_queued-Reachable : Reachable one_queued
one_queued-Reachable = allocated 13 reply fresh first_alloc

Reachable-alloc_example :
    (filled one_queued.bufs ≡ 1)
    × (c' : ClientBufs) × (alloc_client 14 reply one_queued ≡ some c')
    × (c'.pending_bufs ≡ one_queued.pending_bufs ++ ((6, reply) ∷ []))
    × (get_or c'.bufs 6 none ≡ some reply)
    × IsCounted c'
Reachable-alloc_example = Reachable-alloc one_queued 14 reply one_queued-Reachable refl

freed_after_drain : free_client 13 (drain_client 4 one_queued).1 ≡ some new_client
unfolding free_client drain_client
freed_after_drain = refl

all_queued_is_ready : has_ready_block one_queued ≡ true
unfolding has_ready_block
all_queued_is_ready = refl
