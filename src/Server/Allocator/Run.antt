-- ===== src/Server/Allocator/Run.antt =====
-- server/src/allocator.rs: the steps of `add_internal` and `alloc` one after the other, where none fails.
use clipboard_history.Prelude.{ℕ, ◌+◌, ◌<◌, ◌≡◌, ◌∙◌, true, [], ok, length, arith}
use clipboard_history.Prelude.Files.{Bytes}
use clipboard_history.Core.Protocol.{RingKind}
use clipboard_history.Core.Entry.{Entry}
use clipboard_history.Core.Mimes.{is_text_mime}
use clipboard_history.Core.Ring
use clipboard_history.Core.Ring.{Ring}
use clipboard_history.Server.Store.{
  Allocator, M, CliError, pure, throw, multiple, ◌>>=◌, ◌>>◌, on_error, gets, modify, ring_at,
  write, set_write_head, create_receiver, receive_data,
}
use clipboard_history.Server.Store.Laws.{
  after_write, write-after_write, set_write_head-after_set_head, >>-ok, >>=-ok, on_error-ok,
  syscall-ok,
}
use clipboard_history.Server.Slots.{alloc, alloc_bucket, free}
use clipboard_history.Server.Allocator.{make_room, grow_ring, add_internal}
use clipboard_history.Server.Allocator.Placed.{placed}

-- `add_internal`, once the position is cleared and the data stored.
pub add_internal-placed :
    (to : RingKind) (make_entry : ℕ → M Entry) (s s1 s2 : Allocator) (e : Entry)
    → make_room to (Ring.write_head (ring_at to s)) s ≡ (ok tt, s1)
    → make_entry (Ring.write_head (ring_at to s)) s1 ≡ (ok e, s2)
    → s2.faults ≡ []
    → add_internal to make_entry s
      ≡ (ok (Ring.write_head (ring_at to s)), placed to e (Ring.write_head (ring_at to s)) s2)
unfolding add_internal
add_internal-placed to make_entry s s1 s2 e cleared made calm =
    let head = Ring.write_head (ring_at to s) in
    let t = after_write to e head s2 in
    >>-ok (make_room to head) (make_entry head >>= rest head) s cleared
    ∙ >>=-ok (make_entry head) (rest head) s1 made
    ∙ >>-ok (stored head e) (last head) s2
        (on_error-ok (write to e head) (undo head e) s2 (write-after_write to e head s2 calm))
    ∙ >>-ok (set_write_head to (Ring.next_head (ring_at to t) head)) (finish head) t
        (set_write_head-after_set_head to (Ring.next_head (ring_at to t) head) t calm)
  where
    finish : ℕ → M ℕ
    finish head = modify (grow_ring to (head + 1)) >> pure head

    last : ℕ → M ℕ
    last head = gets (λ s. Ring.next_head (ring_at to s) head) >>= λ next.
        set_write_head to next >> finish head

    undo : ℕ → Entry → CliError → M (Unit {0})
    undo head e err = on_error (free e to head) (λ e2. throw (multiple err e2)) >> throw err

    stored : ℕ → Entry → M (Unit {0})
    stored head e = on_error (write to e head) (undo head e)

    rest : ℕ → Entry → M ℕ
    rest head e = stored head e >> last head

pub alloc_text :
    (bytes mime : Bytes) (to : RingKind) (id : ℕ) (s : Allocator)
    → s.faults ≡ []
    → is_text_mime mime ≡ true
    → 0 < length bytes
    → length bytes < 4096
    → alloc bytes mime to id s ≡ alloc_bucket bytes s
unfolding alloc
alloc_text bytes mime to id s calm text pos small =
    ground (arith, syscall-ok create_receiver s calm, syscall-ok receive_data s calm)
