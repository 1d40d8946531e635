-- ===== src/Server/Allocator/Room.antt =====
-- server/src/allocator.rs: the first half of `add_internal`, which gives up the entry at the write
-- head.
use clipboard_history.Prelude.{ℕ, ◌≤◌, ◌≡◌, refl, ◌∙◌, Option, none, some, [], ok, arith}
use clipboard_history.Core.Protocol.{RingKind}
use clipboard_history.Core.Entry.{Entry, uninitialized, bucketed, file}
use clipboard_history.Server.Store.{Allocator, M, pure, ◌>>=◌, ◌>>◌, write}
use clipboard_history.Server.Store.Laws.{entry_of, after_write, write-after_write, >>-ok, >>=-ok}
use clipboard_history.Server.Slots.{free}
use clipboard_history.Server.Gc
use clipboard_history.Server.Gc.Layers.{wasted_bytes}
use clipboard_history.Server.Allocator.{make_room}
use clipboard_history.Server.Allocator.Files.{HasFile}
use clipboard_history.Server.Allocator.Remove.{after_free, free-after_free}

-- Where the free lists waste no more than the limit, nothing is collected.
pub gc_idle :
    (limit : ℕ) (s : Allocator) → wasted_bytes s.free_lists ≤ limit → Gc.gc limit s ≡ (ok 0, s)
unfolding Gc.gc
gc_idle limit s h = ground arith

-- Every direct entry has its file.
abbrev pub HasFiles : Allocator → Type 0
HasFiles s = (k : RingKind) (i : ℕ) (e : Entry) → entry_of s k i ≡ some e → HasFile s k i e

-- The state behind `make_room`, by the entry that was at the write head.
abbrev pub after_room : Option Entry → RingKind → ℕ → Allocator → Allocator
after_room none to head s = s
after_room (some e) to head s = after_free e to head (after_write to uninitialized head s)

-- `make_room`, by what it finds.
steps : Option Entry → RingKind → ℕ → M (Unit {0})
steps none to head = pure tt
steps (some uninitialized) to head = write to uninitialized head
steps (some file) to head = write to uninitialized head >> free file to head
steps (some (bucketed w)) to head =
    write to uninitialized head
    >> (free (bucketed w) to head >> (Gc.gc 0xffff >>= λ freed. pure tt))

make_room-steps :
    (found : Option Entry) (to : RingKind) (head : ℕ) (s : Allocator)
    → entry_of s to head ≡ found
    → make_room to head s ≡ steps found to head s
unfolding make_room steps
make_room-steps none to head s h = ground arith
make_room-steps (some uninitialized) to head s h = ground arith
make_room-steps (some file) to head s h = ground arith
make_room-steps (some (bucketed w)) to head s h = ground arith

steps-after_room :
    (found : Option Entry) (to : RingKind) (head : ℕ) (s : Allocator)
    → s.faults ≡ []
    → ((e : Entry) → found ≡ some e → HasFile s to head e)
    → wasted_bytes (after_room found to head s).free_lists ≤ 0xffff
    → steps found to head s ≡ (ok tt, after_room found to head s)
unfolding steps
steps-after_room none to head s calm files idle = refl
steps-after_room (some uninitialized) to head s calm files idle =
    unfold after_free in write-after_write to uninitialized head s calm
steps-after_room (some file) to head s calm files idle =
    let t = after_write to uninitialized head s in
    >>-ok (write to uninitialized head) (free file to head) s
      (write-after_write to uninitialized head s calm)
    ∙ free-after_free file to head t calm (files file refl)
steps-after_room (some (bucketed w)) to head s calm files idle =
    let t = after_write to uninitialized head s in
    let u = after_free (bucketed w) to head t in
    >>-ok (write to uninitialized head)
      (free (bucketed w) to head >> (Gc.gc 0xffff >>= λ freed. pure tt)) s
      (write-after_write to uninitialized head s calm)
    ∙ >>-ok (free (bucketed w) to head) (Gc.gc 0xffff >>= λ freed. pure tt) t
        (free-after_free (bucketed w) to head t calm tt)
    ∙ >>=-ok (Gc.gc 0xffff) (λ freed. pure tt) u (gc_idle 0xffff u idle)

-- Where no slots are collected, `make_room` ends in `after_room`.
pub make_room-after_room :
    (to : RingKind) (head : ℕ) (s : Allocator)
    → s.faults ≡ []
    → HasFiles s
    → wasted_bytes (after_room (entry_of s to head) to head s).free_lists ≤ 0xffff
    → make_room to head s ≡ (ok tt, after_room (entry_of s to head) to head s)
make_room-after_room to head s calm files idle =
    make_room-steps (entry_of s to head) to head s refl
    ∙ steps-after_room (entry_of s to head) to head s calm (files to head) idle
