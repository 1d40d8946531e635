-- ===== src/X11/Watcher.antt =====
-- x11/src/main.rs: the watcher, which copies and pastes: `handle_x11_event` and the loop of `run`.
pub mod Bounds
use clipboard_history.Prelude.{
  ℕ, Bool, true, false, Option, none, some, List, [], ◌∷◌, ◌++◌, Result, ok, err, replicate, ◌==◌,
  if◌then◌else◌,
}
use clipboard_history.Prelude.Files.{Bytes}
use clipboard_history.Prelude.Results.{◌>>=◌}
use clipboard_history.X11.Requests.{Atoms, Effect, none_id, set_selection_owner}
use clipboard_history.X11.Deduplication.{CopyDeduplication}
use clipboard_history.X11.Paste.{
  Transfer, Paster, SelectionRequest, selection_requested, selection_cleared, property_deleted,
  handle_paste, max_concurrent_transfers,
}
use clipboard_history.X11.Copy.{
  Answers, Copier, Property, free, TransferAtomAllocator, selection_changed, selection_notified,
  property_changed,
}

-- The events of the X server that the watcher tells apart.
pub data Event : Type 0 where
  selection_request : SelectionRequest → Event
  -- the requestor and the property
  selection_notify : ℕ → ℕ → Event
  -- the owner
  selection_clear : ℕ → Event
  -- the window, the atom, whether it is deleted, whether it has a new value, and this value
  property_notify : ℕ → ℕ → Bool → Bool → Property → Event
  -- the owner and the selection
  xfixes_selection_notify : ℕ → ℕ → Event
  error other : Event

-- What the loop waits for.
pub data Input : Type 0 where
  x11 : Event → Input
  -- the type, its atom and the files
  paste : Bytes → ℕ → List Bytes → Input

pub data WatcherError : Type 0 where
  x11_error panicked : WatcherError

pub record Watcher : Type 0 where
  pub copier : Copier
  pub paster : Paster

abbrev pub with_allocator : List Effect × TransferAtomAllocator → Watcher → List Effect × Watcher
with_allocator (effects, allocator) s =
    (effects, record s { copier = record s.copier { allocator = allocator } })

abbrev pub with_copier :
    Result (List Effect × Copier) (Unit {0}) → Watcher → Result (List Effect × Watcher) WatcherError
with_copier (ok (effects, copier)) s = ok (effects, record s { copier = copier })
with_copier (err e) s = err panicked

abbrev pub with_paster : List Effect × Paster → Watcher → List Effect × Watcher
with_paster (effects, paster) s = (effects, record s { paster = paster })

module _ (answers : Answers) (atoms : Atoms) (paste_window : ℕ) where
  unfoldable pub handle_x11_event : Event → Watcher → Result (List Effect × Watcher) WatcherError
  handle_x11_event (selection_request r) s =
      ok (with_paster (selection_requested atoms r s.paster) s)
  handle_x11_event (selection_notify requestor property) s = ok (
      with_allocator (selection_notified atoms paste_window requestor property s.copier.allocator)
        s)
  handle_x11_event (selection_clear owner) s =
      ok (with_paster ([], selection_cleared paste_window owner s.paster) s)
  handle_x11_event (property_notify window atom deleted new_value property) s =
      elim (property_deleted window atom deleted s.paster.allocations) [
        | some (effects, allocations) ↦
            ok (with_paster (effects, record s.paster { allocations = allocations }) s)
        | none ↦
            with_copier (property_changed answers atoms window atom new_value property s.copier) s
      ]
  handle_x11_event (xfixes_selection_notify owner selection) s =
      ok
        (with_allocator (selection_changed atoms paste_window owner selection s.copier.allocator) s)
  handle_x11_event error s = err x11_error
  handle_x11_event other s = ok ([], s)

  unfoldable pub handle_input : Input → Watcher → Result (List Effect × Watcher) WatcherError
  handle_input (x11 event) s = handle_x11_event event s
  handle_input (paste mime atom fds) s = ok (
      with_paster
        (set_selection_owner paste_window atoms.clipboard ∷ [], handle_paste mime atom fds s.paster)
        s)

  -- The loop of `run` over the inputs that come.
  unfoldable pub run : List Input → Watcher → Result (List Effect × Watcher) WatcherError
  run [] s = ok ([], s)
  run (input ∷ inputs) s = handle_input input s >>= λ (effects, s').
      run inputs s' >>= λ (more, s''). ok (effects ++ more, s'')

-- The watcher when the loop starts.
unfoldable pub started : List ℕ → CopyDeduplication → Watcher
started windows deduplicator = record {
  copier = record {
    allocator = record {
      windows = windows;
      states = replicate max_concurrent_transfers free;
      next = 0;
    };
    deduplicator = deduplicator;
  };
  paster = record {
    last_paste = none;
    next = 0;
    allocations = replicate max_concurrent_transfers (record { requestor = none_id; rest = none });
  };
}
