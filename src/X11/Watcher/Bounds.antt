-- ===== src/X11/Watcher/Bounds.antt =====
-- x11/src/main.rs: the tables of transfers, whatever comes.
use mathlib.Core.Path.{subst}
use clipboard_history.Prelude.{
  ℕ, ◌≡◌, ◌∙◌, refl, List, [], ◌∷◌, Result, ok, err, length, arith, Option-cases, inl, inr,
}
use clipboard_history.Prelude.Results.{Ensures, >>=-Ensures}
use clipboard_history.X11.Requests.{Atoms, Effect}
use clipboard_history.X11.Deduplication.{CopyDeduplication}
use clipboard_history.X11.Paste.{property_deleted}
use clipboard_history.X11.Copy.{Answers, Copier}
use clipboard_history.X11.Watcher.{
  Event, selection_request, selection_notify, selection_clear, property_notify,
  xfixes_selection_notify, error, other, Watcher, handle_x11_event, Input, x11, paste, handle_input,
  run, started, with_copier,
}
use clipboard_history.X11.Paste.Bounds.{
  IsPasting, Keeps, selection_requested-IsPasting, selection_cleared-IsPasting,
  handle_paste-IsPasting, property_deleted-Keeps,
}
use clipboard_history.X11.Copy.Bounds.{
  IsAllocated, selection_changed-IsAllocated, selection_notified-IsAllocated,
  property_changed-IsAllocated,
}

abbrev pub IsBounded : Watcher → Type 0
IsBounded s = IsAllocated s.copier.allocator × IsPasting s.paster

with_copier-IsBounded :
    (result : Result (List Effect × Copier) (Unit {0})) (s : Watcher)
    → IsPasting s.paster
    → Ensures (λ (r : List Effect × Copier). IsAllocated r.1.allocator) result
    → Ensures (λ (r : List Effect × Watcher). IsBounded r.1) (with_copier result s)
with_copier-IsBounded (ok (effects, copier)) s p a = (a, p)
with_copier-IsBounded (err e) s p a = tt

-- A watcher whose tables have four places and whose next transfers are among them, in which a transfer
-- without data has no requestor and the file of a copy in pieces has as many bytes as are counted, is
-- such a watcher after any event that does not end it.
pub handle_x11_event-IsBounded :
    (answers : Answers) (atoms : Atoms) (paste_window : ℕ) (event : Event) (s : Watcher)
    → IsBounded s
    → Ensures
        (λ (r : List Effect × Watcher). IsBounded r.1)
        (handle_x11_event answers atoms paste_window event s)
unfolding handle_x11_event
handle_x11_event-IsBounded answers atoms paste_window (selection_request r) s (a, p) =
    (a, selection_requested-IsPasting atoms r s.paster p)
handle_x11_event-IsBounded answers atoms paste_window (selection_notify requestor property) s
      (a, p) =
    (selection_notified-IsAllocated atoms paste_window requestor property s.copier.allocator a, p)
handle_x11_event-IsBounded answers atoms paste_window (selection_clear owner) s (a, p) =
    (a, selection_cleared-IsPasting paste_window owner s.paster p)
handle_x11_event-IsBounded answers atoms paste_window
      (property_notify window atom deleted new_value property) s (a, (size, room, done)) =
    elim (Option-cases (property_deleted window atom deleted s.paster.allocations)) [
      | inl copying ↦
          rw (Ensures, copying)
            (with_copier-IsBounded _ s (size, room, done)
              (property_changed-IsAllocated answers atoms window atom new_value property s.copier
                a))
      | inr ((effects, allocations), pasting) ↦
          let (size', done') =
            subst (Keeps s.paster.allocations) pasting
              (property_deleted-Keeps window atom deleted s.paster.allocations done) in
          rw (Ensures, pasting) (a, (size' ∙ size, room, done'))
    ]
handle_x11_event-IsBounded answers atoms paste_window (xfixes_selection_notify owner selection) s
      (a, p) =
    (selection_changed-IsAllocated atoms paste_window owner selection s.copier.allocator a, p)
handle_x11_event-IsBounded answers atoms paste_window error s h = tt
handle_x11_event-IsBounded answers atoms paste_window other s h = h

handle_input-IsBounded :
    (answers : Answers) (atoms : Atoms) (paste_window : ℕ) (input : Input) (s : Watcher)
    → IsBounded s
    → Ensures
        (λ (r : List Effect × Watcher). IsBounded r.1)
        (handle_input answers atoms paste_window input s)
unfolding handle_input
handle_input-IsBounded answers atoms paste_window (x11 event) s h =
    handle_x11_event-IsBounded answers atoms paste_window event s h
handle_input-IsBounded answers atoms paste_window (paste mime atom fds) s (a, p) =
    (a, handle_paste-IsPasting mime atom fds s.paster p)

run-IsBounded :
    (answers : Answers) (atoms : Atoms) (paste_window : ℕ) (inputs : List Input) (s : Watcher)
    → IsBounded s
    → Ensures
        (λ (r : List Effect × Watcher). IsBounded r.1)
        (run answers atoms paste_window inputs s)
unfolding run
run-IsBounded answers atoms paste_window [] s h = h
run-IsBounded answers atoms paste_window (input ∷ inputs) s h =
    >>=-Ensures (λ (r : List Effect × Watcher). IsBounded r.1) _ _ _
      (handle_input-IsBounded answers atoms paste_window input s h)
      (λ (effects, s') h'.
        >>=-Ensures (λ (r : List Effect × Watcher). IsBounded r.1) _ _ _
          (run-IsBounded answers atoms paste_window inputs s' h') (λ (more, s'') h''. h''))

-- Whatever comes, after the start with four windows: as long as the watcher runs, its tables have four
-- places and the next transfers are among them, a paste without data has no requestor, and the file of
-- a copy that comes in pieces has as many bytes as are counted, so that a piece is written at its end.
pub run_stays_in_bounds :
    (answers : Answers) (atoms : Atoms) (paste_window : ℕ) (inputs : List Input) (windows : List ℕ)
    (d : CopyDeduplication)
    → length windows ≡ 4
    → Ensures
        (λ (r : List Effect × Watcher). IsBounded r.1)
        (run answers atoms paste_window inputs (started windows d))
unfolding started
run_stays_in_bounds answers atoms paste_window inputs windows d four =
    run-IsBounded answers atoms paste_window inputs (started windows d) (
      (four, refl, omega arith, (tt, (tt, (tt, (tt, tt))))),
      (refl, omega arith, (refl, (refl, (refl, (refl, tt))))),
    )
