-- ===== src/X11/Loopback.antt =====
-- x11/src/main.rs: the pieces of a large paste, received by a watcher.
use mathlib.Core.Path.{subst}
use clipboard_history.Prelude.{
  Option, ok, ℕ, suc, ◌<◌, ◌≡◌, ◌≢◌, ◌∙◌, ap, true, some, none, List, [], ◌∷◌, ◌++◌, length,
  replicate, arith,
}
use clipboard_history.Prelude.Files.{Bytes}
use clipboard_history.X11.Requests.{Atoms, get_property}
use clipboard_history.X11.Deduplication.{CopyDeduplication, hash_data, check, remember_copy}
use clipboard_history.X11.Paste.{
  Paster, PasteAtom, SelectionRequest, large, contains, supported_atoms, selection_requested,
}
use clipboard_history.X11.Paste.Incr.{
  AllOthers, IsPieces, join, values, values-sends, run_deletes, large_paste_sends_all,
}
use clipboard_history.X11.Copy.{Answers, Copier, get, free, put_state, pending_incr}
use clipboard_history.X11.Copy.Kept.{asked_to_keep, kept_id}
use clipboard_history.X11.Copy.Incr.{NoneEmpty, receive, incr_copy_keeps_all}

NoneEmpty-IsPieces : (ps : List Bytes) → IsPieces ps → NoneEmpty ps
NoneEmpty-IsPieces [] pieces = tt
NoneEmpty-IsPieces (p ∷ ps) (some_bytes, most, later) = (some_bytes, NoneEmpty-IsPieces ps later)

module _ (answers : Answers) (atoms : Atoms) (window event_atom i mime_atom : ℕ)
    (mime : Bytes) where
  kept_after :
      (content : Bytes) (ps : List Bytes) (c : Copier) (found : Option ℕ) (d : CopyDeduplication)
      → join ps ≡ content
      → 0 < length content
      → IsPieces ps
      → event_atom ≢ atoms.window_name
      → get window c.allocator ≡ some (i, pending_incr mime_atom mime none 0)
      → check (hash_data answers.fx_bytes answers.fx_len content) content c.deduplicator
        ≡ (ok found, d)
      → receive answers atoms window event_atom (ps ++ ([] ∷ [])) c
        ≡ ok (
          replicate (suc (length ps)) (get_property window event_atom)
              ++ asked_to_keep answers mime content found,
          record {
            allocator = put_state i free c.allocator;
            deduplicator =
                remember_copy
                  (hash_data answers.fx_bytes answers.fx_len content)
                  (kept_id answers found)
                  d;
          },
        )
  kept_after content [] c found d joined some_bytes pieces named h known =
      let none_there : 0 ≡ length content = ap length joined in absurd (omega arith)
  kept_after content (p ∷ ps) c found d joined some_bytes pieces named h known =
      subst
        (λ x.
          check (hash_data answers.fx_bytes answers.fx_len x) x c.deduplicator ≡ (ok found, d)
          → receive answers atoms window event_atom ((p ∷ ps) ++ ([] ∷ [])) c
            ≡ ok (
              replicate (suc (length (p ∷ ps))) (get_property window event_atom)
                  ++ asked_to_keep answers mime x found,
              record {
                allocator = put_state i free c.allocator;
                deduplicator =
                    remember_copy (hash_data answers.fx_bytes answers.fx_len x)
                      (kept_id answers found) d;
              },
            ))
        joined
        (incr_copy_keeps_all answers atoms window event_atom i mime_atom mime p ps c found d named
          (NoneEmpty-IsPieces (p ∷ ps) pieces) h)
        known

  -- A request to paste data of at least a byte that is pasted in pieces, for a target that is supported
  -- and not the list of targets, by a requestor that has no transfer yet: after some number of
  -- deletions of its property, the values that it was sent are received one after the other, in a
  -- property other than the window's name, by a watcher with a window that waits for the first piece of
  -- a copy. Where that watcher's test for duplicates does not panic on the data, it asks the server to
  -- add the data, whole, under its type, or, if it finds an entry with the data, to move that entry to
  -- the front, and to add the data only if the server no longer has the entry; it remembers the
  -- identifier that the server replies with for the hash of the data, and its transfer is free.
  pub large_paste_is_kept :
      (r : SelectionRequest) (content : Bytes) (a : PasteAtom) (s : Paster) (c : Copier)
      (found : Option ℕ) (d : CopyDeduplication)
      → s.last_paste ≡ some (large content, a)
      → r.selection ≡ atoms.clipboard
      → contains r.target (supported_atoms atoms a) ≡ true
      → r.target ≢ atoms.targets
      → s.next < length s.allocations
      → AllOthers r.requestor s.allocations
      → 0 < length content
      → event_atom ≢ atoms.window_name
      → get window c.allocator ≡ some (i, pending_incr mime_atom mime none 0)
      → check (hash_data answers.fx_bytes answers.fx_len content) content c.deduplicator
        ≡ (ok found, d)
      → (n : ℕ) × (receive answers atoms window event_atom
            (values
              (run_deletes
                (suc n)
                r.requestor
                event_atom
                (selection_requested atoms r s).1.allocations).0)
            c
          ≡ ok (
            replicate (suc n) (get_property window event_atom)
                ++ asked_to_keep answers mime content found,
            record {
              allocator = put_state i free c.allocator;
              deduplicator =
                  remember_copy
                    (hash_data answers.fx_bytes answers.fx_len content)
                    (kept_id answers found)
                    d;
            },
          ))
  large_paste_is_kept r content a s c found d pasted clip supported other room others some_bytes
        named h known =
      let (ps, run, joined, pieces, _) =
        large_paste_sends_all atoms r content a event_atom s pasted clip supported other room
          others in
      (
        length ps,
        ap (λ x. receive answers atoms window event_atom (values x.0) c) run
            ∙ ap (λ vs. receive answers atoms window event_atom vs c)
                (values-sends r.requestor event_atom r.target ps)
            ∙ kept_after content ps c found d joined some_bytes pieces named h known,
      )
