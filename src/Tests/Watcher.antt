-- ===== src/Tests/Watcher.antt =====
-- The watcher on small inputs.
use clipboard_history.Prelude.{
  ℕ, zero, suc, ◌≡◌, refl, true, false, ok, none, some, List, [], ◌∷◌, ◌++◌, length, set, replicate,
  arith, leb, ◌&&◌,
}
use clipboard_history.Prelude.Files.{Bytes}
use clipboard_history.Prelude.Results.{Ensures}
use clipboard_history.Core.Mimes.{codes}
use clipboard_history.Core.Ring.{Ring}
use clipboard_history.X11.Requests.{
  Atoms, Effect, none_id, get_property, add_entry, watch_properties, change_property32,
  selection_notify,
}
use clipboard_history.X11.BestTarget.Choice.{choice, labelled}
use clipboard_history.X11.Deduplication
use clipboard_history.X11.Deduplication.{
  CopyDeduplication, default_map, hash_data, check, check_ring, hash_to_index, fold_hash,
  remember_copy,
}
use clipboard_history.X11.Paste.{
  Paster, PasteAtom, SelectionRequest, large, contains, supported_atoms, selection_requested,
}
use clipboard_history.X11.Paste.Incr.{
  AllOthers, IsPieces, join, values, sends, run_deletes, large_paste_sends_all,
}
use clipboard_history.X11.Copy.{
  Answers, Copier, Property, free, pending_incr, get, position, put_state, targets_arrived,
}
use clipboard_history.X11.Copy.Targets.{ask_for, fitting, targets_choose_best}
use clipboard_history.X11.Copy.Incr.{receive, incr_copy_keeps_all}
use clipboard_history.X11.Loopback.{large_paste_is_kept}
use clipboard_history.X11.Watcher.{
  Watcher, Input, x11, paste, selection_request, xfixes_selection_notify, property_notify, run,
  started,
}
use clipboard_history.X11.Watcher.Bounds.{IsBounded, run_stays_in_bounds}

abbrev atoms : Atoms
atoms = record {
  window_name = 40;
  utf8_string = 41;
  clipboard = 42;
  targets = 43;
  incr = 44;
  text = 45;
  string = 46;
  text_plain = 47;
  text_plain_utf8 = 48;
  text_plain_us_ascii = 49;
  text_plain_unicode = 50;
  atom_type = 4;
  base_transfer_atom = 9;
}

abbrev name : ℕ → Bytes
name zero = codes "TARGETS"
name (suc zero) = codes "text/html"
name _ = codes "text/plain"

abbrev answers : Answers
answers = record {
  atom_name = name;
  is_lowercase = λ c. leb b'a' c && leb c b'z';
  fx_bytes = length;
  fx_len = λ len. len;
  moved = λ id. some id;
  added = 7;
}

abbrev plain : PasteAtom
plain = record { atom = none_id; is_text = true }

-- Data that is taken to be large.
abbrev content : Bytes
content = codes "hello"

abbrev request : SelectionRequest
request = record { requestor = 90; selection = 42; target = 41; property = 60 }

abbrev paster : Paster
paster = record {
  last_paste = some (large content, plain);
  next = 3;
  allocations = replicate 4 (record { requestor = none_id; rest = none });
}

no_transfer : AllOthers 90 paster.allocations
no_transfer = (omega arith, (omega arith, (omega arith, (omega arith, tt))))

large_paste_sends_all_example :
    (ps : List Bytes) × (run_deletes
        (suc (length ps))
        90
        60
        (selection_requested atoms request paster).1.allocations
      ≡ (sends 90 60 41 ps, set paster.allocations 3 (record { requestor = none_id; rest = none })))
    × (join ps ≡ content)
    × IsPieces ps
    × ((selection_requested atoms request paster).0
        ≡ watch_properties 90 true
          ∷ change_property32 90 60 44 (5 ∷ [])
          ∷ selection_notify 90 41 60
          ∷ [])
unfolding supported_atoms contains
large_paste_sends_all_example =
    large_paste_sends_all atoms request content plain 60 paster refl refl refl (omega arith)
      (omega arith) no_transfer

abbrev empty_ring : Ring
empty_ring = record { mem = 0 ∷ 0 ∷ 0 ∷ 0 ∷ []; len = 0; capacity = 3 }

abbrev duplicates : CopyDeduplication
duplicates = record {
  main_map = default_map 2;
  favorites_map = default_map 1;
  database = record { main = empty_ring; favorites = empty_ring };
  reader = record { buckets = replicate 11 []; mapped = replicate 11 0; direct = λ _. none };
}

abbrev waiting : Copier
waiting = record {
  allocator = record {
    windows = 80 ∷ 81 ∷ 82 ∷ 83 ∷ [];
    states = free ∷ pending_incr 41 [] none 0 ∷ free ∷ free ∷ [];
    next = 2;
  };
  deduplicator = duplicates;
}

is_new : check 5 content duplicates ≡ (ok none, duplicates)
unfolding check check_ring Deduplication.get hash_to_index fold_hash
is_new = refl

-- The watcher behind the copy, which the server has as entry 7.
abbrev copied : Copier
copied = record {
  allocator = put_state 1 free waiting.allocator;
  deduplicator = remember_copy 5 7 duplicates;
}

incr_copy_keeps_all_example :
    receive answers atoms 81 10 (codes "he" ∷ codes "llo" ∷ [] ∷ []) waiting
    ≡ ok (replicate 3 (get_property 81 10) ++ (add_entry [] content ∷ []), copied)
unfolding get position hash_data
incr_copy_keeps_all_example =
    incr_copy_keeps_all answers atoms 81 10 1 41 [] (codes "he") (codes "llo" ∷ []) waiting none
      duplicates (omega arith) (omega arith, (omega arith, tt)) refl is_new

large_paste_is_kept_example :
    (n : ℕ) × (receive answers atoms 81 10
        (values
          (run_deletes (suc n) 90 10 (selection_requested atoms request paster).1.allocations).0)
        waiting
      ≡ ok (replicate (suc n) (get_property 81 10) ++ (add_entry [] content ∷ []), copied))
unfolding get position supported_atoms contains hash_data
large_paste_is_kept_example =
    large_paste_is_kept answers atoms 81 10 1 41 [] request content plain paster waiting none
      duplicates refl refl refl (omega arith) (omega arith) no_transfer (omega arith) (omega arith)
      refl is_new

abbrev listed : Property
listed = record { type_ = 4; value = []; value32 = some (0 ∷ 1 ∷ 2 ∷ []) }

targets_choose_best_example :
    targets_arrived answers atoms 81 10 42 true listed
    ≡ ask_for answers 81 10 42 (
        labelled answers.is_lowercase name false
          (choice answers.is_lowercase name false (fitting answers (0 ∷ 1 ∷ 2 ∷ []))))
targets_choose_best_example =
    targets_choose_best answers atoms 81 10 42 true listed (0 ∷ 1 ∷ 2 ∷ []) (omega arith) refl

abbrev inputs : List Input
inputs =
    paste (codes "text/plain") 47 (content ∷ [])
    ∷ x11 (selection_request request)
    ∷ x11 (xfixes_selection_notify 5 42)
    ∷ x11 (property_notify 80 9 false true listed)
    ∷ []

run_stays_in_bounds_example :
    Ensures
      (λ (r : List Effect × Watcher). IsBounded r.1)
      (run answers atoms 70 inputs (started (80 ∷ 81 ∷ 82 ∷ 83 ∷ []) duplicates))
run_stays_in_bounds_example =
    run_stays_in_bounds answers atoms 70 inputs (80 ∷ 81 ∷ 82 ∷ 83 ∷ []) duplicates refl
