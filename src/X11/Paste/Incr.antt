-- ===== src/X11/Paste/Incr.antt =====
-- x11/src/main.rs: the pieces of a large paste.
use clipboard_history.Prelude.Lists.{drop-drop}
use clipboard_history.Prelude.{
  ℕ, zero, suc, ◌+◌, ◌-◌, ◌^◌, min, ◌≤◌, ◌<◌, ◌≡◌, ◌≢◌, refl, sym, ap, ◌∙◌, true, false, Option,
  none, some, List, [], ◌∷◌, ◌++◌, length, length-take, length-drop, take, drop, take-append-drop,
  set, arith, ◌==◌, Bool-cases, inl, inr,
}
use clipboard_history.Prelude.Files.{Bytes}
use clipboard_history.X11.Requests.{
  Atoms, Effect, none_id, selection_notify, change_property8, change_property32, watch_properties,
  convert_selection, get_property, set_selection_owner, move_entry, add_entry,
}
use clipboard_history.X11.Paste.{
  Transfer, max_transfer_size, next_piece, property_deleted, Paster, PasteAtom, large,
  SelectionRequest, contains, supported_atoms, selection_requested, answer_paste, start_transfer,
  property_of,
}

-- The values that are put into a property.
abbrev pub values : List Effect → List Bytes
values [] = []
values (change_property8 window property type_ value ∷ es) = value ∷ values es
values (selection_notify r t p ∷ es) = values es
values (change_property32 window property type_ value ∷ es) = values es
values (watch_properties window on ∷ es) = values es
values (convert_selection window selection target property ∷ es) = values es
values (get_property window property ∷ es) = values es
values (set_selection_owner window selection ∷ es) = values es
values (move_entry id ∷ es) = values es
values (add_entry mime content ∷ es) = values es

abbrev pub join : List Bytes → Bytes
join [] = []
join (p ∷ ps) = p ++ join ps

-- Each piece has a byte, and no more than a transfer may have.
abbrev pub IsPieces : List Bytes → Type 0
IsPieces [] = Unit
IsPieces (p ∷ ps) = (0 < length p) × (length p ≤ max_transfer_size) × IsPieces ps

abbrev continue_with :
    (List Transfer → List Effect × List Transfer)
    → List Transfer
    → Option (List Effect × List Transfer)
    → List Effect × List Transfer
continue_with more ts none = ([], ts)
continue_with more ts (some (es, ts')) = let (later, last) = more ts' in (es ++ later, last)

-- So many deletions of the property, one after the other: what is asked of the X server then.
pub run_deletes : ℕ → ℕ → ℕ → List Transfer → List Effect × List Transfer
run_deletes zero window atom ts = ([], ts)
run_deletes (suc n) window atom ts =
    continue_with (run_deletes n window atom) ts (property_deleted window atom true ts)

-- The pieces for a window, in a property and with a type, and the empty piece behind them, before which
-- changes of the window's properties are no longer watched.
abbrev pub sends : ℕ → ℕ → ℕ → List Bytes → List Effect
sends window property type_ [] =
    watch_properties window false ∷ change_property8 window property type_ [] ∷ []
sends window property type_ (p ∷ ps) =
    change_property8 window property type_ p ∷ sends window property type_ ps

pub values-sends :
    (window property type_ : ℕ) (ps : List Bytes)
    → values (sends window property type_ ps) ≡ ps ++ ([] ∷ [])
values-sends window property type_ [] = refl
values-sends window property type_ (p ∷ ps) = rw (values-sends window property type_ ps)

abbrev pub AllOthers : ℕ → List Transfer → Type 0
AllOthers window [] = Unit
AllOthers window (t ∷ ts) = (t.requestor ≢ window) × AllOthers window ts

property_deleted-found :
    (window atom : ℕ) (before after : List Transfer) (t : Transfer)
    → AllOthers window before
    → t.requestor ≡ window
    → property_deleted window atom true (before ++ (t ∷ after))
      ≡ some ((next_piece window atom t).0, before ++ ((next_piece window atom t).1 ∷ after))
unfolding property_deleted
property_deleted-found window atom [] after t others here =
    let same : (t.requestor == window) ≡ true = ground arith in rw same
property_deleted-found window atom (u ∷ before) after t (ne, others) here =
    let other : (u.requestor == window) ≡ false = ground arith in
    rw (other, property_deleted, property_deleted-found window atom before after t others here)

drop_all : (n : ℕ) (xs : Bytes) → length xs ≤ n → drop n xs ≡ []
drop_all zero [] h = refl
drop_all zero (x ∷ xs) h = absurd (omega arith)
drop_all (suc n) [] h = refl
drop_all (suc n) (x ∷ xs) h = drop_all n xs (omega arith)

module _ (window atom target : ℕ) (content : Bytes) where
  abbrev at : ℕ → Transfer
  at start = record { requestor = window; rest = some (target, content, start) }

  abbrev freed : Transfer
  freed = record { requestor = none_id; rest = none }

  next_piece-end :
      (start : ℕ)
      → start ≡ length content
      → next_piece window atom (at start)
        ≡ (watch_properties window false ∷ change_property8 window atom target [] ∷ [], freed)
  unfolding next_piece
  next_piece-end start h =
      let stop : min (start + max_transfer_size) (length content) ≡ start = omega arith in
      let done : (start == start) ≡ true = ground arith in
      let none_left : start - start ≡ 0 = omega arith in rw (stop, done, none_left)

  abbrev stop : ℕ → ℕ
  stop start = min (start + max_transfer_size) (length content)

  next_piece-more :
      (start : ℕ)
      → start < length content
      → next_piece window atom (at start) ≡ (
        change_property8 window atom target (take (stop start - start) (drop start content)) ∷ [],
        at (stop start),
      )
  unfolding next_piece
  next_piece-more start h = let more : (start == stop start) ≡ false = ground arith in rw more

  module _ (before after : List Transfer) (others : AllOthers window before) where
    run_deletes_end :
        (start : ℕ)
        → start ≡ length content
        → (ps : List Bytes) × (run_deletes
              (suc (length ps))
              window
              atom
              (before ++ (at start ∷ after))
            ≡ (sends window atom target ps, before ++ (freed ∷ after)))
          × (join ps ≡ drop start content)
          × IsPieces ps
    unfolding run_deletes
    run_deletes_end start h = (
      [],
      rw (
        property_deleted-found window atom before after (at start) others refl,
        next_piece-end start h,
      ),
      sym (drop_all start content (omega arith)),
      tt,
    )

    run_deletes_from :
        (fuel start : ℕ)
        → start ≤ length content
        → length content - start ≤ fuel
        → (ps : List Bytes) × (run_deletes
              (suc (length ps))
              window
              atom
              (before ++ (at start ∷ after))
            ≡ (sends window atom target ps, before ++ (freed ∷ after)))
          × (join ps ≡ drop start content)
          × IsPieces ps
    unfolding run_deletes
    run_deletes_from zero start le enough = run_deletes_end start (omega arith)
    run_deletes_from (suc fuel) start le enough = elim (Bool-cases (start == length content)) [
      | inl done ↦ run_deletes_end start (ground (arith, done))
      | inr more ↦
          let lt : start < length content = ground (arith, more) in
          let (ps, run, joined, pieces) =
            run_deletes_from fuel (stop start) (omega arith) (omega arith) in
          let p = take (stop start - start) (drop start content) in
          let size : length p ≡ stop start - start = omega (
            arith,
            length-take (stop start - start) (drop start content),
            length-drop start content,
          ) in
          let whole : p ++ drop (stop start) content ≡ drop start content =
            ap (λ (n : ℕ). p ++ drop n content) (omega arith)
            ∙ ap (λ (xs : Bytes). p ++ xs) (sym (drop-drop (stop start - start) start content))
            ∙ take-append-drop (stop start - start) (drop start content) in
          (
            p ∷ ps,
            rw (
              property_deleted-found window atom before after (at start) others refl,
              next_piece-more start lt,
              run,
            ),
            rw joined whole,
            (omega (arith, size), omega (arith, size), pieces),
          )
    ]

set-split :
    (xs : List Transfer) (i : ℕ) (v : Transfer)
    → i < length xs
    → set xs i v ≡ take i xs ++ (v ∷ drop (suc i) xs)
set-split [] i v h = absurd (omega arith)
set-split (x ∷ xs) zero v h = refl
set-split (x ∷ xs) (suc i) v h = ap (λ ys. x ∷ ys) (set-split xs i v (omega arith))

AllOthers-take :
    (window n : ℕ) (ts : List Transfer) → AllOthers window ts → AllOthers window (take n ts)
AllOthers-take window zero ts others = tt
AllOthers-take window (suc n) [] others = tt
AllOthers-take window (suc n) (t ∷ ts) (ne, others) = (ne, AllOthers-take window n ts others)

-- A request to paste data of more than a transfer, for a target that is supported and not the list of
-- targets, by a window that has no transfer yet, is answered by watching the window's properties, by the
-- length of the data, of at most 32 bits, in the property that the request names, with the type `INCR`,
-- and by a notification; with so many deletions of a property as there are pieces and one more, the
-- window is sent the data into that property, with the target as the type, in pieces of 1 to 2^20 bytes
-- and then an empty piece, its properties are no longer watched, and the transfer is free again.
pub large_paste_sends_all :
    (atoms : Atoms) (r : SelectionRequest) (content : Bytes) (a : PasteAtom) (atom : ℕ) (s : Paster)
    → s.last_paste ≡ some (large content, a)
    → r.selection ≡ atoms.clipboard
    → contains r.target (supported_atoms atoms a) ≡ true
    → r.target ≢ atoms.targets
    → s.next < length s.allocations
    → AllOthers r.requestor s.allocations
    → (ps : List Bytes) × (run_deletes
          (suc (length ps))
          r.requestor
          atom
          (selection_requested atoms r s).1.allocations
        ≡ (
          sends r.requestor atom r.target ps,
          set s.allocations s.next (record { requestor = none_id; rest = none }),
        ))
      × (join ps ≡ content)
      × IsPieces ps
      × ((selection_requested atoms r s).0
          ≡ watch_properties r.requestor true
            ∷ change_property32 r.requestor
                (property_of r)
                atoms.incr
                (min (length content) (2 ^ 32 - 1) ∷ [])
            ∷ selection_notify r.requestor r.target (property_of r)
            ∷ [])
unfolding selection_requested answer_paste start_transfer
large_paste_sends_all atoms r content a atom s pasted clip supported other room others =
    let here : (r.selection == atoms.clipboard) ≡ true = ground arith in
    let not_list : (r.target == atoms.targets) ≡ false = ground arith in
    let split = set-split s.allocations s.next in
    let (ps, run, joined, pieces) =
      run_deletes_from r.requestor atom r.target content (take s.next s.allocations)
        (drop (suc s.next) s.allocations) (AllOthers-take r.requestor s.next s.allocations others)
        (length content) 0 (omega arith) (omega arith) in
    (
      ps,
      rw (here, pasted, selection_requested, supported, not_list, answer_paste)
          (ap (run_deletes (suc (length ps)) r.requestor atom)
              (split (at r.requestor atom r.target content 0) room)
            ∙ run
            ∙ ap (λ ts. (sends r.requestor atom r.target ps, ts))
                (sym (split (freed r.requestor atom r.target content) room))),
      joined,
      pieces,
      rw (here, pasted, selection_requested, supported, not_list, answer_paste),
    )
