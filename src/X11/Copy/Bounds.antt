-- ===== src/X11/Copy/Bounds.antt =====
-- x11/src/main.rs: the table of the copies.
use mathlib.Core.Path.{subst}
use clipboard_history.Prelude.{
  ℕ, ◌<◌, ◌≡◌, ◌∙◌, refl, Bool, not, ◌||◌, Option, none, some, List, [], ◌∷◌, Result, ok, err,
  length, length-set, All, All-set, All-get_elem?, get_elem?, arith, ◌==◌, Bool-cases, Option-cases,
  inl, inr, if◌then◌else◌,
}
use clipboard_history.Prelude.Files.{Bytes, length-write_at}
use clipboard_history.Prelude.Results.{Ensures, >>=-Ensures}
use clipboard_history.X11.Requests.{Atoms, Effect, none_id}
use clipboard_history.X11.Deduplication.{CopyDeduplication}
use clipboard_history.X11.BestTarget.{best, block_text, default_finder}
use clipboard_history.X11.Copy.Targets.{ask_for}
use clipboard_history.X11.Copy.{
  Answers, State, free, fast_path_pending_selection, targets_request, pending_selection,
  pending_incr, TransferAtomAllocator, Property, Copier, position, get, put_state,
  selection_changed, notify_state, selection_notified, targets_arrived, then_free, blank_arrived,
  is_blank, selection_arrived, file_or_new, piece_arrived, state_arrived, property_changed,
  offer_targets,
}
use clipboard_history.X11.Paste.Bounds.{bit_and-next}

-- The file of a copy in pieces has the bytes that are counted.
abbrev pub IsCounted : State → Type 0
IsCounted (pending_incr mime_atom mime_type file written) = length (file_or_new file) ≡ written
IsCounted free = Unit
IsCounted (fast_path_pending_selection selection) = Unit
IsCounted (targets_request selection allow) = Unit
IsCounted (pending_selection mime_atom mime_type) = Unit

abbrev pub IsAllocated : TransferAtomAllocator → Type 0
IsAllocated s =
    (length s.windows ≡ 4) × (length s.states ≡ 4) × (s.next < 4) × All IsCounted s.states

put_state-IsAllocated :
    (i : ℕ) (state : State) (s : TransferAtomAllocator)
    → IsAllocated s
    → IsCounted state
    → IsAllocated (put_state i state s)
put_state-IsAllocated i state s (windows, states, room, counted) h = (
  windows,
  length-set s.states i state ∙ states,
  room,
  All-set IsCounted s.states i state counted h,
)

get-IsCounted :
    (window i : ℕ) (state : State) (s : TransferAtomAllocator)
    → IsAllocated s
    → get window s ≡ some (i, state)
    → IsCounted state
unfolding get
get-IsCounted window i state s (windows, states, room, counted) h =
    elim (Option-cases (position window s.windows)) [
      | inl missing ↦ ground (arith, missing)
      | inr (j, at) ↦ elim (Option-cases (get_elem? s.states j)) [
        | inl missing ↦ ground (arith, at, missing)
        | inr (found, here) ↦
            let same : found ≡ state = ground (arith, at, here) in
            subst IsCounted same (All-get_elem? IsCounted s.states j found counted here)
      ]
    ]

pub selection_changed-IsAllocated :
    (atoms : Atoms) (paste_window owner selection : ℕ) (s : TransferAtomAllocator)
    → IsAllocated s
    → IsAllocated (selection_changed atoms paste_window owner selection s).1
unfolding selection_changed
selection_changed-IsAllocated atoms paste_window owner selection s h =
    elim (Bool-cases (owner == paste_window)) [
      | inl ours ↦ rw ours h
      | inr theirs ↦
          let (windows, states, room, counted) =
            put_state-IsAllocated s.next (fast_path_pending_selection selection) s h tt in
          rw theirs (windows, states, bit_and-next s.next, counted)
    ]

notify_state-IsCounted :
    (atoms : Atoms) (requestor atom property : ℕ) (state : State)
    → IsCounted state
    → IsCounted (notify_state atoms requestor atom property state).1
unfolding notify_state
notify_state-IsCounted atoms requestor atom property free h = tt
notify_state-IsCounted atoms requestor atom property (fast_path_pending_selection x) h =
    elim (Bool-cases (property == none_id)) [ inl e ↦ rw e tt | inr e ↦ rw e tt ]
notify_state-IsCounted atoms requestor atom property (targets_request x allow) h =
    elim (Bool-cases (property == none_id)) [ inl e ↦ rw e tt | inr e ↦ rw e tt ]
notify_state-IsCounted atoms requestor atom property (pending_selection x mime) h =
    elim (Bool-cases (property == none_id)) [ inl e ↦ rw e tt | inr e ↦ rw e tt ]
notify_state-IsCounted atoms requestor atom property (pending_incr x mime file written) h = h

pub selection_notified-IsAllocated :
    (atoms : Atoms) (paste_window requestor property : ℕ) (s : TransferAtomAllocator)
    → IsAllocated s
    → IsAllocated (selection_notified atoms paste_window requestor property s).1
unfolding selection_notified
selection_notified-IsAllocated atoms paste_window requestor property s h =
    elim (Bool-cases (requestor == paste_window)) [
      | inl ours ↦ rw ours h
      | inr theirs ↦ elim (Option-cases (get requestor s)) [
        | inl unknown ↦ rw (theirs, unknown) h
        | inr ((i, state), found) ↦
            rw (theirs, found)
              (put_state-IsAllocated i _ s h (
                notify_state-IsCounted atoms requestor _ property state
                  (get-IsCounted requestor i state s h found)))
      ]
    ]

abbrev Counts : List Effect × State × CopyDeduplication → Type 0
Counts (effects, state, s) = IsCounted state

targets_arrived-IsCounted :
    (answers : Answers) (atoms : Atoms) (window atom selection : ℕ) (allow : Bool) (p : Property)
    → IsCounted (targets_arrived answers atoms window atom selection allow p).1
unfolding targets_arrived
targets_arrived-IsCounted answers atoms window atom selection allow p =
    elim (Bool-cases (p.type_ == atoms.incr)) [
      | inl abusive ↦ rw abusive tt
      | inr whole ↦ elim (Option-cases p.value32) [
        | inl invalid ↦ rw (whole, invalid) tt
        | inr (value, listed) ↦
            rw (whole, listed)
              (counted (
                best (
                  offer_targets answers value []
                    (if allow then default_finder else block_text default_finder))))
      ]
    ]
  where
    counted :
        (chosen : Option (ℕ × Bytes)) → IsCounted (ask_for answers window atom selection chosen).1
    counted none = tt
    counted (some (target, mime)) = tt

then_free-Counts :
    (kept : Result (List Effect × CopyDeduplication) (Unit {0})) → Ensures Counts (then_free kept)
then_free-Counts (ok (effects, s)) = tt
then_free-Counts (err e) = tt

blank_arrived-Counts :
    (atoms : Atoms) (window atom : ℕ) (fast_path : Option ℕ) (s : CopyDeduplication)
    → Ensures Counts (blank_arrived atoms window atom fast_path s)
blank_arrived-Counts atoms window atom none s = tt
blank_arrived-Counts atoms window atom (some selection) s = tt

selection_arrived-Counts :
    (answers : Answers) (atoms : Atoms) (window atom mime_atom : ℕ) (mime : Bytes)
    (fast_path : Option ℕ) (p : Property) (s : CopyDeduplication)
    → Ensures Counts (selection_arrived answers atoms window atom mime_atom mime fast_path p s)
unfolding selection_arrived
selection_arrived-Counts answers atoms window atom mime_atom mime fast_path p s =
    elim (Bool-cases (p.type_ == atoms.incr)) [
      | inl pieces ↦ rw pieces refl
      | inr whole ↦ elim (Bool-cases (is_blank p.value)) [
        | inl blank ↦ rw (whole, blank) (blank_arrived-Counts atoms window atom fast_path s)
        | inr full ↦ rw (whole, full) (then_free-Counts _)
      ]
    ]

piece_arrived-Counts :
    (answers : Answers) (mime_atom : ℕ) (mime file : Bytes) (written : ℕ) (value : Bytes)
    (s : CopyDeduplication)
    → length file ≡ written
    → Ensures Counts (piece_arrived answers mime_atom mime file written value s)
unfolding piece_arrived
piece_arrived-Counts answers mime_atom mime file written [] s h = elim (Bool-cases (written == 0)) [
  | inl nothing ↦ rw nothing tt
  | inr something ↦ rw something (then_free-Counts _)
]
piece_arrived-Counts answers mime_atom mime file written (b ∷ bs) s h =
    omega (arith, length-write_at file written (b ∷ bs))

state_arrived-Counts :
    (answers : Answers) (atoms : Atoms) (window atom : ℕ) (state : State) (p : Property)
    (s : CopyDeduplication)
    → IsCounted state
    → Ensures Counts (state_arrived answers atoms window atom state p s)
unfolding state_arrived
state_arrived-Counts answers atoms window atom free p s h = tt
state_arrived-Counts answers atoms window atom (targets_request selection allow) p s h =
    targets_arrived-IsCounted answers atoms window atom selection allow p
state_arrived-Counts answers atoms window atom (fast_path_pending_selection selection) p s h =
    selection_arrived-Counts answers atoms window atom atoms.utf8_string [] (some selection) p s
state_arrived-Counts answers atoms window atom (pending_selection mime_atom mime) p s h =
    selection_arrived-Counts answers atoms window atom mime_atom mime none p s
state_arrived-Counts answers atoms window atom (pending_incr mime_atom mime file written) p s h =
    piece_arrived-Counts answers mime_atom mime (file_or_new file) written p.value s h

pub property_changed-IsAllocated :
    (answers : Answers) (atoms : Atoms) (window event_atom : ℕ) (new_value : Bool) (p : Property)
    (s : Copier)
    → IsAllocated s.allocator
    → Ensures
        (λ (r : List Effect × Copier). IsAllocated r.1.allocator)
        (property_changed answers atoms window event_atom new_value p s)
unfolding property_changed
property_changed-IsAllocated answers atoms window event_atom new_value p s h =
    elim (Bool-cases (event_atom == atoms.window_name || not new_value)) [
      | inl ignored ↦ rw ignored h
      | inr read ↦ elim (Option-cases (get window s.allocator)) [
        | inl unknown ↦ rw (read, unknown) h
        | inr ((i, state), found) ↦
            rw (read, found)
              (>>=-Ensures Counts (λ (r : List Effect × Copier). IsAllocated r.1.allocator) _ _
                (state_arrived-Counts answers atoms window _ state p s.deduplicator
                  (get-IsCounted window i state s.allocator h found))
                (λ (effects, state', d) counted.
                  put_state-IsAllocated i state' s.allocator h counted))
      ]
    ]
