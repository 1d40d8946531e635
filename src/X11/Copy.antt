-- ===== src/X11/Copy.antt =====
-- x11/src/main.rs: copying. A change of the selection starts a transfer, in one of four windows of the
-- watcher, which goes through the states of `State` as the owner of the selection answers.
pub mod Targets
pub mod Kept
pub mod Incr
pub mod Bounds
use clipboard_history.Prelude.{
  ℕ, zero, suc, ◌+◌, ◌-◌, bit_and, Bool, true, false, not, ◌&&◌, ◌||◌, Option, none, some, List, [],
  ◌∷◌, ◌++◌, Result, ok, err, length, set, take, get_elem?, leb, ◌==◌, if◌then◌else◌,
}
use clipboard_history.Prelude.Files.{Bytes, write_at}
use clipboard_history.Prelude.Results.{◌>>=◌}
use clipboard_history.X11.Requests.{
  Atoms, Effect, none_id, convert_selection, get_property, move_entry, add_entry,
}
use clipboard_history.X11.Paste.{max_concurrent_transfers}
use clipboard_history.X11.BestTarget
use clipboard_history.X11.BestTarget.{BestMimeTypeFinder, add_mime, default_finder, best}
use clipboard_history.X11.Deduplication.{CopyDeduplication, hash_data, check, remember_copy}

-- A file is its content.
pub data State : Type 0 where
  free : State
  fast_path_pending_selection : ℕ → State
  targets_request : ℕ → Bool → State
  pending_selection : ℕ → Bytes → State
  pending_incr : ℕ → Bytes → Option Bytes → ℕ → State

pub record TransferAtomAllocator : Type 0 where
  pub windows : List ℕ
  pub states : List State
  pub next : ℕ

-- `GetPropertyReply`; `value32` is there if the format is 32.
pub record Property : Type 0 where
  pub type_ : ℕ
  pub value : Bytes
  pub value32 : Option (List ℕ)

-- What other code answers: the names of atoms, the test for lowercase letters, the hashes of
-- `FxHasher`, and the Ringboard server, to a move of an entry and to a new one.
pub record Answers : Type 0 where
  pub atom_name : ℕ → Bytes
  pub is_lowercase : ℕ → Bool
  pub fx_bytes : Bytes → ℕ
  pub fx_len : ℕ → ℕ
  pub moved : ℕ → Option ℕ
  pub added : ℕ

-- `TransferAtomAllocator::transfer_atom`
abbrev pub transfer_atom : Atoms → ℕ → ℕ
transfer_atom atoms id = atoms.base_transfer_atom + id

-- `position`
unfoldable pub position : ℕ → List ℕ → Option ℕ
position window [] = none
position window (id ∷ ids) =
    let later = position window ids in
    if id == window then some 0 else elim later [ none ↦ none | some i ↦ some (suc i) ]

-- `TransferAtomAllocator::get`: the number of the transfer and its state.
unfoldable pub get : ℕ → TransferAtomAllocator → Option (ℕ × State)
get window s = elim (position window s.windows) [
  | none ↦ none
  | some i ↦ elim (get_elem? s.states i) [ none ↦ none | some state ↦ some (i, state) ]
]

abbrev pub put_state : ℕ → State → TransferAtomAllocator → TransferAtomAllocator
put_state i state s = record s { states = set s.states i state }

abbrev pub window_at : List ℕ → ℕ → ℕ
window_at [] i = none_id
window_at (w ∷ ws) zero = w
window_at (w ∷ ws) (suc i) = window_at ws i

-- `TransferAtomAllocator::alloc`: the number of the transfer.
abbrev pub alloc : TransferAtomAllocator → ℕ × TransferAtomAllocator
alloc s = (s.next, record s { next = bit_and (s.next + 1) (max_concurrent_transfers - 1) })

-- `Event::XfixesSelectionNotify`: an old transfer is dropped.
unfoldable pub selection_changed :
    Atoms → ℕ → ℕ → ℕ → TransferAtomAllocator → List Effect × TransferAtomAllocator
selection_changed atoms paste_window owner selection s =
    if owner == paste_window
    then ([], s)
    else (let (i, s') = alloc s in
        (
          convert_selection (window_at s'.windows i) selection atoms.utf8_string
                (transfer_atom atoms i)
              ∷ [],
          put_state i (fast_path_pending_selection selection) s',
        ))

-- The states in `Event::SelectionNotify`; `property` is `NONE` if the owner refuses.
unfoldable pub notify_state : Atoms → ℕ → ℕ → ℕ → State → List Effect × State
notify_state atoms requestor atom property (fast_path_pending_selection selection) =
    if property == none_id
    then (
      convert_selection requestor selection atoms.targets atom ∷ [],
      targets_request selection true,
    )
    else ([], fast_path_pending_selection selection)
notify_state atoms requestor atom property (targets_request selection allow_plain_text) =
    ([], if property == none_id then free else targets_request selection allow_plain_text)
notify_state atoms requestor atom property (pending_selection mime_atom mime_type) =
    ([], if property == none_id then free else pending_selection mime_atom mime_type)
notify_state atoms requestor atom property free = ([], free)
notify_state atoms requestor atom property (pending_incr mime_atom mime_type file written) =
    ([], pending_incr mime_atom mime_type file written)

-- `Event::SelectionNotify`
unfoldable pub selection_notified :
    Atoms → ℕ → ℕ → ℕ → TransferAtomAllocator → List Effect × TransferAtomAllocator
selection_notified atoms paste_window requestor property s =
    if requestor == paste_window then ([], s) else elim (get requestor s) [
      | none ↦ ([], s)
      | some (i, state) ↦
          let (effects, state') =
            notify_state atoms requestor (transfer_atom atoms i) property state in
          (effects, put_state i state' s)
    ]

-- The names of the pending atoms, of which those of more than 96 bytes are ignored.
unfoldable pub drain : Answers → List ℕ → BestMimeTypeFinder → BestMimeTypeFinder
drain answers [] finder = finder
drain answers (atom ∷ pending) finder =
    let name = answers.atom_name atom in
    drain answers pending
      (if leb (length name) 96 then add_mime answers.is_lowercase name atom finder else finder)

-- The loop over the targets, of which up to eight are pending.
unfoldable pub offer_targets : Answers → List ℕ → List ℕ → BestMimeTypeFinder → BestMimeTypeFinder
offer_targets answers [] pending finder = drain answers pending finder
offer_targets answers (atom ∷ value) pending finder =
    let is_full = leb 8 (length pending) in
    offer_targets answers value ((if is_full then [] else pending) ++ (atom ∷ []))
      (if is_full then drain answers pending finder else finder)

-- The arm of `TargetsRequest`
unfoldable pub targets_arrived : Answers → Atoms → ℕ → ℕ → ℕ → Bool → Property → List Effect × State
targets_arrived answers atoms window atom selection allow_plain_text property =
    let finder =
      if allow_plain_text then default_finder else BestTarget.block_text default_finder in
    if property.type_ == atoms.incr then ([], free) else elim property.value32 [
      | none ↦ ([], free)
      | some value ↦ elim (best (offer_targets answers value [] finder)) [
        | none ↦ ([], free)
        | some (target, target_mime) ↦ (
          convert_selection window selection target atom ∷ [],
          pending_selection target target_mime,
        )
      ]
    ]

-- `u8::is_ascii_whitespace`
abbrev pub is_ascii_whitespace : ℕ → Bool
is_ascii_whitespace c = c == 32 || (c == 9 || (c == 10 || (c == 12 || c == 13)))

-- `is_empty() || iter().all(u8::is_ascii_whitespace)`
unfoldable pub is_blank : Bytes → Bool
is_blank [] = true
is_blank (c ∷ cs) = is_ascii_whitespace c && is_blank cs

-- `CopyDeduplication::hash` of a file
unfoldable pub hash_file : Answers → ℕ → Bytes → ℕ
hash_file answers len file =
    if leb 4096 len then answers.fx_len len else answers.fx_bytes (take len file)

-- What is asked of the Ringboard server, and the duplicates that are known then; `err` is a panic of
-- `check`.
unfoldable pub keep_copy :
    Answers
    → Bytes
    → ℕ
    → Bytes
    → CopyDeduplication
    → Result (List Effect × CopyDeduplication) (Unit {0})
keep_copy answers mime_type data_hash content s =
    let (found, s') = check data_hash content s in
    let add = add_entry mime_type content ∷ [] in
    let added = remember_copy data_hash answers.added s' in
    elim found [
      | err e ↦ err e
      | ok none ↦ ok (add, added)
      | ok (some existing) ↦ elim (answers.moved existing) [
        | some id ↦ ok (move_entry existing ∷ [], remember_copy data_hash id s')
        | none ↦ ok (move_entry existing ∷ add, added)
      ]
    ]

-- The state and the duplicates after an event, with what was asked.
abbrev pub Step : Type 0
Step = Result (List Effect × State × CopyDeduplication) (Unit {0})

abbrev pub then_free : Result (List Effect × CopyDeduplication) (Unit {0}) → Step
then_free (ok (effects, s)) = ok (effects, free, s)
then_free (err e) = err e

-- A blank selection: on the fast path, the other targets are asked for.
abbrev pub blank_arrived : Atoms → ℕ → ℕ → Option ℕ → CopyDeduplication → Step
blank_arrived atoms window atom none s = ok ([], free, s)
blank_arrived atoms window atom (some selection) s =
    ok (
      convert_selection window selection atoms.targets atom ∷ [],
      targets_request selection false,
      s,
    )

-- The arm of `FastPathPendingSelection` and `PendingSelection`
unfoldable pub selection_arrived :
    Answers → Atoms → ℕ → ℕ → ℕ → Bytes → Option ℕ → Property → CopyDeduplication → Step
selection_arrived answers atoms window atom mime_atom mime_type fast_path property s =
    let value = property.value in
    if property.type_ == atoms.incr
    then ok ([], pending_incr mime_atom mime_type none 0, s)
    else if is_blank value
    then blank_arrived atoms window atom fast_path s
    else then_free
        (keep_copy answers mime_type (hash_data answers.fx_bytes answers.fx_len value) value s)

abbrev pub file_or_new : Option Bytes → Bytes
file_or_new none = []
file_or_new (some file) = file

-- The arm of `PendingIncr`
unfoldable pub piece_arrived : Answers → ℕ → Bytes → Bytes → ℕ → Bytes → CopyDeduplication → Step
piece_arrived answers mime_atom mime_type file written [] s =
    if written == 0
    then ok ([], free, s)
    else then_free (keep_copy answers mime_type (hash_file answers written file) file s)
piece_arrived answers mime_atom mime_type file written (b ∷ bs) s = ok (
  [],
  pending_incr mime_atom mime_type (some (write_at file written (b ∷ bs)))
      (written + length (b ∷ bs)),
  s,
)

unfoldable pub state_arrived : Answers → Atoms → ℕ → ℕ → State → Property → CopyDeduplication → Step
state_arrived answers atoms window atom (targets_request selection allow) property s =
    let (effects, state) = targets_arrived answers atoms window atom selection allow property in
    ok (effects, state, s)
state_arrived answers atoms window atom (fast_path_pending_selection selection) property s =
    selection_arrived answers atoms window atom atoms.utf8_string [] (some selection) property s
state_arrived answers atoms window atom (pending_selection mime_atom mime_type) property s =
    selection_arrived answers atoms window atom mime_atom mime_type none property s
state_arrived answers atoms window atom (pending_incr mime_atom mime_type file written) property s =
    piece_arrived answers mime_atom mime_type (file_or_new file) written property.value s
state_arrived answers atoms window atom free property s = ok ([], free, s)

-- The watcher's side of copying.
pub record Copier : Type 0 where
  pub allocator : TransferAtomAllocator
  pub deduplicator : CopyDeduplication

-- The arm of `Event::PropertyNotify` for a window that is not pasting; the property is the reply to the
-- request for it.
unfoldable pub property_changed :
    Answers → Atoms → ℕ → ℕ → Bool → Property → Copier → Result (List Effect × Copier) (Unit {0})
property_changed answers atoms window event_atom new_value property s =
    if event_atom == atoms.window_name || not new_value
    then ok ([], s)
    else elim (get window s.allocator) [
      | none ↦ ok (get_property window event_atom ∷ [], s)
      | some (i, state) ↦
          state_arrived answers atoms window (transfer_atom atoms i) state property s.deduplicator
          >>= λ (effects, state', deduplicator). ok (
            get_property window event_atom ∷ effects,
            record { allocator = put_state i state' s.allocator; deduplicator = deduplicator },
          )
    ]
