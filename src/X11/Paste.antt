-- ===== src/X11/Paste.antt =====
-- x11/src/main.rs: pasting. `SelectionRequest` is answered at once if the data is small, and else piece
-- by piece, one for each deletion of the property by the requestor.
pub mod Incr
pub mod Bounds
use clipboard_history.Prelude.{
  ℕ, ◌+◌, ◌-◌, ◌^◌, min, bit_and, Bool, true, false, not, ◌||◌, Option, none, some, List, [], ◌∷◌,
  ◌++◌, length, set, take, drop, ltb, ◌==◌, if◌then◌else◌,
}
use clipboard_history.Prelude.Files.{Bytes}
use clipboard_history.Core.Mimes.{codes}
use clipboard_history.X11.BestTarget.{starts_with}
use clipboard_history.X11.Requests.{
  Atoms, Effect, none_id, selection_notify, change_property8, change_property32, watch_properties,
}

abbrev pub max_transfer_size : ℕ
max_transfer_size = 2 ^ 20

abbrev pub max_concurrent_transfers : ℕ
max_concurrent_transfers = 4

pub record PasteAtom : Type 0 where
  pub atom : ℕ
  pub is_text : Bool

pub data PasteFile : Type 0 where
  small large : Bytes → PasteFile

-- `(Window, Option<(Atom, Rc<Mmap>, usize)>)`
pub record Transfer : Type 0 where
  pub requestor : ℕ
  pub rest : Option (ℕ × Bytes × ℕ)

-- `last_paste` and `paste_allocator`
pub record Paster : Type 0 where
  pub last_paste : Option (PasteFile × PasteAtom)
  pub next : ℕ
  pub allocations : List Transfer

-- `SelectionRequestEvent`
pub record SelectionRequest : Type 0 where
  pub requestor : ℕ
  pub selection : ℕ
  pub target : ℕ
  pub property : ℕ

-- The closure `reply`.
abbrev pub reply : SelectionRequest → ℕ → List Effect
reply r property = selection_notify r.requestor r.target property ∷ []

abbrev pub text_targets : Atoms → List ℕ
text_targets atoms =
    atoms.utf8_string ∷ atoms.text ∷ atoms.string ∷ atoms.text_plain ∷ atoms.text_plain_utf8
    ∷ atoms.text_plain_us_ascii ∷ atoms.text_plain_unicode ∷ []

-- `supported_atoms`
unfoldable pub supported_atoms : Atoms → PasteAtom → List ℕ
supported_atoms atoms a =
    atoms.targets
    ∷ ((if a.atom == none_id then [] else a.atom ∷ [])
        ++ (if a.is_text then text_targets atoms else []))

unfoldable pub contains : ℕ → List ℕ → Bool
contains x [] = false
contains x (y ∷ ys) = x == y || contains x ys

-- An obsolete client names no property.
abbrev pub property_of : SelectionRequest → ℕ
property_of r = if r.property == none_id then r.target else r.property

-- A large paste is announced by its length, and takes the next of the transfers.
unfoldable pub start_transfer : Atoms → SelectionRequest → Bytes → Paster → List Effect × Paster
start_transfer atoms r content s = (
  watch_properties r.requestor true
      ∷ change_property32 r.requestor (property_of r) atoms.incr
          (min (length content) (2 ^ 32 - 1) ∷ [])
      ∷ reply r (property_of r),
  record s {
    allocations =
        set s.allocations s.next
          (record { requestor = r.requestor; rest = some (r.target, content, 0) });
    next = bit_and (s.next + 1) (max_concurrent_transfers - 1);
  },
)

unfoldable pub answer_paste :
    Atoms → SelectionRequest → PasteFile → PasteAtom → Paster → List Effect × Paster
answer_paste atoms r paste_file a s =
    let supported = supported_atoms atoms a in
    if not (contains r.target supported)
    then (reply r none_id, s)
    else if r.target == atoms.targets
    then (
      change_property32 r.requestor (property_of r) atoms.atom_type supported
          ∷ reply r (property_of r),
      s,
    )
    else elim paste_file [
      | small content ↦ (
        change_property8 r.requestor (property_of r) r.target content ∷ reply r (property_of r),
        s,
      )
      | large content ↦ start_transfer atoms r content s
    ]

-- `Event::SelectionRequest`
unfoldable pub selection_requested : Atoms → SelectionRequest → Paster → List Effect × Paster
selection_requested atoms r s =
    if r.selection == atoms.clipboard
    then elim s.last_paste [
      | none ↦ (reply r none_id, s)
      | some (paste_file, a) ↦ answer_paste atoms r paste_file a s
    ]
    else (reply r none_id, s)

-- `Event::SelectionClear`
unfoldable pub selection_cleared : ℕ → ℕ → Paster → Paster
selection_cleared paste_window owner s =
    if owner == paste_window then record s { last_paste = none } else s

-- The next piece of a transfer, and an empty one at the end.
unfoldable pub next_piece : ℕ → ℕ → Transfer → List Effect × Transfer
next_piece window atom t = elim t.rest [
  | none ↦ ([], t)
  | some (target, content, start) ↦
      let end_of = min (start + max_transfer_size) (length content) in
      let piece = take (end_of - start) (drop start content) in
      if start == end_of
      then (
        watch_properties window false ∷ change_property8 window atom target piece ∷ [],
        record { requestor = none_id; rest = none },
      )
      else (
        change_property8 window atom target piece ∷ [],
        record t { rest = some (target, content, end_of) },
      )
]

-- The arm of `Event::PropertyNotify` for a window that is pasting; `none` where there is no such window.
unfoldable pub property_deleted :
    ℕ → ℕ → Bool → List Transfer → Option (List Effect × List Transfer)
property_deleted window atom deleted [] = none
property_deleted window atom deleted (t ∷ ts) =
    let later = property_deleted window atom deleted ts in
    if t.requestor == window
    then (if deleted
        then (let (effects, t') = next_piece window atom t in some (effects, t' ∷ ts))
        else some ([], t ∷ ts))
    else elim later [ none ↦ none | some (effects, ts') ↦ some (effects, t ∷ ts') ]

-- The reply to the request for the atom of the type; a message without a type is text.
abbrev pub paste_atom : Bytes → ℕ → PasteAtom
paste_atom [] atom = record { atom = none_id; is_text = true }
paste_atom (c ∷ mime) atom = record {
  atom = atom;
  is_text = starts_with (c ∷ mime) (codes "text/");
}

abbrev pub paste_file_of : Bytes → PasteFile
paste_file_of content =
    if ltb max_transfer_size (length content) then large content else small content

-- `handle_paste_event`: the last of the files that come with the message is pasted from now on. The
-- server has `atom` for the type.
unfoldable pub handle_paste : Bytes → ℕ → List Bytes → Paster → Paster
handle_paste mime atom [] s = s
handle_paste mime atom (content ∷ fds) s =
    handle_paste mime atom fds
      (record s { last_paste = some (paste_file_of content, paste_atom mime atom) })
