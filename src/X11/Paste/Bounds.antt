-- ===== src/X11/Paste/Bounds.antt =====
-- x11/src/main.rs: the table of the pastes.
use mathlib.Core.Path.{subst}
use clipboard_history.Prelude.{
  ℕ, suc, ◌+◌, ◌<◌, ◌%◌, ◌≡◌, ◌∙◌, refl, ap, Bool, true, false, Option, none, some, List, [], ◌∷◌,
  length, length-set, All, All-set, bit_and, arith, ◌==◌, Bool-cases, Option-cases, inl, inr, min,
}
use clipboard_history.Prelude.Bits.{bit_and-mask}
use clipboard_history.Prelude.Files.{Bytes}
use clipboard_history.X11.Requests.{Atoms, Effect, none_id}
use clipboard_history.X11.Paste.{
  Transfer, Paster, PasteFile, PasteAtom, small, large, SelectionRequest, contains, supported_atoms,
  start_transfer, answer_paste, selection_requested, selection_cleared, next_piece,
  property_deleted, handle_paste, max_transfer_size,
}

pub bit_and-next : (n : ℕ) → bit_and (n + 1) 3 < 4
bit_and-next n =
    let e : bit_and (n + 1) 3 ≡ (n + 1) % 4 = bit_and-mask 2 (n + 1) in omega (arith, e)

-- A transfer without data has no requestor.
abbrev IsFreed : ℕ → Option (ℕ × Bytes × ℕ) → Type 0
IsFreed requestor none = requestor ≡ none_id
IsFreed requestor (some rest) = Unit

abbrev pub IsDone : Transfer → Type 0
IsDone t = IsFreed t.requestor t.rest

abbrev pub IsPasting : Paster → Type 0
IsPasting s = (length s.allocations ≡ 4) × (s.next < 4) × All IsDone s.allocations

start_transfer-IsPasting :
    (atoms : Atoms) (r : SelectionRequest) (content : Bytes) (s : Paster)
    → IsPasting s
    → IsPasting (start_transfer atoms r content s).1
unfolding start_transfer
start_transfer-IsPasting atoms r content s (size, room, done) =
    let fresh : Transfer = record { requestor = r.requestor; rest = some (r.target, content, 0) } in
    (
      length-set s.allocations s.next fresh ∙ size,
      bit_and-next s.next,
      All-set IsDone s.allocations s.next fresh done tt,
    )

answer_paste-IsPasting :
    (atoms : Atoms) (r : SelectionRequest) (file : PasteFile) (a : PasteAtom) (s : Paster)
    → IsPasting s
    → IsPasting (answer_paste atoms r file a s).1
unfolding answer_paste
answer_paste-IsPasting atoms r file a s h =
    elim (Bool-cases (contains r.target (supported_atoms atoms a))) [
      | inr unknown ↦ rw unknown h
      | inl known ↦ elim (Bool-cases (r.target == atoms.targets)) [
        | inl listing ↦ rw (known, answer_paste, listing) h
        | inr other_target ↦ answered file known other_target
      ]
    ]
  where
    answered :
        (file : PasteFile)
        → contains r.target (supported_atoms atoms a) ≡ true
        → (r.target == atoms.targets) ≡ false
        → IsPasting (answer_paste atoms r file a s).1
    answered (small content) known other_target = rw (known, answer_paste, other_target) h
    answered (large content) known other_target =
        rw (known, answer_paste, other_target) (start_transfer-IsPasting atoms r content s h)

pub selection_requested-IsPasting :
    (atoms : Atoms) (r : SelectionRequest) (s : Paster)
    → IsPasting s
    → IsPasting (selection_requested atoms r s).1
unfolding selection_requested
selection_requested-IsPasting atoms r s h = elim (Bool-cases (r.selection == atoms.clipboard)) [
  | inr elsewhere ↦ rw elsewhere h
  | inl here ↦ elim (Option-cases s.last_paste) [
    | inl nothing ↦ rw (here, nothing) h
    | inr ((file, a), pasted) ↦ rw (here, pasted) (answer_paste-IsPasting atoms r file a s h)
  ]
]

pub selection_cleared-IsPasting :
    (paste_window owner : ℕ) (s : Paster)
    → IsPasting s
    → IsPasting (selection_cleared paste_window owner s)
unfolding selection_cleared
selection_cleared-IsPasting paste_window owner s h = elim (Bool-cases (owner == paste_window)) [
  | inl ours ↦ rw ours h
  | inr theirs ↦ rw theirs h
]

pub handle_paste-IsPasting :
    (mime : Bytes) (atom : ℕ) (fds : List Bytes) (s : Paster)
    → IsPasting s
    → IsPasting (handle_paste mime atom fds s)
unfolding handle_paste
handle_paste-IsPasting mime atom [] s h = h
handle_paste-IsPasting mime atom (content ∷ fds) s h = handle_paste-IsPasting mime atom fds _ h

next_piece-IsDone :
    (window atom : ℕ) (t : Transfer) → IsDone t → IsDone (next_piece window atom t).1
unfolding next_piece
next_piece-IsDone window atom t done = elim (Option-cases t.rest) [
  | inl nothing ↦ rw nothing (subst (λ rest. IsFreed t.requestor rest) nothing done)
  | inr ((target, content, at), more) ↦
      elim (Bool-cases (at == min (at + max_transfer_size) (length content))) [
        | inl ended ↦ rw (more, ended) refl
        | inr going ↦ rw (more, going) tt
      ]
]

abbrev pub Keeps : List Transfer → Option (List Effect × List Transfer) → Type 0
Keeps ts none = Unit
Keeps ts (some (effects, ts')) = (length ts' ≡ length ts) × All IsDone ts'

Keeps-later :
    (t : Transfer) (ts : List Transfer) (later : Option (List Effect × List Transfer))
    → IsDone t
    → Keeps ts later
    → Keeps (t ∷ ts) (elim later [ none ↦ none | some (effects, ts') ↦ some (effects, t ∷ ts') ])
Keeps-later t ts none done h = tt
Keeps-later t ts (some (effects, ts')) done (size, all) = (ap suc size, (done, all))

pub property_deleted-Keeps :
    (window atom : ℕ) (deleted : Bool) (ts : List Transfer)
    → All IsDone ts
    → Keeps ts (property_deleted window atom deleted ts)
unfolding property_deleted
property_deleted-Keeps window atom deleted [] all = tt
property_deleted-Keeps window atom deleted (t ∷ ts) (done, all) =
    elim (Bool-cases (t.requestor == window)) [
      | inr elsewhere ↦
          rw elsewhere (Keeps-later t ts _ done (property_deleted-Keeps window atom deleted ts all))
      | inl here ↦ elim (Bool-cases deleted) [
        | inl gone ↦ rw (here, gone) (refl, (next_piece-IsDone window atom t done, all))
        | inr kept ↦ rw (here, kept) (refl, (done, all))
      ]
    ]
