-- ===== src/X11/Copy/Incr.antt =====
-- x11/src/main.rs: a copy that comes in pieces.
use mathlib.Core.List.{append_assoc, append-nil}
use clipboard_history.Prelude.{
  ℕ, zero, suc, ◌+◌, ◌<◌, ◌≡◌, ◌≢◌, ◌∙◌, refl, sym, ap, true, false, Option, none, some, List, [],
  ◌∷◌, ◌++◌, Result, ok, err, length, replicate, set, get_elem?, take, ◌==◌, arith, Option-cases,
  Result-cases, inl, inr, get_elem?-set_self, length-append,
}
use clipboard_history.Prelude.Files.{Bytes, write_at, write_at-append}
use clipboard_history.Prelude.Results.{◌>>=◌}
use clipboard_history.X11.Requests.{Atoms, Effect, get_property}
use clipboard_history.X11.Paste.Incr.{join}
use clipboard_history.X11.Deduplication.{CopyDeduplication, hash_data, check, remember_copy}
use clipboard_history.X11.Copy.Kept.{asked_to_keep, kept_id, keep_copy-check}
use clipboard_history.X11.Copy
use clipboard_history.X11.Copy.{
  Answers, State, free, pending_incr, TransferAtomAllocator, Property, Copier, position, get,
  put_state, hash_file, keep_copy, piece_arrived, state_arrived, property_changed,
}

get_elem?-lt : (xs : List State) (i : ℕ) (st : State) → get_elem? xs i ≡ some st → i < length xs
get_elem?-lt [] i st h = ground arith
get_elem?-lt (x ∷ xs) zero st h = omega arith
get_elem?-lt (x ∷ xs) (suc i) st h = omega (arith, get_elem?-lt xs i st h)

set-set : (xs : List State) (i : ℕ) (a b : State) → set (set xs i a) i b ≡ set xs i b
set-set [] i a b = refl
set-set (x ∷ xs) zero a b = refl
set-set (x ∷ xs) (suc i) a b = rw (set-set xs i a b)

get-put_state :
    (window i : ℕ) (st new : State) (s : TransferAtomAllocator)
    → get window s ≡ some (i, st)
    → get window (put_state i new s) ≡ some (i, new)
unfolding get
get-put_state window i st new s h = elim (Option-cases (position window s.windows)) [
  | inl missing ↦ ground (arith, missing)
  | inr (j, at) ↦ elim (Option-cases (get_elem? s.states j)) [
    | inl missing ↦ ground (arith, at, missing)
    | inr (old, here) ↦
        let same : j ≡ i = ground (arith, at, here) in
        rw (
          get,
          at,
          same,
          get_elem?-set_self s.states i new (get_elem?-lt s.states i old (rw (sym same) here)),
          same,
        )
  ]
]

-- So many bytes as there are, of a file.
take-all : (xs : Bytes) → take (length xs) xs ≡ xs
take-all [] = refl
take-all (x ∷ xs) = rw (take-all xs)

hash_file-whole :
    (answers : Answers) (file : Bytes)
    → hash_file answers (length file) file ≡ hash_data answers.fx_bytes answers.fx_len file
unfolding hash_file hash_data
hash_file-whole answers file = rw (take-all file)

abbrev pub NoneEmpty : List Bytes → Type 0
NoneEmpty [] = Unit
NoneEmpty (p ∷ ps) = (0 < length p) × NoneEmpty ps

module _ (answers : Answers) (atoms : Atoms) (window event_atom : ℕ) where
  -- The property as it is when a piece has come.
  abbrev pub piece : Bytes → Property
  piece value = record { type_ = atoms.utf8_string; value = value; value32 = none }

  -- The events that report one value after the other.
  abbrev pub receive : List Bytes → Copier → Result (List Effect × Copier) (Unit {0})
  receive [] s = ok ([], s)
  receive (v ∷ vs) s =
      property_changed answers atoms window event_atom true (piece v) s >>= λ (asked, s').
      receive vs s' >>= λ (more, s''). ok (asked ++ more, s'')

  -- A transfer that ends with a copy that is kept.
  abbrev pub finish :
      List Effect
      → ℕ
      → Copier
      → Result (List Effect × CopyDeduplication) (Unit {0})
      → Result (List Effect × Copier) (Unit {0})
  finish asked i s (ok (more, d)) =
      ok (asked ++ more, record { allocator = put_state i free s.allocator; deduplicator = d })
  finish asked i s (err e) = err e

  finish-nil :
      (asked : List Effect) (i : ℕ) (s : Copier)
      (kept : Result (List Effect × CopyDeduplication) (Unit {0}))
      → (finish asked i s kept >>= λ (asked', s'). ok (asked' ++ [], s')) ≡ finish asked i s kept
  finish-nil asked i s (ok (more, d)) = rw (append-nil (asked ++ more))
  finish-nil asked i s (err e) = refl

  module _ (i mime_atom : ℕ) (mime_type : Bytes) (named : event_atom ≢ atoms.window_name) where
    abbrev incr : Option Bytes → ℕ → Copier → Copier
    incr file written s = record s {
      allocator = put_state i (pending_incr mime_atom mime_type file written) s.allocator;
    }

    abbrev with_request : List Effect × Copier → Result (List Effect × Copier) (Unit {0})
    with_request (more, s) = ok (get_property window event_atom ∷ more, s)

    finish-incr :
        (asked : List Effect) (file : Option Bytes) (written : ℕ) (s : Copier)
        (kept : Result (List Effect × CopyDeduplication) (Unit {0}))
        → (finish asked i (incr file written s) kept >>= with_request)
          ≡ finish (get_property window event_atom ∷ asked) i s kept
    finish-incr asked file written s (ok (more, d)) =
        rw (set-set s.allocator.states i (pending_incr mime_atom mime_type file written) free)
    finish-incr asked file written s (err e) = refl

    property_changed-piece :
        (file : Option Bytes) (written b : ℕ) (bs : Bytes) (s : Copier)
        → get window s.allocator ≡ some (i, pending_incr mime_atom mime_type file written)
        → property_changed answers atoms window event_atom true (piece (b ∷ bs)) s
          ≡ ok (
            get_property window event_atom ∷ [],
            incr
                (some (write_at (Copy.file_or_new file) written (b ∷ bs)))
                (written + length (b ∷ bs))
                s,
          )
    unfolding property_changed state_arrived piece_arrived
    property_changed-piece file written b bs s h =
        let other : (event_atom == atoms.window_name) ≡ false = ground arith in rw (other, h)

    property_changed_end :
        (file : Bytes) (s : Copier)
        → 0 < length file
        → get window s.allocator
          ≡ some (i, pending_incr mime_atom mime_type (some file) (length file))
        → property_changed answers atoms window event_atom true (piece []) s
          ≡ finish (get_property window event_atom ∷ []) i s (
              keep_copy answers mime_type
                (hash_data answers.fx_bytes answers.fx_len file)
                file
                s.deduplicator)
    unfolding property_changed state_arrived piece_arrived
    property_changed_end file s some_bytes h =
        let other : (event_atom == atoms.window_name) ≡ false = ground arith in
        let more : (length file == 0) ≡ false = ground arith in
        let whole = hash_file-whole answers file in
        elim (Result-cases (
          keep_copy answers mime_type (hash_data answers.fx_bytes answers.fx_len file) file
            s.deduplicator)) [
              | inl (kept, k) ↦ rw (other, h, state_arrived, piece_arrived, more, whole, k)
              | inr (e, k) ↦ rw (other, h, state_arrived, piece_arrived, more, whole, k)
            ]

    receive_more :
        (file : Option Bytes) (written b : ℕ) (bs : Bytes) (vs : List Bytes) (s : Copier)
        → get window s.allocator ≡ some (i, pending_incr mime_atom mime_type file written)
        → receive ((b ∷ bs) ∷ vs) s ≡ (
            receive vs (
              incr
                (some (write_at (Copy.file_or_new file) written (b ∷ bs)))
                (written + length (b ∷ bs))
                s)
            >>= with_request)
    receive_more file written b bs vs s h = rw (property_changed-piece file written b bs s h)

    incr_append :
        (file bs : Bytes) (s : Copier)
        → incr (some (write_at file (length file) bs)) (length file + length bs) s
          ≡ incr (some (file ++ bs)) (length (file ++ bs)) s
    incr_append file bs s = rw (write_at-append file bs, length-append file bs)

    receive_pieces :
        (ps : List Bytes) (file : Bytes) (s : Copier)
        → NoneEmpty ps
        → 0 < length file
        → get window s.allocator
          ≡ some (i, pending_incr mime_atom mime_type (some file) (length file))
        → receive (ps ++ ([] ∷ [])) s
          ≡ finish (replicate (suc (length ps)) (get_property window event_atom)) i s (
              keep_copy answers mime_type
                (hash_data answers.fx_bytes answers.fx_len (file ++ join ps))
                (file ++ join ps)
                s.deduplicator)
    receive_pieces [] file s nonempty some_bytes h =
        rw (append-nil file, property_changed_end file s some_bytes h)
          (finish-nil (get_property window event_atom ∷ []) i s _)
    receive_pieces ([] ∷ ps) file s (nonempty, later) some_bytes h = absurd (omega arith)
    receive_pieces ((b ∷ bs) ∷ ps) file s (nonempty, later) some_bytes h =
        let file' = file ++ (b ∷ bs) in
        let more : 0 < length file' = omega (arith, length-append file (b ∷ bs)) in
        let asked = replicate (suc (length ps)) (get_property window event_atom) in
        receive_more (some file) (length file) b bs (ps ++ ([] ∷ [])) s h
        ∙ ap (λ s'. receive (ps ++ ([] ∷ [])) s' >>= with_request) (incr_append file (b ∷ bs) s)
        ∙ ap (λ r. r >>= with_request)
            (receive_pieces ps file' (incr (some file') (length file') s) later more
              (get-put_state window i _ _ s.allocator h))
        ∙ finish-incr asked (some file') (length file') s (
            keep_copy answers mime_type
              (hash_data answers.fx_bytes answers.fx_len (file' ++ join ps)) (file' ++ join ps)
              s.deduplicator)
        ∙ ap
            (λ c. finish (get_property window event_atom ∷ asked) i s (
              keep_copy answers mime_type (hash_data answers.fx_bytes answers.fx_len c) c
                s.deduplicator))
            (append_assoc file (b ∷ bs) (join ps))

  -- The pieces, joined, are treated as a selection that comes at once.
  receive-keep_copy :
      (i mime_atom : ℕ) (mime_type : Bytes) (p : Bytes) (ps : List Bytes) (s : Copier)
      → event_atom ≢ atoms.window_name
      → NoneEmpty (p ∷ ps)
      → get window s.allocator ≡ some (i, pending_incr mime_atom mime_type none 0)
      → receive ((p ∷ ps) ++ ([] ∷ [])) s
        ≡ finish (replicate (suc (length (p ∷ ps))) (get_property window event_atom)) i s (
            keep_copy answers mime_type
              (hash_data answers.fx_bytes answers.fx_len (join (p ∷ ps)))
              (join (p ∷ ps))
              s.deduplicator)
  receive-keep_copy i mime_atom mime_type [] ps s named (nonempty, later) h = absurd (omega arith)
  receive-keep_copy i mime_atom mime_type (b ∷ bs) ps s named (nonempty, later) h =
      let file = b ∷ bs in
      receive_more i mime_atom mime_type named none 0 b bs (ps ++ ([] ∷ [])) s h
      ∙ ap (λ s'. receive (ps ++ ([] ∷ [])) s' >>= with_request i mime_atom mime_type named)
          (incr_append i mime_atom mime_type named [] file s)
      ∙ ap (λ r. r >>= with_request i mime_atom mime_type named)
          (receive_pieces i mime_atom mime_type named ps file
            (incr i mime_atom mime_type named (some file) (length file) s) later nonempty
            (get-put_state window i _ _ s.allocator h))
      ∙ finish-incr i mime_atom mime_type named
          (replicate (suc (length ps)) (get_property window event_atom)) (some file) (length file) s
          _

  -- A transfer in pieces that waits for its first piece, for a type `mime_type`: after any number of
  -- pieces, none of them empty, and an empty one, in a property other than the window's name, each of
  -- which is asked for, the transfer is free. Where the test for duplicates does not panic on the
  -- pieces, joined, `found` is the entry that it finds: if there is none, the server is asked to add
  -- the joined pieces under the type; if there is one, to move it to the front, and to add the joined
  -- pieces only if the server no longer has it. The identifier that the server replies with is
  -- remembered for the hash of the joined pieces.
  pub incr_copy_keeps_all :
      (i mime_atom : ℕ) (mime_type : Bytes) (p : Bytes) (ps : List Bytes) (s : Copier)
      (found : Option ℕ) (d : CopyDeduplication)
      → event_atom ≢ atoms.window_name
      → NoneEmpty (p ∷ ps)
      → get window s.allocator ≡ some (i, pending_incr mime_atom mime_type none 0)
      → check
          (hash_data answers.fx_bytes answers.fx_len (join (p ∷ ps)))
          (join (p ∷ ps))
          s.deduplicator
        ≡ (ok found, d)
      → receive ((p ∷ ps) ++ ([] ∷ [])) s
        ≡ ok (
          replicate (suc (length (p ∷ ps))) (get_property window event_atom)
              ++ asked_to_keep answers mime_type (join (p ∷ ps)) found,
          record {
            allocator = put_state i free s.allocator;
            deduplicator =
                remember_copy
                  (hash_data answers.fx_bytes answers.fx_len (join (p ∷ ps)))
                  (kept_id answers found)
                  d;
          },
        )
  incr_copy_keeps_all i mime_atom mime_type p ps s found d named nonempty h known =
      receive-keep_copy i mime_atom mime_type p ps s named nonempty h
      ∙ ap (finish (replicate (suc (length (p ∷ ps))) (get_property window event_atom)) i s) (
          keep_copy-check answers mime_type (join (p ∷ ps))
            (hash_data answers.fx_bytes answers.fx_len (join (p ∷ ps))) s.deduplicator d found
            known)
