-- ===== src/X11/Copy/Kept.antt =====
-- x11/src/main.rs: what it means that a copy is kept.
use clipboard_history.Prelude.{
  ℕ, ◌≡◌, ap, Option, none, some, List, [], ◌∷◌, ok, Option-cases, inl, inr,
}
use clipboard_history.Prelude.Files.{Bytes}
use clipboard_history.X11.Requests.{Effect, move_entry, add_entry}
use clipboard_history.X11.Deduplication.{CopyDeduplication, check, remember_copy}
use clipboard_history.X11.Copy.{Answers, keep_copy}

-- What the Ringboard server is asked: to add the data under its type, or, if an entry has the data, to
-- move that entry to the front, and to add the data only if the server no longer has the entry.
abbrev pub asked_to_keep : Answers → Bytes → Bytes → Option ℕ → List Effect
asked_to_keep answers mime content none = add_entry mime content ∷ []
asked_to_keep answers mime content (some existing) = elim (answers.moved existing) [
  | some id ↦ move_entry existing ∷ []
  | none ↦ move_entry existing ∷ add_entry mime content ∷ []
]

-- The identifier under which the server has the data then.
abbrev pub kept_id : Answers → Option ℕ → ℕ
kept_id answers none = answers.added
kept_id answers (some existing) = elim (answers.moved existing) [
  | some id ↦ id
  | none ↦ answers.added
]

pub keep_copy-check :
    (answers : Answers) (mime content : Bytes) (hash : ℕ) (d d' : CopyDeduplication)
    (found : Option ℕ)
    → check hash content d ≡ (ok found, d')
    → keep_copy answers mime hash content d
      ≡ ok (asked_to_keep answers mime content found, remember_copy hash (kept_id answers found) d')
unfolding keep_copy
keep_copy-check answers mime content hash d d' none known =
    let answer : (check hash content d).0 ≡ ok none = ap (λ x. x.0) known in
    let after : (check hash content d).1 ≡ d' = ap (λ x. x.1) known in rw (answer, keep_copy, after)
keep_copy-check answers mime content hash d d' (some existing) known =
    let answer : (check hash content d).0 ≡ ok (some existing) = ap (λ x. x.0) known in
    let after : (check hash content d).1 ≡ d' = ap (λ x. x.1) known in
    elim (Option-cases (answers.moved existing)) [
      | inl gone ↦ rw (answer, keep_copy, gone, asked_to_keep, kept_id, after)
      | inr (id, moved) ↦ rw (answer, keep_copy, moved, asked_to_keep, kept_id, after)
    ]
