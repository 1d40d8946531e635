-- ===== src/X11/Deduplication/Check.antt =====
-- What the test for duplicates has seen when it names an entry.
use clipboard_history.Prelude.{
  ℕ, ◌≡◌, ◌⊎◌, refl, sym, ◌∙◌, ap, true, Option, none, some, Result, ok, err, arith, if◌then◌else◌,
  Bool-cases, Option-cases, Result-cases, ◌↔◌, inl, inr,
}
use clipboard_history.Prelude.Files.{Bytes}
use clipboard_history.Core.Protocol.{RingKind, favorites, main, composite_id, IdNotFoundError}
use clipboard_history.Server.Store.{bytes_eq}
use clipboard_history.Server.Store.Laws.{bytes_eq_iff}
use clipboard_history.Client.RingReader.{ReaderEntry, get_grown}
use clipboard_history.Client.EntryReader.{to_slice}
use clipboard_history.X11.Deduplication.{CopyDeduplication, map_for, get, check_ring, check}

-- The table of a ring has the hash for the entry, and the entry, looked up and loaded in state `t`, has
-- the data.
abbrev pub IsDuplicate : ℕ → Bytes → CopyDeduplication → ℕ → RingKind → Type 0
IsDuplicate hash bytes t id kind =
    (index : ℕ) × (entry : ReaderEntry) × (get (map_for kind t) hash ≡ some index)
    × (id ≡ composite_id kind index)
    × ((get_grown t.database id).0 ≡ ok entry)
    × ((to_slice entry t.reader).0 ≡ ok (some bytes))

module _ (kind : RingKind) (hash : ℕ) (bytes : Bytes) (t : CopyDeduplication) where
  abbrev outcome : Option Bytes → ℕ → Result (Option ℕ) (Unit {0})
  outcome none id = err tt
  outcome (some loaded) id = ok (if bytes_eq loaded bytes then some id else none)

  ring_none : get (map_for kind t) hash ≡ none → (check_ring kind hash bytes t).0 ≡ ok none
  unfolding check_ring
  ring_none h = ground arith

  ring_lost :
      (index : ℕ) (e : IdNotFoundError)
      → get (map_for kind t) hash ≡ some index
      → (get_grown t.database (composite_id kind index)).0 ≡ err e
      → (check_ring kind hash bytes t).0 ≡ ok none
  unfolding check_ring
  ring_lost index e h g = ground arith

  ring_unread :
      (index : ℕ) (entry : ReaderEntry) (e : Unit {0})
      → get (map_for kind t) hash ≡ some index
      → (get_grown t.database (composite_id kind index)).0 ≡ ok entry
      → (to_slice entry t.reader).0 ≡ err e
      → (check_ring kind hash bytes t).0 ≡ ok none
  unfolding check_ring
  ring_unread index entry e h g l = ground arith

  ring_read :
      (index : ℕ) (entry : ReaderEntry) (loaded : Option Bytes)
      → get (map_for kind t) hash ≡ some index
      → (get_grown t.database (composite_id kind index)).0 ≡ ok entry
      → (to_slice entry t.reader).0 ≡ ok loaded
      → (check_ring kind hash bytes t).0 ≡ outcome loaded (composite_id kind index)
  unfolding check_ring
  ring_read index entry none h g l = ground arith
  ring_read index entry (some b) h g l = ground arith

  outcome-some :
      (loaded : Option Bytes) (id found : ℕ)
      → outcome loaded id ≡ ok (some found)
      → (loaded ≡ some bytes) × (found ≡ id)
  outcome-some none id found h = absurd (ground arith)
  outcome-some (some b) id found h = elim (Bool-cases (bytes_eq b bytes)) [
    | inl same ↦ (ap some ((bytes_eq_iff b bytes).0 same), ground arith)
    | inr other ↦ absurd (ground arith)
  ]

  check_ring_iff :
      (id : ℕ)
      → ((check_ring kind hash bytes t).0 ≡ ok (some id)) ↔ IsDuplicate hash bytes t id kind
  check_ring_iff id = (sound, complete)
    where
      sound : (check_ring kind hash bytes t).0 ≡ ok (some id) → IsDuplicate hash bytes t id kind
      sound h = elim (Option-cases (get (map_for kind t) hash)) [
        | inl empty ↦ absurd (ground (arith, ring_none empty))
        | inr (index, known) ↦
            elim (Result-cases (get_grown t.database (composite_id kind index)).0) [
              | inr (e, lost) ↦ absurd (ground (arith, ring_lost index e known lost))
              | inl (entry, found) ↦ elim (Result-cases (to_slice entry t.reader).0) [
                | inr (e, unread) ↦
                    absurd (ground (arith, ring_unread index entry e known found unread))
                | inl (loaded, read) ↦
                    let (same, here) =
                      outcome-some loaded (composite_id kind index) id
                        (sym (ring_read index entry loaded known found read) ∙ h) in
                    (
                      index,
                      entry,
                      known,
                      here,
                      ap (λ n. (get_grown t.database n).0) here ∙ found,
                      read ∙ ap ok same,
                    )
              ]
            ]
      ]

      complete : IsDuplicate hash bytes t id kind → (check_ring kind hash bytes t).0 ≡ ok (some id)
      complete (index, entry, known, here, found, read) =
          let same : bytes_eq bytes bytes ≡ true = (bytes_eq_iff bytes bytes).1 refl in
          ring_read index entry (some bytes) known
            (ap (λ n. (get_grown t.database n).0) (sym here) ∙ found) read
          ∙ ground (arith, same, here)

run_err :
    (hash : ℕ) (bytes : Bytes) (s : CopyDeduplication) (e : Unit {0})
    → (check_ring favorites hash bytes s).0 ≡ err e
    → (check hash bytes s).0 ≡ err e
unfolding check
run_err hash bytes s e h = ground arith

run_some :
    (hash : ℕ) (bytes : Bytes) (s : CopyDeduplication) (id : ℕ)
    → (check_ring favorites hash bytes s).0 ≡ ok (some id)
    → (check hash bytes s).0 ≡ ok (some id)
unfolding check
run_some hash bytes s id h = ground arith

run_none :
    (hash : ℕ) (bytes : Bytes) (s : CopyDeduplication)
    → (check_ring favorites hash bytes s).0 ≡ ok none
    → (check hash bytes s).0 ≡ (check_ring main hash bytes (check_ring favorites hash bytes s).1).0
unfolding check
run_none hash bytes s h = ground arith

-- `check` names an entry exactly if the favorites' table has the hash for it and it loads as the data, or
-- the round over the favorites finds nothing, the main ring's table has the hash for it and it loads
-- as the data then.
pub check_iff :
    (hash : ℕ) (bytes : Bytes) (s : CopyDeduplication) (id : ℕ)
    → ((check hash bytes s).0 ≡ ok (some id)) ↔ (
        IsDuplicate hash bytes s id favorites
        ⊎ (((check_ring favorites hash bytes s).0 ≡ ok none)
            × IsDuplicate hash bytes (check_ring favorites hash bytes s).1 id main))
check_iff hash bytes s id = (sound, complete)
  where
    after : CopyDeduplication
    after = (check_ring favorites hash bytes s).1

    sound :
        (check hash bytes s).0 ≡ ok (some id)
        → IsDuplicate hash bytes s id favorites
          ⊎ (((check_ring favorites hash bytes s).0 ≡ ok none)
              × IsDuplicate hash bytes after id main)
    sound h = elim (Result-cases (check_ring favorites hash bytes s).0) [
      | inr (e, q) ↦ absurd (ground (arith, run_err hash bytes s e q))
      | inl (some found, q) ↦ inl (
          (check_ring_iff favorites hash bytes s id).0
            (q ∙ sym (run_some hash bytes s found q) ∙ h))
      | inl (none, q) ↦
          inr (q, (check_ring_iff main hash bytes after id).0 (sym (run_none hash bytes s q) ∙ h))
    ]

    complete :
        IsDuplicate hash bytes s id favorites
          ⊎ (((check_ring favorites hash bytes s).0 ≡ ok none)
              × IsDuplicate hash bytes after id main)
        → (check hash bytes s).0 ≡ ok (some id)
    complete (inl d) = run_some hash bytes s id ((check_ring_iff favorites hash bytes s id).1 d)
    complete (inr (q, d)) = run_none hash bytes s q ∙ (check_ring_iff main hash bytes after id).1 d
