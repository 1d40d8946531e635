-- ===== src/Client/RingReader.antt =====
-- client-sdk/src/ring_reader.rs: `RingIter` and `RingReader`, the iteration over a ring's entries,
-- and the lookup of an identifier by `DatabaseReader`.
pub mod Drain
pub mod Oldest
pub mod SizeHint
use clipboard_history.Prelude.{
  ℕ, zero, suc, ◌+◌, ◌-◌, Bool, true, false, ◌||◌, Option, none, some, List, [], ◌∷◌, Result, ok,
  err, ltb, leb, ◌==◌, if◌then◌else◌,
}
use clipboard_history.Core.Protocol.{RingKind, favorites, main, IdNotFoundError, decompose_id}
use clipboard_history.Core.Protocol.{entry as entry_not_found}
use clipboard_history.Core.InitializedEntry.{InitializedEntry, file_word}
use clipboard_history.Core.Entry.{Entry, uninitialized, bucketed, file}
use clipboard_history.Core.Views.{RingAndIndex, ring_and_index}
use clipboard_history.Core.Ring.{Ring, next_head, next_entry, prev_entry, get, write_head, set_len}

-- `ring_reader::Entry`
pub record ReaderEntry : Type 0 where
  pub rai : RingAndIndex
  pub metadata : InitializedEntry

metadata_of : Entry → Option InitializedEntry
metadata_of uninitialized = none
metadata_of (bucketed e) = some e
metadata_of file = some file_word

-- `Entry::from`
unfoldable pub entry_from : Ring → RingKind → ℕ → Option ReaderEntry
unfolding metadata_of
entry_from ring kind id = elim (get ring id) [
  | none ↦ none
  | some e ↦ elim (metadata_of e) [
    | none ↦ none
    | some m ↦ some (record { rai = ring_and_index kind id; metadata = m })
  ]
]

pub record RingIter : Type 0 where
  pub kind : RingKind
  pub head : ℕ
  pub front : ℕ
  pub back : ℕ
  pub done : Bool

-- The closures `advance` of `next` and `next_back`: the index visited and the iterator behind it.
unfoldable pub advance_front : Ring → RingIter → ℕ × RingIter
advance_front ring me = (me.front, record me { front = next_entry ring me.front })

unfoldable pub advance_back : Ring → RingIter → ℕ × RingIter
advance_back ring me = (me.back, record me { back = prev_entry ring me.back })

-- What `next_dir` stores in `done` before it advances.
unfoldable pub is_last : Ring → RingIter → Bool
is_last ring me = me.front == me.back || (next_head ring me.front == me.head || me.back == me.head)

-- `next_dir` with fuel for its loop, `none` when that runs out; `len() + 2` rounds are enough.
unfoldable pub next_dir :
    ℕ → Ring → (RingIter → ℕ × RingIter) → RingIter → Option (Option ReaderEntry × RingIter)
next_dir zero ring advance me = none
next_dir (suc fuel) ring advance me =
    let (id, me') = advance (record me { done = is_last ring me }) in
    elim me.done [
      | true ↦ some (none, me)
      | false ↦ elim (entry_from ring me.kind id) [
        | some e ↦ some (some e, me')
        | none ↦ next_dir fuel ring advance me'
      ]
    ]

unfoldable pub next : Ring → RingIter → Option (Option ReaderEntry × RingIter)
unfolding next_dir advance_front
next ring me = next_dir (ring.len + 2) ring (advance_front ring) me

unfoldable pub next_back : Ring → RingIter → Option (Option ReaderEntry × RingIter)
unfolding next_dir advance_back
next_back ring me = next_dir (ring.len + 2) ring (advance_back ring) me

-- The upper and the lower bound are the same number.
unfoldable pub size_hint : Ring → RingIter → ℕ
size_hint ring me =
    if ltb me.back me.front then ring.len - me.front + me.back else me.back - me.front

unfoldable pub from_uninit : RingKind → RingIter
from_uninit kind = record { kind = kind; head = 0; front = 0; back = 0; done = true }

unfoldable pub reset_to : Ring → ℕ → ℕ → RingIter → RingIter
reset_to ring head start me =
    let back = prev_entry ring start in
    record me { head = head; back = back; front = next_entry ring back; done = false }

unfoldable pub from_id : Ring → RingKind → ℕ → ℕ → RingIter
unfolding reset_to from_uninit
from_id ring kind head id = reset_to ring head id (from_uninit kind)

unfoldable pub from_ring : Ring → RingKind → RingIter
unfolding from_id
from_ring ring kind = let tail = write_head ring in from_id ring kind tail tail

-- A `for` loop over the reader, for at most so many entries.
unfoldable pub drain :
    ℕ → (RingIter → Option (Option ReaderEntry × RingIter)) → RingIter → List ReaderEntry
drain zero step me = []
drain (suc n) step me = elim (step me) [
  | some (some e, me') ↦ e ∷ drain n step me'
  | some (none, me') ↦ []
  | none ↦ []
]

pub record DatabaseReader : Type 0 where
  pub main : Ring
  pub favorites : Ring

abbrev pub ring_for : DatabaseReader → RingKind → Ring
ring_for db favorites = db.favorites
ring_for db main = db.main

-- `DatabaseReader::get_raw`
unfoldable pub get_raw : DatabaseReader → ℕ → Result ReaderEntry IdNotFoundError
get_raw db composite = elim (decompose_id composite) [
  | err e ↦ err e
  | ok (kind, id) ↦ elim (entry_from (ring_for db kind) kind id) [
    | none ↦ err (entry_not_found id)
    | some e ↦ ok e
  ]
]

grow_to : ℕ → Ring → Ring
grow_to id ring = if leb ring.len id then set_len (id + 1) ring else ring

put_ring : RingKind → Ring → DatabaseReader → DatabaseReader
put_ring favorites ring db = record db { favorites = ring }
put_ring main ring db = record db { main = ring }

-- `DatabaseReader::get` first grows the ring to the identifier that it is asked for.
unfoldable pub get_grown : DatabaseReader → ℕ → Result ReaderEntry IdNotFoundError × DatabaseReader
unfolding grow_to put_ring get_raw
get_grown db composite = elim (decompose_id composite) [
  | err e ↦ (err e, db)
  | ok (kind, id) ↦
      let db' = put_ring kind (grow_to id (ring_for db kind)) db in (get_raw db' composite, db')
]
