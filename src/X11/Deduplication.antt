-- ===== src/X11/Deduplication.antt =====
-- x11/src/deduplication.rs: the tables of recent hashes and the test for a copy that is already in
-- the history.
pub mod Table
pub mod Check
use clipboard_history.Prelude.{
  ℕ, zero, suc, ◌+◌, ◌-◌, ◌%◌, ◌^◌, Bool, true, false, bit_and, bit_xor, Option, none, some, List,
  [], ◌∷◌, Result, ok, err, get_or, set, replicate, length, min, leb, ◌==◌, if◌then◌else◌,
}
use clipboard_history.Prelude.Bits.{shr, mask}
use clipboard_history.Prelude.Files.{Bytes}
use clipboard_history.Core.Protocol.{RingKind, favorites, main, composite_id, decompose_id}
use clipboard_history.Core.Ring
use clipboard_history.Core.Ring.{Ring}
use clipboard_history.Server.Store.{bytes_eq}
use clipboard_history.Client.RingReader.{
  ReaderEntry, DatabaseReader, get_grown, ring_for, drain, next, reset_to, from_ring,
}
use clipboard_history.Prelude.Results.{◌>>=◌}
use clipboard_history.Core.Views.{id_of}
use clipboard_history.Client.EntryReader.{EntryReader, to_slice}

-- `ArrayMap<SLOTS>` for `SLOTS = 2 ^ log_slots`.
pub record ArrayMap : Type 0 where
  pub log_slots : ℕ
  pub ids : List ℕ

-- `ArrayMap::default`
abbrev pub default_map : ℕ → ArrayMap
default_map log_slots = record { log_slots = log_slots; ids = replicate (2 ^ log_slots) 0 }

-- The loop of `hash_to_index`; a hash has 64 bits and a round takes at least one of them off.
unfoldable pub fold_hash : ℕ → ℕ → ℕ → ℕ → ℕ
fold_hash log_slots zero hash result = result
fold_hash log_slots (suc fuel) hash result =
    let rest =
      fold_hash log_slots fuel (shr hash log_slots)
        (bit_xor result (bit_and hash (mask log_slots))) in
    if hash == 0 then result else rest

unfoldable pub hash_to_index : ℕ → ℕ → ℕ
hash_to_index log_slots hash = fold_hash log_slots 64 hash 0

-- `ArrayMap::get` and `ArrayMap::remember`; `ids[…]` is in bounds: `hash_to_index-lt`. The
-- increment of `remember` wraps, as in a release build.
unfoldable pub get : ArrayMap → ℕ → Option ℕ
get map hash =
    let id = get_or map.ids (hash_to_index map.log_slots hash) 0 in
    if id == 0 then none else some (id - 1)

unfoldable pub remember : ℕ → ℕ → ArrayMap → ArrayMap
remember hash id map = record map {
  ids = set map.ids (hash_to_index map.log_slots hash) ((id + 1) % 2 ^ 32);
}

pub record CopyDeduplication : Type 0 where
  pub main_map : ArrayMap
  pub favorites_map : ArrayMap
  pub database : DatabaseReader
  pub reader : EntryReader

abbrev pub map_for : RingKind → CopyDeduplication → ArrayMap
map_for favorites s = s.favorites_map
map_for main s = s.main_map

-- `CopyDeduplication::hash`; the hashes of `FxHasher` are arguments.
unfoldable pub hash_data : (Bytes → ℕ) → (ℕ → ℕ) → Bytes → ℕ
hash_data fx_bytes fx_len bytes =
    if leb 4096 (length bytes) then fx_len (length bytes) else fx_bytes bytes

-- One round of the loop of `check`: the identifier if the entry that the table names has the data;
-- `err` is a panic of `to_slice`.
unfoldable pub check_ring :
    RingKind → ℕ → Bytes → CopyDeduplication → Result (Option ℕ) (Unit {0}) × CopyDeduplication
check_ring kind hash data_bytes s = elim (get (map_for kind s) hash) [
  | none ↦ (ok none, s)
  | some index ↦
      let id = composite_id kind index in
      let (found, database) = get_grown s.database id in
      elim found [
        | err e ↦ (ok none, record s { database = database })
        | ok entry ↦
            let (loaded, reader) = to_slice entry s.reader in
            let s' = record s { database = database; reader = reader } in
            elim loaded [
              | err e ↦ (ok none, s')
              | ok none ↦ (err tt, s')
              | ok (some bytes) ↦ (ok (if bytes_eq bytes data_bytes then some id else none), s')
            ]
      ]
]

-- `CopyDeduplication::check`
unfoldable pub check :
    ℕ → Bytes → CopyDeduplication → Result (Option ℕ) (Unit {0}) × CopyDeduplication
check hash data_bytes s =
    let (first, s') = check_ring favorites hash data_bytes s in
    elim first [
      | err p ↦ (err p, s')
      | ok (some id) ↦ (ok (some id), s')
      | ok none ↦ check_ring main hash data_bytes s'
    ]

abbrev pub put_map : RingKind → ArrayMap → CopyDeduplication → CopyDeduplication
put_map favorites map s = record s { favorites_map = map }
put_map main map s = record s { main_map = map }

-- `CopyDeduplication::remember`
unfoldable pub remember_copy : ℕ → ℕ → CopyDeduplication → CopyDeduplication
remember_copy hash id s = elim (decompose_id id) [
  | err e ↦ s
  | ok (kind, index) ↦ put_map kind (remember hash index (map_for kind s)) s
]

-- Where `load` of `new` starts to read: `count` entries before the write head.
unfoldable pub load_start : ℕ → Ring → ℕ
load_start slots ring =
    let count = min slots ring.len in
    let tail = Ring.write_head ring in
    if leb count tail then tail - count else ring.len - (count - tail)

-- The loop of `load` in `new`; `err` is an entry that cannot be loaded.
unfoldable pub load_entries :
    (Bytes → ℕ)
    → (ℕ → ℕ)
    → List ReaderEntry
    → CopyDeduplication
    → Result CopyDeduplication (Unit {0})
load_entries fx_bytes fx_len [] s = ok s
load_entries fx_bytes fx_len (entry ∷ entries) s =
    let (loaded, reader) = to_slice entry s.reader in
    elim loaded [
      | err e ↦ err e
      | ok none ↦ err tt
      | ok (some bytes) ↦ elim (id_of entry.rai) [
        | none ↦ err tt
        | some id ↦
            load_entries fx_bytes fx_len entries
              (remember_copy (hash_data fx_bytes fx_len bytes) id (record s { reader = reader }))
      ]
    ]

-- `load`: the last entries of a ring, as many as the table has slots, the oldest of them first.
unfoldable pub load :
    (Bytes → ℕ) → (ℕ → ℕ) → RingKind → ℕ → CopyDeduplication → Result CopyDeduplication (Unit {0})
load fx_bytes fx_len kind slots s =
    let ring = ring_for s.database kind in
    load_entries fx_bytes fx_len
      (drain (ring.len + 1) (next ring)
        (reset_to ring (Ring.write_head ring) (load_start slots ring) (from_ring ring kind)))
      s

-- `CopyDeduplication::new`, on a database that is open.
unfoldable pub new :
    (Bytes → ℕ) → (ℕ → ℕ) → DatabaseReader → EntryReader → Result CopyDeduplication (Unit {0})
new fx_bytes fx_len database reader =
    load fx_bytes fx_len favorites 16 (record {
      main_map = default_map 11;
      favorites_map = default_map 4;
      database = database;
      reader = reader;
    })
    >>= load fx_bytes fx_len main 2048
