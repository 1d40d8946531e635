-- ===== src/Client/RingReader/SizeHint.antt =====
-- client-sdk/src/ring_reader.rs: `size_hint` against what the iterator yields.
use clipboard_history.Prelude.{
  ℕ, zero, suc, ◌+◌, ◌-◌, ◌≤◌, ◌<◌, ◌≡◌, refl, ap, ◌∙◌, sym, List, ◌++◌, some, length, arith,
}
use clipboard_history.Core.Protocol.{RingKind}
use clipboard_history.Core.Ring.{Ring, next_entry, prev_entry, write_head}
use clipboard_history.Client.RingReader.{ReaderEntry, entry_from, next, drain, from_ring, size_hint}
use clipboard_history.Client.RingReader.Oldest.{drain-from_ring}
use clipboard_history.Client.RingReader.Drain.{entries_at, range, oldest_first, IsTail}

-- Every entry of the ring is in use.
abbrev pub IsUsed : Ring → RingKind → Type 0
IsUsed r k = (i : ℕ) → i < r.len → (e : ReaderEntry) × (entry_from r k i ≡ some e)

length-entries_at-range :
    (r : Ring) (k : RingKind) (i n : ℕ) (js : List ℕ)
    → IsUsed r k
    → i + n ≤ r.len
    → length (entries_at r k (range i n ++ js)) ≡ n + length (entries_at r k js)
unfolding entries_at
length-entries_at-range r k i zero js used le = omega arith
length-entries_at-range r k i (suc n) js used le =
    let (e, h) = used i (omega arith) in
    ground (arith, length-entries_at-range r k (i + 1) n js used (omega arith))

length-entries_at-low :
    (r : Ring) (k : RingKind) (i n : ℕ)
    → IsUsed r k
    → i + n ≤ r.len
    → length (entries_at r k (range i n)) ≡ n
unfolding entries_at
length-entries_at-low r k i zero used le = refl
length-entries_at-low r k i (suc n) used le =
    let (e, h) = used i (omega arith) in
    ground (arith, length-entries_at-low r k (i + 1) n used (omega arith))

length-oldest_first :
    (r : Ring) (k : RingKind)
    → IsUsed r k
    → write_head r ≤ r.len
    → length (entries_at r k (oldest_first r)) ≡ r.len
length-oldest_first r k used le =
    let h = write_head r in
    length-entries_at-range r k h (r.len - h) (range 0 h) used (omega arith)
    ∙ ap (λ n. r.len - h + n) (length-entries_at-low r k 0 h used (omega arith))
    ∙ omega arith

size_hint-from_ring :
    (r : Ring) (k : RingKind)
    → 0 < r.len
    → write_head r ≤ r.len
    → suc (size_hint r (from_ring r k)) ≡ r.len
unfolding size_hint from_ring next_entry prev_entry
size_hint-from_ring r k pos le = ground arith

-- Where every entry of the ring is in use, the iterator yields one entry more than the number that
-- `size_hint` gives as both of its bounds.
pub length-drain-size_hint :
    (r : Ring) (k : RingKind)
    → 0 < r.len
    → IsTail r (write_head r)
    → IsUsed r k
    → length (drain (suc r.len) (next r) (from_ring r k)) ≡ suc (size_hint r (from_ring r k))
length-drain-size_hint r k pos tail used =
    let le : write_head r ≤ r.len = grind (arith, tail) in
    ap length (drain-from_ring r k r.len pos tail (omega arith))
    ∙ length-oldest_first r k used le
    ∙ sym (size_hint-from_ring r k pos le)
