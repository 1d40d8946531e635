-- ===== src/Client/RingReader/Drain.antt =====
-- client-sdk/src/ring_reader.rs: what a loop over a reader collects, and in what order it should.
use clipboard_history.Prelude.{
  ℕ, zero, suc, ◌+◌, ◌-◌, ◌≤◌, ◌<◌, ◌≡◌, ◌⊎◌, Option, none, some, List, [], ◌∷◌, ◌++◌, arith,
}
use clipboard_history.Core.Protocol.{RingKind}
use clipboard_history.Core.Ring.{Ring, write_head}
use clipboard_history.Client.RingReader.{ReaderEntry, RingIter, entry_from, drain}

-- The entries at these indices, without the unused ones.
unfoldable pub entries_at : Ring → RingKind → List ℕ → List ReaderEntry
entries_at r k [] = []
entries_at r k (i ∷ is) = elim (entry_from r k i) [
  | some e ↦ e ∷ entries_at r k is
  | none ↦ entries_at r k is
]

-- The indices from `i` on, `n` of them.
abbrev pub range : ℕ → ℕ → List ℕ
range i zero = []
range i (suc n) = i ∷ range (i + 1) n

-- The indices of a ring from its write head round to it: oldest first.
abbrev pub oldest_first : Ring → List ℕ
oldest_first r = range (write_head r) (r.len - write_head r) ++ range 0 (write_head r)

-- Where the server leaves the write head: at the end of a ring that is still growing, or anywhere
-- in a full one.
abbrev pub IsTail : Ring → ℕ → Type 0
IsTail r t = (t ≡ r.len) × (r.len ≤ r.capacity) ⊎ (t < r.len) × (r.len ≡ r.capacity)

abbrev pub Step : Type 0
Step = RingIter → Option (Option ReaderEntry × RingIter)

pub drain_item :
    (n : ℕ) (step : Step) (e : ReaderEntry) (me me' : RingIter)
    → step me ≡ some (some e, me')
    → drain (suc n) step me ≡ e ∷ drain n step me'
unfolding drain
drain_item n step e me me' p = ground arith

pub drain_end :
    (n : ℕ) (step : Step) (me me' : RingIter)
    → step me ≡ some (none, me')
    → drain (suc n) step me ≡ []
unfolding drain
drain_end n step me me' p = ground arith

pub drain_same :
    (n : ℕ) (step : Step) (me me' : RingIter)
    → step me ≡ step me'
    → drain (suc n) step me ≡ drain (suc n) step me'
unfolding drain
drain_same n step me me' p = ground arith

pub entries_at-some :
    (r : Ring) (k : RingKind) (i : ℕ) (is : List ℕ) (e : ReaderEntry)
    → entry_from r k i ≡ some e
    → entries_at r k (i ∷ is) ≡ e ∷ entries_at r k is
unfolding entries_at
entries_at-some r k i is e p = ground arith

pub entries_at-none :
    (r : Ring) (k : RingKind) (i : ℕ) (is : List ℕ)
    → entry_from r k i ≡ none
    → entries_at r k (i ∷ is) ≡ entries_at r k is
unfolding entries_at
entries_at-none r k i is p = ground arith
