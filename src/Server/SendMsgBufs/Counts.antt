-- ===== src/Server/SendMsgBufs/Counts.antt =====
-- A client's counts agree with its table of buffers, so that no allocation overflows its queue.
use clipboard_history.Prelude.{
  ℕ, zero, suc, ◌+◌, ◌-◌, ◌≤◌, ◌<◌, ◌≡◌, refl, sym, ◌∙◌, ap, min, Option, none, some, List, [], ◌∷◌,
  ◌++◌, length, length-set, length-append, get_or, get_or-set, set, drop, arith, ◌==◌, Option-cases,
  Bool-cases, inl, inr,
}
use mathlib.Core.Path.{subst}
use clipboard_history.Prelude.Bits.{bit_and-mask}
use clipboard_history.Server.SendMsgBufs.{
  Message, ClientBufs, new_client, slot_of, max_num_bufs_per_client, drain_client, alloc_client,
  free_client,
}

abbrev pub filled : List (Option Message) → ℕ
filled [] = 0
filled (none ∷ rest) = filled rest
filled (some m ∷ rest) = suc (filled rest)

pub record IsCounted (c : ClientBufs) : Type 0 where
  pub slots : length c.bufs ≡ max_num_bufs_per_client
  pub counted : filled c.bufs ≡ c.alloc_count
  pub waiting : length c.pending_bufs ≤ c.alloc_count

-- What the reactor does with a client's buffers: it frees one only while one is being sent.
pub data Reachable : ClientBufs → Type 0 where
  fresh : Reachable new_client
  allocated :
      {c c' : ClientBufs} (token : ℕ) (message : Message)
      → Reachable c
      → alloc_client token message c ≡ some c'
      → Reachable c'
  drained : {c : ClientBufs} (max_sends : ℕ) → Reachable c → Reachable (drain_client max_sends c).1
  freed :
      {c c' : ClientBufs} (token : ℕ)
      → Reachable c
      → length c.pending_bufs < c.alloc_count
      → free_client token c ≡ some c'
      → Reachable c'

slot_of-lt : (token : ℕ) → slot_of token < max_num_bufs_per_client
slot_of-lt token = ground (arith, bit_and-mask 3 token)

filled_with :
    (bufs : List (Option Message)) (i : ℕ) (m : Message)
    → i < length bufs
    → get_or bufs i none ≡ none
    → filled (set bufs i (some m)) ≡ suc (filled bufs)
filled_with [] i m lt h = absurd (omega arith)
filled_with (none ∷ rest) zero m lt h = refl
filled_with (some n ∷ rest) zero m lt h = absurd (ground arith)
filled_with (none ∷ rest) (suc i) m lt h = filled_with rest i m (omega arith) h
filled_with (some n ∷ rest) (suc i) m lt h = ap suc (filled_with rest i m (omega arith) h)

filled_without :
    (bufs : List (Option Message)) (i : ℕ) (m : Message)
    → get_or bufs i none ≡ some m
    → suc (filled (set bufs i none)) ≡ filled bufs
filled_without [] i m h = absurd (ground arith)
filled_without (none ∷ rest) zero m h = absurd (ground arith)
filled_without (some n ∷ rest) zero m h = refl
filled_without (none ∷ rest) (suc i) m h = filled_without rest i m h
filled_without (some n ∷ rest) (suc i) m h = ap suc (filled_without rest i m h)

filled-le : (bufs : List (Option Message)) → filled bufs ≤ length bufs
filled-le [] = omega arith
filled-le (none ∷ rest) = omega (arith, filled-le rest)
filled-le (some m ∷ rest) = omega (arith, filled-le rest)

filled-lt :
    (bufs : List (Option Message)) (i : ℕ)
    → i < length bufs
    → get_or bufs i none ≡ none
    → filled bufs < length bufs
filled-lt [] i lt h = absurd (omega arith)
filled-lt (none ∷ rest) i lt h = omega (arith, filled-le rest)
filled-lt (some m ∷ rest) zero lt h = absurd (ground arith)
filled-lt (some m ∷ rest) (suc i) lt h = omega (arith, filled-lt rest i (omega arith) h)

abbrev after_alloc : ℕ → Message → ClientBufs → ClientBufs
after_alloc token m c = record {
  bufs = set c.bufs (slot_of token) (some m);
  alloc_count = c.alloc_count + 1;
  pending_bufs = c.pending_bufs ++ ((slot_of token, m) ∷ []);
}

alloc_runs :
    (token : ℕ) (m : Message) (c : ClientBufs)
    → IsCounted c
    → get_or c.bufs (slot_of token) none ≡ none
    → alloc_client token m c ≡ some (after_alloc token m c)
unfolding alloc_client
alloc_runs token m c counts empty =
    let room : length c.pending_bufs < max_num_bufs_per_client = omega (
      arith,
      filled-lt c.bufs (slot_of token) (omega (arith, slot_of-lt token, counts.slots)) empty,
      counts.slots,
      counts.counted,
      counts.waiting,
    ) in
    ground (arith, empty, room)

after_alloc-IsCounted :
    (token : ℕ) (m : Message) (c : ClientBufs)
    → IsCounted c
    → get_or c.bufs (slot_of token) none ≡ none
    → IsCounted (after_alloc token m c)
after_alloc-IsCounted token m c counts empty = record {
  slots = length-set c.bufs (slot_of token) (some m) ∙ counts.slots;
  counted = omega (
    arith,
    filled_with c.bufs (slot_of token) m (omega (arith, slot_of-lt token, counts.slots)) empty,
    counts.counted,
  );
  waiting = omega (arith, length-append c.pending_bufs ((slot_of token, m) ∷ []), counts.waiting);
}

alloc_found :
    (token : ℕ) (m n : Message) (c : ClientBufs)
    → get_or c.bufs (slot_of token) none ≡ some n
    → alloc_client token m c ≡ none
unfolding alloc_client
alloc_found token m n c h = ground arith

alloc_client-IsCounted :
    (token : ℕ) (m : Message) (c c' : ClientBufs)
    → IsCounted c
    → alloc_client token m c ≡ some c'
    → IsCounted c'
alloc_client-IsCounted token m c c' counts run =
    elim (Option-cases (get_or c.bufs (slot_of token) none)) [
      | inl empty ↦
          subst IsCounted (some-injective (sym (alloc_runs token m c counts empty) ∙ run))
            (after_alloc-IsCounted token m c counts empty)
      | inr (n, taken) ↦ absurd (ground (arith, alloc_found token m n c taken))
    ]
  where
    some-injective : {x y : ClientBufs} → some x ≡ some y → x ≡ y
    some-injective h = cc h

drain_client-IsCounted : (n : ℕ) (c : ClientBufs) → IsCounted c → IsCounted (drain_client n c).1
unfolding drain_client
drain_client-IsCounted n c counts = record {
  slots = counts.slots;
  counted = counts.counted;
  waiting =
      omega (arith, length-drop_le (min n (length c.pending_bufs)) c.pending_bufs, counts.waiting);
}
  where
    length-drop_le : (n : ℕ) (xs : List (ℕ × Message)) → length (drop n xs) ≤ length xs
    length-drop_le zero xs = omega arith
    length-drop_le (suc n) [] = omega arith
    length-drop_le (suc n) (x ∷ xs) = omega (arith, length-drop_le n xs)

abbrev after_free : ℕ → ClientBufs → ClientBufs
after_free token c = record c {
  bufs = set c.bufs (slot_of token) none;
  alloc_count = c.alloc_count - 1;
}

free_found :
    (token : ℕ) (m : Message) (c c' : ClientBufs)
    → get_or c.bufs (slot_of token) none ≡ some m
    → free_client token c ≡ some c'
    → after_free token c ≡ c'
unfolding free_client
free_found token m c c' h run = elim (Bool-cases (c.alloc_count == 0)) [
  | inl zero_count ↦ absurd (ground arith)
  | inr more ↦
      let frees : free_client token c ≡ some (after_free token c) = ground (arith, more, h) in
      let same : some (after_free token c) ≡ some c' = sym frees ∙ run in cc same
]

free_missing :
    (token : ℕ) (c : ClientBufs)
    → get_or c.bufs (slot_of token) none ≡ none
    → free_client token c ≡ none
unfolding free_client
free_missing token c h = ground arith

free_client-IsCounted :
    (token : ℕ) (c c' : ClientBufs)
    → IsCounted c
    → length c.pending_bufs < c.alloc_count
    → free_client token c ≡ some c'
    → IsCounted c'
free_client-IsCounted token c c' counts sending run =
    elim (Option-cases (get_or c.bufs (slot_of token) none)) [
      | inl empty ↦ absurd (ground (arith, free_missing token c empty))
      | inr (m, taken) ↦ subst IsCounted (free_found token m c c' taken run) (record {
        slots = length-set c.bufs (slot_of token) none ∙ counts.slots;
        counted = omega (arith, filled_without c.bufs (slot_of token) m taken, counts.counted);
        waiting = omega arith;
      })
    ]

pub Reachable-IsCounted : (c : ClientBufs) → Reachable c → IsCounted c
Reachable-IsCounted c fresh = record { slots = refl; counted = refl; waiting = omega arith }
Reachable-IsCounted c' (allocated {c = c} token m r run) =
    alloc_client-IsCounted token m c c' (Reachable-IsCounted c r) run
Reachable-IsCounted c' (drained {c = c} n r) = drain_client-IsCounted n c (Reachable-IsCounted c r)
Reachable-IsCounted c' (freed {c = c} token r sending run) =
    free_client-IsCounted token c c' (Reachable-IsCounted c r) sending run

-- However a client's buffers have been allocated, drained and freed, a buffer being freed only while
-- one is being sent: the count is the number of buffers in the table; an allocation for a token whose
-- buffer is free does not panic, puts the message into the table and last into the queue, and keeps
-- the counts right.
pub Reachable-alloc :
    (c : ClientBufs) (token : ℕ) (m : Message)
    → Reachable c
    → get_or c.bufs (slot_of token) none ≡ none
    → (filled c.bufs ≡ c.alloc_count)
      × (c' : ClientBufs) × (alloc_client token m c ≡ some c')
      × (c'.pending_bufs ≡ c.pending_bufs ++ ((slot_of token, m) ∷ []))
      × (get_or c'.bufs (slot_of token) none ≡ some m)
      × IsCounted c'
Reachable-alloc c token m r empty =
    let counts = Reachable-IsCounted c r in
    (
      counts.counted,
      after_alloc token m c,
      alloc_runs token m c counts empty,
      refl,
      ground (
        arith,
        get_or-set c.bufs (slot_of token) (some m) (slot_of token) none
            (omega (arith, slot_of-lt token, counts.slots)),
      ),
      after_alloc-IsCounted token m c counts empty,
    )
