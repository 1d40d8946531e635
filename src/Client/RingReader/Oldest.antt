-- ===== src/Client/RingReader/Oldest.antt =====
-- A reader that starts at the write head visits the whole ring, oldest entry first.
use clipboard_history.Prelude.{
  ℕ, zero, suc, ◌+◌, ◌-◌, ◌≤◌, ◌<◌, ◌≡◌, ◌⊎◌, inl, inr, refl, ap, ◌∙◌, sym, Bool, true, false, none,
  some, List, [], ◌∷◌, ◌++◌, arith, leb, ◌==◌, if◌then◌else◌, Option-cases,
}
use clipboard_history.Core.Protocol.{RingKind}
use clipboard_history.Core.Ring.{Ring, next_head, next_entry, prev_entry, write_head}
use clipboard_history.Client.RingReader.{
  ReaderEntry, RingIter, entry_from, advance_front, is_last, next_dir, next, drain, from_ring,
}
use clipboard_history.Client.RingReader.Drain.{
  entries_at, range, oldest_first, IsTail, drain_item, drain_end, drain_same, entries_at-some,
  entries_at-none,
}

module _ (r : Ring) (k : RingKind) (t : ℕ) (pos : 0 < r.len) (tail : IsTail r t) where
  abbrev at : ℕ → Bool → RingIter
  at f d = record { kind = k; head = t; front = f; back = prev_entry r t; done = d }

  -- The three tests of the loop come to one: the last index before the write head is reached.
  is_last-at : (f : ℕ) → f < r.len → is_last r (at f false) ≡ (f == prev_entry r t)
  unfolding is_last next_head prev_entry
  is_last-at f h = ground arith

  fuel_suc : r.len + 2 ≡ suc (suc r.len)
  fuel_suc = omega arith

  found :
      (fuel f : ℕ) (e : ReaderEntry)
      → f < r.len
      → entry_from r k f ≡ some e
      → next_dir (suc fuel) r (advance_front r) (at f false)
        ≡ some (some e, at (next_entry r f) (f == prev_entry r t))
  unfolding next_dir advance_front
  found fuel f e h p = ground (arith, is_last-at f h)

  skipped :
      (fuel f : ℕ)
      → f < r.len
      → entry_from r k f ≡ none
      → next_dir (suc fuel) r (advance_front r) (at f false)
        ≡ next_dir fuel r (advance_front r) (at (next_entry r f) (f == prev_entry r t))
  unfolding next_dir advance_front
  skipped fuel f h p = ground (arith, is_last-at f h)

  -- How far the last index is ahead.
  abbrev ahead : ℕ → ℕ
  ahead f = if leb f (prev_entry r t) then prev_entry r t - f else r.len - f + prev_entry r t

  ahead_zero : (f : ℕ) → f < r.len → ahead f ≡ 0 → (f == prev_entry r t) ≡ true
  ahead_zero f h e = ground arith

  ahead-suc :
      (f n : ℕ)
      → f < r.len
      → ahead f ≡ suc n
      → ((f == prev_entry r t) ≡ false) × (ahead (next_entry r f) ≡ n) × (next_entry r f < r.len)
  unfolding prev_entry next_entry
  ahead-suc f n h e = ground arith

  finished :
      (fuel f : ℕ) → next_dir (suc fuel) r (advance_front r) (at f true) ≡ some (none, at f true)
  unfolding next_dir advance_front
  finished fuel f = refl

  -- Fuel beyond the distance to the last index makes no difference.
  enough :
      (n fuel fuel' f : ℕ)
      → f < r.len
      → ahead f ≡ n
      → n < fuel
      → n < fuel'
      → next_dir (suc fuel) r (advance_front r) (at f false)
        ≡ next_dir (suc fuel') r (advance_front r) (at f false)
  enough n zero fuel' f h e lt lt' = absurd (omega arith)
  enough n (suc fuel) zero f h e lt lt' = absurd (omega arith)
  enough zero (suc fuel) (suc fuel') f h e lt lt' = elim (Option-cases (entry_from r k f)) [
    | inl miss ↦
        rw (skipped (suc fuel) f h miss, skipped (suc fuel') f h miss, ahead_zero f h e)
          (finished fuel (next_entry r f) ∙ sym (finished fuel' (next_entry r f)))
    | inr (x, hit) ↦ found (suc fuel) f x h hit ∙ sym (found (suc fuel') f x h hit)
  ]
  enough (suc n) (suc fuel) (suc fuel') f h e lt lt' = elim (Option-cases (entry_from r k f)) [
    | inl miss ↦
        rw (skipped (suc fuel) f h miss, skipped (suc fuel') f h miss, (ahead-suc f n h e).0)
          (enough n fuel fuel' (next_entry r f) (ahead-suc f n h e).2 (ahead-suc f n h e).1
            (omega arith) (omega arith))
    | inr (x, hit) ↦ found (suc fuel) f x h hit ∙ sym (found (suc fuel') f x h hit)
  ]

  -- The `n` indices from `i` on, going round.
  abbrev walk : ℕ → ℕ → List ℕ
  walk i zero = []
  walk i (suc n) = i ∷ walk (next_entry r i) n

  next_found :
      (f : ℕ) (e : ReaderEntry)
      → f < r.len
      → entry_from r k f ≡ some e
      → next r (at f false) ≡ some (some e, at (next_entry r f) (f == prev_entry r t))
  unfolding next
  next_found f e h p = rw fuel_suc (found (suc r.len) f e h p)

  next_finished : (f : ℕ) → next r (at f true) ≡ some (none, at f true)
  unfolding next
  next_finished f = rw fuel_suc (finished (suc r.len) f)

  ahead-lt : (f : ℕ) → f < r.len → ahead f < r.len
  unfolding prev_entry
  ahead-lt f h = ground arith

  next_skipped :
      (n f : ℕ)
      → f < r.len
      → ahead f ≡ suc n
      → entry_from r k f ≡ none
      → next r (at f false) ≡ next r (at (next_entry r f) false)
  unfolding next
  next_skipped n f h e miss =
      rw (fuel_suc, skipped (suc r.len) f h miss, (ahead-suc f n h e).0)
        (enough n r.len (suc r.len) (next_entry r f) (ahead-suc f n h e).2 (ahead-suc f n h e).1
          (omega (arith, ahead-lt f h)) (omega (arith, ahead-lt f h)))

  last_skipped :
      (f : ℕ)
      → f < r.len
      → ahead f ≡ 0
      → entry_from r k f ≡ none
      → next r (at f false) ≡ some (none, at (next_entry r f) true)
  unfolding next
  last_skipped f h e miss =
      rw (fuel_suc, skipped (suc r.len) f h miss, ahead_zero f h e)
        (finished r.len (next_entry r f))

  drain-eq-entries_at :
      (n rounds f : ℕ)
      → f < r.len
      → ahead f ≡ n
      → n < rounds
      → drain (suc rounds) (next r) (at f false) ≡ entries_at r k (walk f (suc n))
  unfolding entries_at
  drain-eq-entries_at n zero f h e lt = absurd (omega arith)
  drain-eq-entries_at zero (suc rounds) f h e lt = elim (Option-cases (entry_from r k f)) [
    | inl miss ↦
        drain_end (suc rounds) (next r) (at f false) (at (next_entry r f) true)
          (last_skipped f h e miss)
        ∙ sym (entries_at-none r k f [] miss)
    | inr (x, hit) ↦
        drain_item (suc rounds) (next r) x (at f false) (at (next_entry r f) true)
          (next_found f x h hit ∙ ap (λ d. some (some x, at (next_entry r f) d)) (ahead_zero f h e))
        ∙ ap (◌∷◌ x) (
            drain_end rounds (next r) (at (next_entry r f) true) (at (next_entry r f) true)
              (next_finished (next_entry r f)))
        ∙ sym (entries_at-some r k f [] x hit)
  ]
  drain-eq-entries_at (suc n) (suc rounds) f h e lt = elim (Option-cases (entry_from r k f)) [
    | inl miss ↦
        drain_same (suc rounds) (next r) (at f false) (at (next_entry r f) false)
          (next_skipped n f h e miss)
        ∙ drain-eq-entries_at n (suc rounds) (next_entry r f) (ahead-suc f n h e).2
            (ahead-suc f n h e).1 (omega arith)
        ∙ sym (entries_at-none r k f (walk (next_entry r f) (suc n)) miss)
    | inr (x, hit) ↦
        drain_item (suc rounds) (next r) x (at f false) (at (next_entry r f) false) (
          next_found f x h hit
          ∙ ap (λ d. some (some x, at (next_entry r f) d)) (ahead-suc f n h e).0)
        ∙ ap (◌∷◌ x) (
            drain-eq-entries_at n rounds (next_entry r f) (ahead-suc f n h e).2
              (ahead-suc f n h e).1 (omega arith))
        ∙ sym (entries_at-some r k f (walk (next_entry r f) (suc n)) x hit)
  ]

  walk-range : (n i : ℕ) → i + n ≤ r.len → walk i n ≡ range i n
  walk-range zero i h = refl
  walk-range (suc zero) i h = refl
  walk-range (suc (suc n)) i h =
      let e : next_entry r i ≡ i + 1 = step i (omega arith) in
      ap (◌∷◌ i) (rw e (walk-range (suc n) (i + 1) (omega arith)))
    where
      step : (i : ℕ) → i + 1 < r.len → next_entry r i ≡ i + 1
      step i h = unfold next_entry in ground arith

  walk_round :
      (m i n w : ℕ)
      → i + suc m ≡ r.len
      → n ≤ r.len
      → w ≡ suc m + n
      → walk i w ≡ range i (suc m) ++ range 0 n
  unfolding next_entry
  walk_round m i n zero e h q = absurd (omega arith)
  walk_round zero i n (suc w) e h q =
      let back : next_entry r i ≡ 0 = ground arith in
      let same : w ≡ n = omega arith in ap (◌∷◌ i) (rw (back, same) (walk-range n 0 (omega arith)))
  walk_round (suc m) i n (suc w) e h q =
      let on : next_entry r i ≡ i + 1 = ground arith in
      ap (◌∷◌ i) (rw on (walk_round m (i + 1) n w (omega arith) h (omega arith)))

  -- Where a reader reset to the write head starts, and what it has before it.
  start_at :
      (f : ℕ)
      → f ≡ next_entry r (prev_entry r t)
      → (f < r.len) × (suc (ahead f) ≡ r.len) × ((f ≡ t) ⊎ ((f ≡ 0) × (t ≡ r.len)))
  unfolding next_entry prev_entry
  start_at f e = grind arith

  walk_start :
      (f : ℕ)
      → f < r.len
      → (f ≡ t) ⊎ ((f ≡ 0) × (t ≡ r.len))
      → walk f r.len ≡ range t (r.len - t) ++ range 0 t
  walk_start f h (inl e) =
      let q : suc (r.len - f - 1) ≡ r.len - f = omega arith in
      rw (← e) (
        walk_round (r.len - f - 1) f f r.len (omega arith) (omega arith) (omega arith)
        ∙ ap (λ j. range f j ++ range 0 f) q)
  walk_start f h (inr (z, e)) =
      let q : r.len - r.len ≡ 0 = omega arith in
      rw (z, e)
        (walk-range r.len 0 (omega arith) ∙ ap (λ j. range r.len j ++ range 0 r.len) (sym q))

  drain_all :
      (rounds : ℕ)
      → r.len ≤ rounds
      → drain (suc rounds) (next r) (at (next_entry r (prev_entry r t)) false)
        ≡ entries_at r k (range t (r.len - t) ++ range 0 t)
  drain_all rounds h =
      let f = next_entry r (prev_entry r t) in
      let (inside, whole, place) = start_at f refl in
      drain-eq-entries_at (ahead f) rounds f inside refl (omega arith)
      ∙ ap (λ n. entries_at r k (walk f n)) whole
      ∙ ap (entries_at r k) (walk_start f inside place)

-- A reader made for a ring yields every used entry of the ring, once each, from the oldest to the
-- newest, and then ends: where the write head stands at the end of a growing ring or inside a full
-- one. So the fuel of `next_dir` suffices.
pub drain-from_ring :
    (r : Ring) (k : RingKind) (rounds : ℕ)
    → 0 < r.len
    → IsTail r (write_head r)
    → r.len ≤ rounds
    → drain (suc rounds) (next r) (from_ring r k) ≡ entries_at r k (oldest_first r)
unfolding from_ring
drain-from_ring r k rounds pos tail h = drain_all r k (write_head r) pos tail rounds h
