-- ===== src/Client/UiActor/Heap.antt =====
-- client-sdk/src/ui_actor.rs: a heap that never has more than so many items.
use clipboard_history.Prelude.{
  ℕ, zero, suc, ◌≤◌, ◌≡◌, ◌∙◌, refl, sym, ap, true, false, some, List, [], ◌∷◌, length, take, ltb,
  ◌==◌, arith, Bool-cases, inl, inr, All, length-take,
}
use clipboard_history.Prelude.Vecs.{pop, insert_by, sort_by}
use clipboard_history.Client.UiActor.{replace_max, keep_best, keep_all}

insert-insert :
    (x y : ℕ) (zs : List ℕ)
    → insert_by ltb x (insert_by ltb y zs) ≡ insert_by ltb y (insert_by ltb x zs)
unfolding insert_by
insert-insert x y [] = ground arith
insert-insert x y (z ∷ zs) = ground (arith, insert-insert x y zs)

insert-nil : (x : ℕ) → insert_by ltb x [] ≡ x ∷ []
unfolding insert_by
insert-nil x = refl

insert-less : (x y : ℕ) (ys : List ℕ) → ltb x y ≡ true → insert_by ltb x (y ∷ ys) ≡ x ∷ y ∷ ys
unfolding insert_by
insert-less x y ys less = ground (arith, less)

insert-more :
    (x y : ℕ) (ys : List ℕ) → ltb x y ≡ false → insert_by ltb x (y ∷ ys) ≡ y ∷ insert_by ltb x ys
unfolding insert_by
insert-more x y ys more = ground (arith, more)

-- Each item is at most the later ones.
abbrev pub IsSorted : List ℕ → Type 0
IsSorted [] = Unit
IsSorted (x ∷ xs) = All (λ y. x ≤ y) xs × IsSorted xs

All-insert :
    (z x : ℕ) (xs : List ℕ) → z ≤ x → All (λ y. z ≤ y) xs → All (λ y. z ≤ y) (insert_by ltb x xs)
All-insert z x [] le all = rw (insert-nil x) (le, tt)
All-insert z x (y ∷ ys) le (le', all) = elim (Bool-cases (ltb x y)) [
  | inl less ↦ rw (insert-less x y ys less) (le, (le', all))
  | inr more ↦ rw (insert-more x y ys more) (le', All-insert z x ys le all)
]

All-weaken : (z x : ℕ) (xs : List ℕ) → z ≤ x → All (λ y. x ≤ y) xs → All (λ y. z ≤ y) xs
All-weaken z x [] le all = tt
All-weaken z x (y ∷ ys) le (le', all) = (omega arith, All-weaken z x ys le all)

insert-IsSorted : (x : ℕ) (xs : List ℕ) → IsSorted xs → IsSorted (insert_by ltb x xs)
insert-IsSorted x [] sorted = rw (insert-nil x) (tt, tt)
insert-IsSorted x (y ∷ ys) (all, sorted) = elim (Bool-cases (ltb x y)) [
  | inl less ↦
      let le : x ≤ y = ground (arith, less) in
      rw (insert-less x y ys less) ((le, All-weaken x y ys le all), (all, sorted))
  | inr more ↦
      let le : y ≤ x = ground (arith, more) in
      rw (insert-more x y ys more) (All-insert y x ys le all, insert-IsSorted x ys sorted)
]

length-insert : (x : ℕ) (xs : List ℕ) → length (insert_by ltb x xs) ≡ suc (length xs)
unfolding insert_by
length-insert x [] = refl
length-insert x (y ∷ ys) = ground (arith, length-insert x ys)

take-whole : (n : ℕ) (xs : List ℕ) → length xs ≤ n → take n xs ≡ xs
take-whole zero [] h = refl
take-whole zero (x ∷ xs) h = absurd (omega arith)
take-whole (suc n) [] h = refl
take-whole (suc n) (x ∷ xs) h = ap (λ ys. x ∷ ys) (take-whole n xs (omega arith))

pop-take :
    (n : ℕ) (xs : List ℕ)
    → suc n ≤ length xs
    → (m : ℕ) × (pop (take (suc n) xs) ≡ some (m, take n xs))
      × ((y : ℕ) → All (λ z. y ≤ z) xs → y ≤ m)
unfolding pop
pop-take n [] h = absurd (omega arith)
pop-take zero (x ∷ xs) h = (x, refl, λ y all. all.0)
pop-take (suc n) (x ∷ xs) h =
    let (m, popped, le) = pop-take n xs (omega arith) in (m, rw (popped), λ y all. le y all.1)

-- A full heap that takes one more item.
replace_max-insert :
    (n x : ℕ) (xs : List ℕ)
    → suc n ≤ length xs
    → IsSorted xs
    → replace_max x (take (suc n) xs) (pop (take (suc n) xs)) ≡ take (suc n) (insert_by ltb x xs)
unfolding pop
replace_max-insert n x [] h sorted = absurd (omega arith)
replace_max-insert zero x (y ∷ ys) h sorted = elim (Bool-cases (ltb x y)) [
  | inl less ↦ rw (less, insert-less x y ys less, insert-nil x)
  | inr more ↦ rw (more, insert-more x y ys more)
]
replace_max-insert (suc n) x (y ∷ ys) h (all, sorted) =
    let (m, popped, least) = pop-take n ys (omega arith) in
    let le : y ≤ m = least y all in
    let later : replace_max x (take (suc n) ys) (some (m, take n ys))
        ≡ take (suc n) (insert_by ltb x ys) =
      ap (replace_max x (take (suc n) ys)) (sym popped)
      ∙ replace_max-insert n x ys (omega arith) sorted in
    elim (Bool-cases (ltb x y)) [
      | inl less ↦
          let below : ltb x m ≡ true = ground (arith, less) in
          rw (popped, below, insert-less x y ys less, insert-less x y (take n ys) less)
      | inr more ↦ elim (Bool-cases (ltb x m)) [
        | inl below ↦
            let kept : replace_max x (take (suc n) ys) (some (m, take n ys))
                ≡ insert_by ltb x (take n ys) =
              rw below in
            rw (popped, below, insert-more x y ys more, insert-more x y (take n ys) more)
              (ap (λ zs. y ∷ zs) (sym kept ∙ later))
        | inr above ↦
            let kept : replace_max x (take (suc n) ys) (some (m, take n ys)) ≡ take (suc n) ys =
              rw above in
            rw (popped, above, insert-more x y ys more) (ap (λ zs. y ∷ zs) (sym kept ∙ later))
      ]
    ]

inserts : List ℕ → List ℕ → List ℕ
inserts [] heap = heap
inserts (x ∷ xs) heap = inserts xs (insert_by ltb x heap)

inserts-insert :
    (xs heap : List ℕ) (x : ℕ)
    → inserts xs (insert_by ltb x heap) ≡ insert_by ltb x (inserts xs heap)
unfolding inserts
inserts-insert [] heap x = refl
inserts-insert (y ∷ ys) heap x =
    ap (inserts ys) (insert-insert y x heap) ∙ inserts-insert ys (insert_by ltb y heap) x

inserts-sort_by : (xs : List ℕ) → inserts xs [] ≡ sort_by ltb xs
unfolding inserts sort_by
inserts-sort_by [] = refl
inserts-sort_by (x ∷ xs) = inserts-insert xs [] x ∙ ap (insert_by ltb x) (inserts-sort_by xs)

keep_best-take :
    (n x : ℕ) (xs : List ℕ)
    → IsSorted xs
    → keep_best (suc n) x (take (suc n) xs) ≡ take (suc n) (insert_by ltb x xs)
unfolding keep_best
keep_best-take n x xs sorted = elim (Bool-cases (length (take (suc n) xs) == suc n)) [
  | inl full ↦
      rw full (replace_max-insert n x xs (ground (arith, full, length-take (suc n) xs)) sorted)
  | inr room ↦
      let short : length xs ≤ n = ground (arith, room, length-take (suc n) xs) in
      let whole = take-whole (suc n) xs (omega arith) in
      rw room (
        ap (insert_by ltb x) whole
        ∙ sym (take-whole (suc n) (insert_by ltb x xs) (omega (arith, length-insert x xs))))
]

keep_all-inserts :
    (n : ℕ) (entries xs : List ℕ)
    → IsSorted xs
    → keep_all (suc n) entries (take (suc n) xs) ≡ take (suc n) (inserts entries xs)
unfolding keep_all inserts
keep_all-inserts n [] xs sorted = refl
keep_all-inserts n (x ∷ entries) xs sorted =
    ap (keep_all (suc n) entries) (keep_best-take n x xs sorted)
    ∙ keep_all-inserts n entries (insert_by ltb x xs) (insert-IsSorted x xs sorted)

-- The heap, filled with any entries and never with more than so many, holds the least of them in order,
-- as if all were sorted and the first ones taken.
pub keep_all-sort_by :
    (n : ℕ) (entries : List ℕ) → keep_all (suc n) entries [] ≡ take (suc n) (sort_by ltb entries)
keep_all-sort_by n entries =
    keep_all-inserts n entries [] tt ∙ ap (take (suc n)) (inserts-sort_by entries)
