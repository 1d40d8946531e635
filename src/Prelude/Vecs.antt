-- ===== src/Prelude/Vecs.antt =====
-- `Vec` as a list whose end is the top: the operations at that end, and sorting.
use Prim.Native.Nat.{ℕ, ◌+◌}
use mathlib.Core.Bool.{Bool, true, false}
use mathlib.Core.Option.{Option, none, some}
use mathlib.Core.List.{List, [], ◌∷◌}
use mathlib.Core.Path.{◌≡◌}
use mathlib.Core.Logic.{◌≢◌, inl, inr}
use native.Mathlib.Omega.{arith}
use clipboard_history.Prelude.Tests.{◌==◌, if◌then◌else◌, Option-cases}
use clipboard_history.Prelude.Lists.{count}

module _ {ℓ} {A : Type ℓ} where
  -- `Vec::last`
  unfoldable pub last : List A → Option A
  last [] = none
  last (x ∷ []) = some x
  last (x ∷ y ∷ xs) = last (y ∷ xs)

  -- `Vec::pop`: the last item and the others.
  unfoldable pub pop : List A → Option (A × List A)
  pop [] = none
  pop (x ∷ xs) = elim (pop xs) [ none ↦ some (x, []) | some (y, rest) ↦ some (y, x ∷ rest) ]

  unfoldable pub insert_by : (A → A → Bool) → A → List A → List A
  insert_by before x [] = x ∷ []
  insert_by before x (y ∷ ys) = elim (before x y) [
    | true ↦ x ∷ y ∷ ys
    | false ↦ y ∷ insert_by before x ys
  ]

  unfoldable pub sort_by : (A → A → Bool) → List A → List A
  unfolding insert_by
  sort_by before [] = []
  sort_by before (x ∷ xs) = insert_by before x (sort_by before xs)

pop-ne-none {ℓ} : {A : Type ℓ} (x : A) (xs : List A) → pop (x ∷ xs) ≢ none
unfolding pop
pop-ne-none x xs h = elim (Option-cases (pop xs)) [
  | inl e ↦ ground (arith, e)
  | inr (q, e) ↦ ground (arith, e)
]

pop-cons {ℓ} :
    {A : Type ℓ} (x : A) (xs : List A) (y : A) (rest : List A)
    → pop xs ≡ some (y, rest)
    → pop (x ∷ xs) ≡ some (y, x ∷ rest)
unfolding pop
pop-cons x xs y rest h = ground arith

-- Popping takes one of the items away.
pub count-pop :
    (a : ℕ) (xs : List ℕ) (y : ℕ) (rest : List ℕ)
    → pop xs ≡ some (y, rest)
    → count a xs ≡ count a rest + (if y == a then 1 else 0)
unfolding count
count-pop a [] y rest h = unfold pop in absurd (ground arith)
count-pop a (x ∷ []) y rest h = unfold pop in ground arith
count-pop a (x ∷ z ∷ xs) y rest h = elim (Option-cases (pop (z ∷ xs))) [
  | inl e ↦ absurd (pop-ne-none z xs e)
  | inr ((w, r), e) ↦ ground (arith, count-pop a (z ∷ xs) w r e, pop-cons x (z ∷ xs) w r e)
]
