-- ===== src/X11/BestTarget/Choice.antt =====
-- What `BestMimeTypeFinder` finds, against a description of the best offer.
use clipboard_history.Prelude.{
  ℕ, ◌≡◌, ◌∙◌, refl, sym, ap, Bool, true, false, not, ◌&&◌, Option, none, some, List, [], ◌∷◌,
  arith, ◌==◌, if◌then◌else◌, Bool-cases, Option-cases, zero, suc, inl, inr,
}
use clipboard_history.Prelude.Files.{Bytes}
use clipboard_history.X11.BestTarget.{
  SeenMime, KnownSeenMimes, BestMimeTypeFinder, Target, to_text, to_image, to_x_special,
  to_chromium_custom, to_other, field, put_field, has_semicolon, target_of, update, atom_of,
  best_atom, is_atom, add_mime, best, default_finder,
}

abbrev number : Target → ℕ
number to_text = 0
number to_image = 1
number to_x_special = 2
number to_chromium_custom = 3
number to_other = 4

abbrev numbered : ℕ → Target
numbered zero = to_text
numbered (suc zero) = to_image
numbered (suc (suc zero)) = to_x_special
numbered (suc (suc (suc zero))) = to_chromium_custom
numbered _ = to_other

numbered-number : (t : Target) → numbered (number t) ≡ t
numbered-number to_text = refl
numbered-number to_image = refl
numbered-number to_x_special = refl
numbered-number to_chromium_custom = refl
numbered-number to_other = refl

abbrev same_target : Target → Target → Bool
same_target t u = number t == number u

same_target-eq : (t u : Target) → same_target t u ≡ true → t ≡ u
same_target-eq t u h =
    let e : number t ≡ number u = ground arith in
    sym (numbered-number t) ∙ ap numbered e ∙ numbered-number u

abbrev first_where : (ℕ → Bool) → List ℕ → Option ℕ
first_where p [] = none
first_where p (a ∷ rest) = if p a then some a else first_where p rest

abbrev or : Option ℕ → Option ℕ → Option ℕ
or (some a) other = some a
or none other = other

field-put_field :
    (t u : Target) (m : Option SeenMime) (seen : KnownSeenMimes)
    → field u (put_field t m seen) ≡ (if same_target t u then m else field u seen)
field-put_field to_text to_text m seen = refl
field-put_field to_text to_image m seen = refl
field-put_field to_text to_x_special m seen = refl
field-put_field to_text to_chromium_custom m seen = refl
field-put_field to_text to_other m seen = refl
field-put_field to_image to_text m seen = refl
field-put_field to_image to_image m seen = refl
field-put_field to_image to_x_special m seen = refl
field-put_field to_image to_chromium_custom m seen = refl
field-put_field to_image to_other m seen = refl
field-put_field to_x_special to_text m seen = refl
field-put_field to_x_special to_image m seen = refl
field-put_field to_x_special to_x_special m seen = refl
field-put_field to_x_special to_chromium_custom m seen = refl
field-put_field to_x_special to_other m seen = refl
field-put_field to_chromium_custom to_text m seen = refl
field-put_field to_chromium_custom to_image m seen = refl
field-put_field to_chromium_custom to_x_special m seen = refl
field-put_field to_chromium_custom to_chromium_custom m seen = refl
field-put_field to_chromium_custom to_other m seen = refl
field-put_field to_other to_text m seen = refl
field-put_field to_other to_image m seen = refl
field-put_field to_other to_x_special m seen = refl
field-put_field to_other to_chromium_custom m seen = refl
field-put_field to_other to_other m seen = refl

-- An update keeps the atom or puts the new one.
update-atom :
    (m : Option SeenMime) (atom : ℕ) (p : Bool)
    → is_atom atom (atom_of (update m atom p)) ≡ false
    → atom_of (update m atom p) ≡ atom_of m
unfolding update
update-atom none atom p h = ground arith
update-atom (some m) atom p h = ground arith

-- The best atom after an offer is the new one or the one before.
best_atom-put_field :
    (t : Target) (atom : ℕ) (p : Bool) (seen : KnownSeenMimes)
    → is_atom atom (best_atom (put_field t (update (field t seen) atom p) seen)) ≡ false
    → best_atom (put_field t (update (field t seen) atom p) seen) ≡ best_atom seen
unfolding best_atom
best_atom-put_field to_text atom p seen h = ground (arith, update-atom seen.text atom p)
best_atom-put_field to_image atom p seen h = ground (arith, update-atom seen.image atom p)
best_atom-put_field to_x_special atom p seen h = ground (arith, update-atom seen.x_special atom p)
best_atom-put_field to_chromium_custom atom p seen h =
    ground (arith, update-atom seen.chromium_custom atom p)
best_atom-put_field to_other atom p seen h = ground (arith, update-atom seen.other atom p)

module _ (is_lowercase : ℕ → Bool) (name : ℕ → Bytes) (blocked : Bool) where
  -- Whether an atom's type is a candidate for the field.
  abbrev pub is_for : Target → ℕ → Bool
  is_for t a = elim (target_of is_lowercase blocked (name a)) [
    | none ↦ false
    | some u ↦ same_target u t
  ]

  abbrev pub is_plain_for : Target → ℕ → Bool
  is_plain_for t a = is_for t a && not (has_semicolon (name a))

  -- The first offer without parameters, or the first offer.
  abbrev pub preferred : Target → List ℕ → Option ℕ
  preferred t atoms = or (first_where (is_plain_for t) atoms) (first_where (is_for t) atoms)

  -- Text is better than images, these than `x-special/`, that than `chromium/`, that than the rest.
  abbrev pub choice : List ℕ → Option ℕ
  choice atoms = or (preferred to_text atoms) (
      or (preferred to_image atoms) (
        or (preferred to_x_special atoms)
          (or (preferred to_chromium_custom atoms) (preferred to_other atoms))))

  -- The loop of the watcher over the offered atoms.
  abbrev pub offer_all : List ℕ → BestMimeTypeFinder → BestMimeTypeFinder
  offer_all [] f = f
  offer_all (a ∷ rest) f = offer_all rest (add_mime is_lowercase (name a) a f)

  abbrev step : Target → Option SeenMime → ℕ → Option SeenMime
  step t m a = if is_for t a then update m a (has_semicolon (name a)) else m

  abbrev steps : Target → Option SeenMime → List ℕ → Option SeenMime
  steps t m [] = m
  steps t m (a ∷ rest) = steps t (step t m a) rest

  block_text-add_mime :
      (a : ℕ) (f : BestMimeTypeFinder)
      → (add_mime is_lowercase (name a) a f).block_text ≡ f.block_text
  unfolding add_mime
  block_text-add_mime a f = ground arith

  field-add_mime :
      (t : Target) (a : ℕ) (f : BestMimeTypeFinder)
      → f.block_text ≡ blocked
      → field t (add_mime is_lowercase (name a) a f).seen ≡ step t (field t f.seen) a
  unfolding add_mime
  field-add_mime t a f b = elim (Option-cases (target_of is_lowercase blocked (name a))) [
    | inl e ↦ ground (arith, e, b)
    | inr (u, e) ↦ elim (Bool-cases (same_target u t)) [
      | inl same ↦
          let q : field u f.seen ≡ field t f.seen =
            ap (λ v. field v f.seen) (same_target-eq u t same) in
          ground (
            arith,
            e,
            b,
            q,
            field-put_field u t (update (field u f.seen) a (has_semicolon (name a))) f.seen,
          )
      | inr other ↦ ground (
        arith,
        e,
        b,
        field-put_field u t (update (field u f.seen) a (has_semicolon (name a))) f.seen,
      )
    ]
  ]

  field-offer_all :
      (t : Target) (atoms : List ℕ) (f : BestMimeTypeFinder)
      → f.block_text ≡ blocked
      → field t (offer_all atoms f).seen ≡ steps t (field t f.seen) atoms
  field-offer_all t [] f b = refl
  field-offer_all t (a ∷ rest) f b =
      field-offer_all t rest (add_mime is_lowercase (name a) a f) (block_text-add_mime a f ∙ b)
      ∙ ap (λ m. steps t m rest) (field-add_mime t a f b)

  -- What a field ends with, by what it has.
  abbrev ends : Target → Option SeenMime → List ℕ → Option ℕ
  ends t none atoms = preferred t atoms
  ends t (some m) atoms =
      if m.has_params then or (first_where (is_plain_for t) atoms) (some m.atom) else some m.atom

  ends-step :
      (t : Target) (m : Option SeenMime) (a : ℕ) (rest : List ℕ)
      → ends t (step t m a) rest ≡ ends t m (a ∷ rest)
  unfolding update
  ends-step t none a rest = elim (Bool-cases (is_for t a)) [
    | inl e ↦ elim (Bool-cases (has_semicolon (name a))) [
      | inl p ↦ ground (arith, e, p)
      | inr p ↦ ground (arith, e, p)
    ]
    | inr e ↦ ground (arith, e)
  ]
  ends-step t (some m) a rest = elim (Bool-cases (is_for t a)) [
    | inl e ↦ elim (Bool-cases (has_semicolon (name a))) [
      | inl p ↦ ground (arith, e, p)
      | inr p ↦ ground (arith, e, p)
    ]
    | inr e ↦ ground (arith, e)
  ]

  steps-ends :
      (t : Target) (m : Option SeenMime) (atoms : List ℕ)
      → atom_of (steps t m atoms) ≡ ends t m atoms
  unfolding update
  steps-ends t none [] = refl
  steps-ends t (some m) [] = ground arith
  steps-ends t m (a ∷ rest) = steps-ends t (step t m a) rest ∙ ends-step t m a rest

  Labelled : BestMimeTypeFinder → Type 0
  Labelled f = (a : ℕ) → best_atom f.seen ≡ some a → f.best_mime ≡ name a

  add_mime-Labelled :
      (a : ℕ) (f : BestMimeTypeFinder) → Labelled f → Labelled (add_mime is_lowercase (name a) a f)
  unfolding add_mime Labelled
  add_mime-Labelled a f h b e = elim (Option-cases (target_of is_lowercase f.block_text (name a))) [
    | inl q ↦ ground (arith, q, h b)
    | inr (t, q) ↦
        let seen = put_field t (update (field t f.seen) a (has_semicolon (name a))) f.seen in
        elim (Bool-cases (is_atom a (best_atom seen))) [
          | inl new ↦
              let same : a ≡ b = ground (arith, q, e, new) in
              let latest : (add_mime is_lowercase (name a) a f).best_mime ≡ name a =
                ground (arith, q, new) in
              latest ∙ ap name same
          | inr old ↦
              ground
                (arith, q, old, h b, best_atom-put_field t a (has_semicolon (name a)) f.seen old)
        ]
  ]

  offer_all-Labelled :
      (atoms : List ℕ) (f : BestMimeTypeFinder) → Labelled f → Labelled (offer_all atoms f)
  offer_all-Labelled [] f h = h
  offer_all-Labelled (a ∷ rest) f h =
      offer_all-Labelled rest (add_mime is_lowercase (name a) a f) (add_mime-Labelled a f h)

  abbrev pub labelled : Option ℕ → Option (ℕ × Bytes)
  labelled none = none
  labelled (some a) = some (a, name a)

  abbrev pub start : BestMimeTypeFinder
  start = record default_finder { block_text = blocked }

  start-Labelled : Labelled start
  unfolding Labelled best_atom
  start-Labelled a h = absurd (ground arith)

  best_atom-choice : (atoms : List ℕ) → best_atom (offer_all atoms start).seen ≡ choice atoms
  unfolding best_atom
  best_atom-choice atoms = ground (
    arith,
    ends_of to_text,
    ends_of to_image,
    ends_of to_x_special,
    ends_of to_chromium_custom,
    ends_of to_other,
  )
    where
      ends_of :
          (t : Target)
          → atom_of (field t (offer_all atoms start).seen) ≡ ends t (field t start.seen) atoms
      ends_of t =
          ap atom_of (field-offer_all t atoms start refl) ∙ steps-ends t (field t start.seen) atoms

  -- Whatever atoms are offered, in whatever order, once texts are blocked or not: the finder's best is
  -- the first offer without parameters, or else the first offer, of the best kind that any offer has,
  -- and beside it stands the name of that very atom.
  pub best-choice : (atoms : List ℕ) → best (offer_all atoms start) ≡ labelled (choice atoms)
  unfolding best Labelled
  best-choice atoms = elim (Option-cases (choice atoms)) [
    | inl h ↦ ground (arith, best_atom-choice atoms, h)
    | inr (a, h) ↦
        let found : best_atom (offer_all atoms start).seen ≡ some a = best_atom-choice atoms ∙ h in
        ground (arith, found, h, offer_all-Labelled atoms start start-Labelled a found)
  ]
