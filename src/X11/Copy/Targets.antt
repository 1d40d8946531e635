-- ===== src/X11/Copy/Targets.antt =====
-- x11/src/main.rs: the loop over the targets, which asks for their names eight at a time.
use mathlib.Core.List.{append_assoc, append-nil}
use clipboard_history.Prelude.{
  ℕ, ◌≡◌, ◌≢◌, ◌∙◌, refl, sym, ap, Bool, true, false, not, Option, none, some, List, [], ◌∷◌, ◌++◌,
  length, leb, ◌==◌, if◌then◌else◌, arith, Bool-cases, inl, inr,
}
use clipboard_history.Prelude.Files.{Bytes}
use clipboard_history.X11.Requests.{Atoms, Effect, convert_selection}
use clipboard_history.X11.BestTarget
use clipboard_history.X11.BestTarget.{BestMimeTypeFinder, default_finder, best}
use clipboard_history.X11.BestTarget.Choice.{offer_all, choice, labelled, best-choice}
use clipboard_history.X11.Copy.{
  Answers, State, free, pending_selection, Property, drain, offer_targets, targets_arrived,
}

module _ (answers : Answers) where
  abbrev pub name_fits : ℕ → Bool
  name_fits atom = leb (length (answers.atom_name atom)) 96

  abbrev pub fitting : List ℕ → List ℕ
  fitting [] = []
  fitting (atom ∷ atoms) = let rest = fitting atoms in if name_fits atom then atom ∷ rest else rest

  drain-append :
      (xs ys : List ℕ) (f : BestMimeTypeFinder)
      → drain answers (xs ++ ys) f ≡ drain answers ys (drain answers xs f)
  unfolding drain
  drain-append [] ys f = refl
  drain-append (x ∷ xs) ys f = drain-append xs ys _

  offer_targets-drain :
      (value pending : List ℕ) (f : BestMimeTypeFinder)
      → offer_targets answers value pending f ≡ drain answers (pending ++ value) f
  unfolding offer_targets
  offer_targets-drain [] pending f = ap (λ xs. drain answers xs f) (sym (append-nil pending))
  offer_targets-drain (a ∷ value) pending f = elim (Bool-cases (leb 8 (length pending))) [
    | inl full ↦ rw full (
        offer_targets-drain value (a ∷ []) (drain answers pending f)
        ∙ sym (drain-append pending (a ∷ value) f))
    | inr room ↦ rw room (
        offer_targets-drain value (pending ++ (a ∷ [])) f
        ∙ ap (λ xs. drain answers xs f) (append_assoc pending (a ∷ []) value))
  ]

  drain-offer_all :
      (blocked : Bool) (xs : List ℕ) (f : BestMimeTypeFinder)
      → drain answers xs f ≡ offer_all answers.is_lowercase answers.atom_name blocked (fitting xs) f
  unfolding drain
  drain-offer_all blocked [] f = refl
  drain-offer_all blocked (x ∷ xs) f = elim (Bool-cases (name_fits x)) [
    | inl fits ↦ rw fits (drain-offer_all blocked xs _)
    | inr long ↦ rw long (drain-offer_all blocked xs f)
  ]

  -- What is done with the choice.
  abbrev pub ask_for : ℕ → ℕ → ℕ → Option (ℕ × Bytes) → List Effect × State
  ask_for window atom selection none = ([], free)
  ask_for window atom selection (some (target, mime)) =
      (convert_selection window selection target atom ∷ [], pending_selection target mime)

  -- A list of targets that is one is answered by a request for the best of them, by the rule of
  -- `choice`, among those whose name has at most 96 bytes, whatever their number; plain text is no
  -- choice if it is not allowed.
  pub targets_choose_best :
      (atoms : Atoms) (window atom selection : ℕ) (allow : Bool) (property : Property)
      (value : List ℕ)
      → property.type_ ≢ atoms.incr
      → property.value32 ≡ some value
      → targets_arrived answers atoms window atom selection allow property
        ≡ ask_for window atom selection (
            labelled answers.is_lowercase answers.atom_name
              (not allow)
              (choice answers.is_lowercase answers.atom_name (not allow) (fitting value)))
  unfolding targets_arrived BestTarget.block_text
  targets_choose_best atoms window atom selection allow property value whole listed =
      let once : (property.type_ == atoms.incr) ≡ false = ground arith in
      rw (once, listed) (ap (ask_for window atom selection) (offered allow))
    where
      finder : Bool → BestMimeTypeFinder
      finder allowed = if allowed then default_finder else BestTarget.block_text default_finder

      offered :
          (allowed : Bool)
          → best (offer_targets answers value [] (finder allowed))
            ≡ labelled answers.is_lowercase answers.atom_name
                (not allowed)
                (choice answers.is_lowercase answers.atom_name (not allowed) (fitting value))
      offered true =
          ap best (offer_targets-drain value [] _ ∙ drain-offer_all false value _)
          ∙ best-choice answers.is_lowercase answers.atom_name false (fitting value)
      offered false =
          ap best (offer_targets-drain value [] _ ∙ drain-offer_all true value _)
          ∙ best-choice answers.is_lowercase answers.atom_name true (fitting value)
