-- ===== src/X11/BestTarget.antt =====
-- x11/src/best_target.rs: which of the offered mime types the watcher asks for.
pub mod Choice
use clipboard_history.Prelude.{
  ℕ, Bool, true, false, not, ◌&&◌, ◌||◌, Option, none, some, List, [], ◌∷◌, ◌==◌, if◌then◌else◌,
}
use clipboard_history.Prelude.Files.{Bytes}
use clipboard_history.Core.Mimes.{codes, is_text_mime}

pub record SeenMime : Type 0 where
  pub atom : ℕ
  pub has_params : Bool

pub record KnownSeenMimes : Type 0 where
  pub text : Option SeenMime
  pub image : Option SeenMime
  pub x_special : Option SeenMime
  pub chromium_custom : Option SeenMime
  pub other : Option SeenMime

pub record BestMimeTypeFinder : Type 0 where
  pub seen : KnownSeenMimes
  pub best_mime : Bytes
  pub block_text : Bool

-- The field that `target` borrows.
pub data Target : Type 0 where
  to_text to_image to_x_special to_chromium_custom to_other : Target

abbrev pub field : Target → KnownSeenMimes → Option SeenMime
field to_text seen = seen.text
field to_image seen = seen.image
field to_x_special seen = seen.x_special
field to_chromium_custom seen = seen.chromium_custom
field to_other seen = seen.other

abbrev pub put_field : Target → Option SeenMime → KnownSeenMimes → KnownSeenMimes
put_field to_text m seen = record seen { text = m }
put_field to_image m seen = record seen { image = m }
put_field to_x_special m seen = record seen { x_special = m }
put_field to_chromium_custom m seen = record seen { chromium_custom = m }
put_field to_other m seen = record seen { other = m }

-- `str::starts_with`
unfoldable pub starts_with : Bytes → Bytes → Bool
starts_with mime [] = true
starts_with [] (p ∷ ps) = false
starts_with (c ∷ cs) (p ∷ ps) = c == p && starts_with cs ps

-- `mime.contains(';')`
unfoldable pub has_semicolon : Bytes → Bool
has_semicolon [] = false
has_semicolon (c ∷ cs) = c == b';' || has_semicolon cs

-- `mime.chars().next().map_or(true, char::is_lowercase)`; `is_lowercase` is the library's test. A type is
-- its bytes, so the test is of the first byte: the first char where it is ASCII, as types are.
unfoldable pub starts_lowercase : (ℕ → Bool) → Bytes → Bool
starts_lowercase is_lowercase [] = true
starts_lowercase is_lowercase (c ∷ cs) = is_lowercase c

-- The choice of `target`; `none` is a `return`.
unfoldable pub target_of : (ℕ → Bool) → Bool → Bytes → Option Target
target_of is_lowercase block_text mime =
    if is_text_mime mime
    then (if block_text then none else some to_text)
    else if starts_with mime (codes "image/")
    then some to_image
    else if starts_with mime (codes "x-special/")
    then some to_x_special
    else if starts_with mime (codes "chromium/")
    then some to_chromium_custom
    else if starts_lowercase is_lowercase mime
    then some to_other
    else none

-- The assignment to `*target`: the first type offered, or the first without parameters.
unfoldable pub update : Option SeenMime → ℕ → Bool → Option SeenMime
update none atom has_params = some (record { atom = atom; has_params = has_params })
update (some m) atom has_params =
    if m.has_params && not has_params
    then some (record { atom = atom; has_params = false })
    else some m

abbrev pub or_else : Option SeenMime → Option SeenMime → Option SeenMime
or_else (some m) other = some m
or_else none other = other

abbrev pub atom_of : Option SeenMime → Option ℕ
atom_of none = none
atom_of (some m) = some m.atom

-- `KnownSeenMimes::best`
unfoldable pub best_atom : KnownSeenMimes → Option ℕ
best_atom seen = atom_of (
    or_else seen.text
      (or_else seen.image (or_else seen.x_special (or_else seen.chromium_custom seen.other))))

abbrev pub is_atom : ℕ → Option ℕ → Bool
is_atom atom none = false
is_atom atom (some a) = a == atom

-- `add_mime`
unfoldable pub add_mime : (ℕ → Bool) → Bytes → ℕ → BestMimeTypeFinder → BestMimeTypeFinder
add_mime is_lowercase mime atom f = elim (target_of is_lowercase f.block_text mime) [
  | none ↦ f
  | some t ↦
      let seen = put_field t (update (field t f.seen) atom (has_semicolon mime)) f.seen in
      record f {
        seen = seen;
        best_mime = if is_atom atom (best_atom seen) then mime else f.best_mime;
      }
]

-- `block_text`
unfoldable pub block_text : BestMimeTypeFinder → BestMimeTypeFinder
block_text f = record f { block_text = true }

-- `BestMimeTypeFinder::best`
unfoldable pub best : BestMimeTypeFinder → Option (ℕ × Bytes)
best f = elim (best_atom f.seen) [ none ↦ none | some a ↦ some (a, f.best_mime) ]

-- `BestMimeTypeFinder::default`
abbrev pub default_finder : BestMimeTypeFinder
default_finder = record {
  seen = record {
    text = none;
    image = none;
    x_special = none;
    chromium_custom = none;
    other = none;
  };
  best_mime = [];
  block_text = false;
}
