-- ===== src/Core/Mimes.antt =====
-- core/src/utils.rs: `TEXT_MIMES`, the types whose entries count as text.
use Prim.Native.Char.{code}
use Prim.Native.String.{String}
use clipboard_history.Prelude.{
  ℕ, ◌+◌, Bool, true, false, ◌&&◌, ◌||◌, List, [], ◌∷◌, leb, ◌==◌, if◌then◌else◌,
}
use clipboard_history.Prelude.Files.{Bytes}

-- The bytes of an ASCII text.
abbrev pub codes : String → Bytes
codes String.[] = []
codes (String.◌∷◌ c s) = code c ∷ codes s

abbrev pub text_mimes : List Bytes
text_mimes =
    codes ""
    ∷ codes "text"
    ∷ codes "string"
    ∷ codes "utf8_string"
    ∷ codes "text/plain"
    ∷ codes "text/plain;charset=utf-8"
    ∷ codes "text/plain;charset=us-ascii"
    ∷ codes "text/plain;charset=unicode"
    ∷ []

-- `u8::to_ascii_lowercase`
unfoldable pub to_ascii_lowercase : ℕ → ℕ
to_ascii_lowercase c = if leb b'A' c && leb c b'Z' then c + 32 else c

-- `str::eq_ignore_ascii_case`
unfoldable pub eq_ignore_ascii_case : Bytes → Bytes → Bool
unfolding to_ascii_lowercase
eq_ignore_ascii_case [] [] = true
eq_ignore_ascii_case [] (d ∷ t) = false
eq_ignore_ascii_case (c ∷ s) [] = false
eq_ignore_ascii_case (c ∷ s) (d ∷ t) =
    to_ascii_lowercase c == to_ascii_lowercase d && eq_ignore_ascii_case s t

any_eq : Bytes → List Bytes → Bool
any_eq mime [] = false
any_eq mime (b ∷ bs) = eq_ignore_ascii_case mime b || any_eq mime bs

-- `TEXT_MIMES.iter().any(|b| mime_type.eq_ignore_ascii_case(b))`
unfoldable pub is_text_mime : Bytes → Bool
unfolding any_eq eq_ignore_ascii_case
is_text_mime mime = any_eq mime text_mimes
