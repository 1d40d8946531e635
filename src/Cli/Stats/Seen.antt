-- ===== src/Cli/Stats/Seen.antt =====
-- cli/src/main.rs: what there is to count at an entry, for `stats`.
use clipboard_history.Prelude.{
  ℕ, ◌+◌, ◌*◌, ◌≡◌, sym, ap, ◌∙◌, none, some, List, [], ◌∷◌, length, arith, Bool-cases, inl, inr,
  ◌==◌, if◌then◌else◌,
}
use clipboard_history.Prelude.Files.{Bytes}
use clipboard_history.Core.Buckets.{size_to_bucket}
use clipboard_history.Core.InitializedEntry
use clipboard_history.Core.InitializedEntry.{InitializedEntry}
use clipboard_history.Server.Store.{DirectFile, bytes_eq}
use clipboard_history.Server.Store.Laws.{bytes_eq_iff}
use clipboard_history.Client.RingReader.{ReaderEntry}
use clipboard_history.Client.EntryReader.{EntryReader, bucket, file, kind}
use clipboard_history.Cli.Stats.{count_mime, file_of}

-- What a reader sees at an entry: the size of a text, or a direct file, if it is there.
pub data Seen : Type 0 where
  text : ℕ → Seen
  direct : DirectFile → Seen
  missing : Seen

abbrev pub seen : EntryReader → ReaderEntry → Seen
seen reader entry = elim (kind entry) [
  | bucket e ↦ text (InitializedEntry.size e)
  | file ↦ elim (file_of reader entry) [ none ↦ missing | some f ↦ direct f ]
]

abbrev pub size_seen : Seen → ℕ
size_seen (text size) = size
size_seen (direct f) = length f.content
size_seen missing = 0

-- The bytes that a direct file takes, in blocks of 512.
abbrev pub allocated_seen : (Bytes → ℕ) → Seen → ℕ
allocated_seen blocks (text size) = 0
allocated_seen blocks (direct f) = blocks f.content * 512
allocated_seen blocks missing = 0

-- One for a direct file of the type.
abbrev pub typed_seen : Bytes → Seen → ℕ
typed_seen mime (text size) = 0
typed_seen mime (direct f) = if bytes_eq f.mime mime then 1 else 0
typed_seen mime missing = 0

-- One for a text of the class of a bucket, and its size.
abbrev pub class_seen : ℕ → Seen → ℕ
class_seen i (text size) = if size_to_bucket size == i then 1 else 0
class_seen i (direct f) = 0
class_seen i missing = 0

abbrev pub class_bytes_seen : ℕ → Seen → ℕ
class_bytes_seen i (text size) = if size_to_bucket size == i then size else 0
class_bytes_seen i (direct f) = 0
class_bytes_seen i missing = 0

-- How many direct files of a type are counted.
abbrev pub count_of : Bytes → List (Bytes × ℕ) → ℕ
count_of mime [] = 0
count_of mime ((m, n) ∷ rest) = if bytes_eq m mime then n else count_of mime rest

pub count_of-count_mime :
    (mime m : Bytes) (counts : List (Bytes × ℕ))
    → count_of mime (count_mime m counts)
      ≡ count_of mime counts + (if bytes_eq m mime then 1 else 0)
unfolding count_mime
count_of-count_mime mime m [] = ground arith
count_of-count_mime mime m ((k, n) ∷ rest) = elim (Bool-cases (bytes_eq k m)) [
  | inl same ↦
      let e : k ≡ m = (bytes_eq_iff k m).0 same in
      let alike : bytes_eq k mime ≡ bytes_eq m mime = ap (λ x. bytes_eq x mime) e in
      elim (Bool-cases (bytes_eq m mime)) [
        | inl here ↦ ground (arith, same, alike, here)
        | inr there ↦ ground (arith, same, alike, there)
      ]
  | inr other ↦ elim (Bool-cases (bytes_eq k mime)) [
    | inr there ↦ ground (arith, other, there, count_of-count_mime mime m rest)
    | inl here ↦ elim (Bool-cases (bytes_eq m mime)) [
      | inr apart ↦ ground (arith, other, here, apart)
      | inl again ↦
          let e : k ≡ m = (bytes_eq_iff k mime).0 here ∙ sym ((bytes_eq_iff m mime).0 again) in
          absurd (ground (arith, other, (bytes_eq_iff k m).1 e))
    ]
  ]
]
