-- ===== src/Tests/Search.antt =====
-- The search on small files.
use clipboard_history.Prelude.{
  ℕ, suc, ◌+◌, ◌-◌, ◌≤◌, ◌≡◌, refl, true, Option, none, some, List, [], ◌∷◌, ◌++◌, length,
  get_elem?, arith, Bool-cases, Option-cases, inl, inr, if◌then◌else◌,
}
use clipboard_history.Prelude.Files.{Bytes}
use clipboard_history.Core.Mimes.{codes, to_ascii_lowercase}
use clipboard_history.Core.Buckets.{size_to_bucket, checked_ilog2}
use clipboard_history.X11.BestTarget.{starts_with}
use clipboard_history.Client.Search.{
  QueryResult, Query, plain_ignore_case, query_impl, plain_query, plain_ignore_case_query, caseless,
  trim_ascii_start, trim_ascii_end, search_impl, search_buckets, search_bucket, search_slots,
  chunks_exact, slot_text, midpoint, first_bucket,
}
use clipboard_history.Client.Search.Finds.{first_index, never, found_at, In, search_finds_text}

-- The first place where the needle is.
abbrev leftmost : Bytes → Bytes → Option ℕ
leftmost needle [] = if starts_with [] needle then some 0 else none
leftmost needle (c ∷ cs) =
    let later = leftmost needle cs in
    if starts_with (c ∷ cs) needle
    then some 0
    else elim later [ none ↦ none | some i ↦ some (suc i) ]

starts_with-length :
    (haystack needle : Bytes) → starts_with haystack needle ≡ true → length needle ≤ length haystack
unfolding starts_with
starts_with-length haystack [] h = omega arith
starts_with-length [] (p ∷ ps) h = ground arith
starts_with-length (c ∷ cs) (p ∷ ps) h = ground (arith, h, starts_with-length cs ps)

leftmost-fits :
    (needle haystack : Bytes) (k : ℕ)
    → leftmost needle haystack ≡ some k
    → k + length needle ≤ length haystack
leftmost-fits needle [] k h = elim (Bool-cases (starts_with [] needle)) [
  | inl here ↦ ground (arith, here, starts_with-length [] needle here)
  | inr missed ↦ ground (arith, missed)
]
leftmost-fits needle (c ∷ cs) k h = elim (Bool-cases (starts_with (c ∷ cs) needle)) [
  | inl here ↦ ground (arith, here, starts_with-length (c ∷ cs) needle here)
  | inr missed ↦ elim (Option-cases (leftmost needle cs)) [
    | inl none_later ↦ ground (arith, missed, none_later)
    | inr (j, later) ↦ ground (arith, missed, later, leftmost-fits needle cs j later)
  ]
]

-- Two slots of eight bytes: an entry, and one with rests of an older one.
abbrev eights : Bytes
eights = codes "HELLOOO" ++ (0 ∷ codes "Hello" ++ (0 ∷ codes "OO"))

abbrev files : List Bytes
files = [] ∷ eights ∷ []

abbrev query : Query
query = plain_ignore_case (codes " lO") true

search_finds_text_example :
    (results : List QueryResult) × (get_elem?
        (search_impl (query_impl leftmost query) first_index never files)
        (size_to_bucket 5 - first_bucket (query_impl leftmost query) first_index never)
      ≡ some results)
    × In (found_at (size_to_bucket 5) 1 3 5) results
unfolding size_to_bucket checked_ilog2 query_impl plain_ignore_case_query plain_query caseless
    trim_ascii_start trim_ascii_end starts_with to_ascii_lowercase
search_finds_text_example =
    search_finds_text leftmost first_index (λ xs. refl) leftmost-fits query files eights
      (codes "Hello") (0 ∷ codes "OO") 1 3 5 (omega arith) (omega arith)
      (omega arith, (omega arith, (omega arith, (omega arith, (omega arith, tt))))) refl refl
      (omega arith) refl refl

both_are_found :
    search_impl (query_impl leftmost query) first_index never files
    ≡ [] ∷ (found_at 1 0 3 5 ∷ found_at 1 1 3 5 ∷ []) ∷ []
unfolding size_to_bucket checked_ilog2 query_impl plain_ignore_case_query plain_query caseless
    trim_ascii_start trim_ascii_end starts_with to_ascii_lowercase search_impl search_buckets
    search_bucket search_slots chunks_exact slot_text midpoint first_bucket
both_are_found = refl
