-- ===== src/Client/Search.antt =====
-- client-sdk/src/search.rs: the search through the bucket files and the direct allocations. `Finder`,
-- `memchr` and regular expressions are arguments. A thread is the list of what it sends; a file that
-- is mapped is its bytes.
pub mod Finds
use clipboard_history.Prelude.{
  ℕ, zero, suc, ◌+◌, ◌-◌, ◌/◌, ◌^◌, min, Bool, true, false, ◌&&◌, ◌||◌, Option, none, some, List,
  [], ◌∷◌, ◌++◌, map, Result, ok, err, length, take, drop, ltb, ◌==◌, if◌then◌else◌,
}
use clipboard_history.Prelude.Files.{Bytes}
use clipboard_history.Core.Buckets.{size_to_bucket, bucket_to_length}
use clipboard_history.Core.FileName.{direct_file_name_len, entry_id_from_direct_file_name}
use clipboard_history.Core.Mimes.{codes, text_mimes, to_ascii_lowercase}
use clipboard_history.Server.Store.{bytes_eq}
use clipboard_history.X11.BestTarget.{starts_with}

-- `trait QueryImpl`
pub record QueryImpl : Type 0 where
  pub find : Bytes → Option (ℕ × ℕ)
  pub needle_len : Option ℕ

-- `PlainQuery`
unfoldable pub plain_query : (Bytes → Bytes → Option ℕ) → Bytes → QueryImpl
plain_query finder needle = record {
  find = λ haystack. elim (finder needle haystack) [
    | none ↦ none
    | some start ↦ some (start, start + length needle)
  ];
  needle_len = some (length needle);
}

-- `PlainIgnoreCaseQuery`
unfoldable pub plain_ignore_case_query : (Bytes → Bytes → Option ℕ) → Bytes → QueryImpl
unfolding plain_query
plain_ignore_case_query finder needle = record {
  find = λ haystack. (plain_query finder needle).find (map to_ascii_lowercase haystack);
  needle_len = (plain_query finder needle).needle_len;
}

-- `RegexQuery`
abbrev pub regex_query : (Bytes → Option (ℕ × ℕ)) → QueryImpl
regex_query regex = record { find = regex; needle_len = none }

-- `Query`; a regular expression is where it finds.
pub data Query : Type 0 where
  plain : Bytes → Query
  -- `CaselessQuery`: the query, and whether it is trimmed
  plain_ignore_case : Bytes → Bool → Query
  regex mimes : (Bytes → Option (ℕ × ℕ)) → Query

-- `trim_ascii`
abbrev pub is_ascii_whitespace : ℕ → Bool
is_ascii_whitespace c = c == 32 || (c == 9 || (c == 10 || (c == 12 || c == 13)))

unfoldable pub trim_ascii_start : Bytes → Bytes
trim_ascii_start [] = []
trim_ascii_start (c ∷ cs) =
    let rest = trim_ascii_start cs in if is_ascii_whitespace c then rest else c ∷ cs

abbrev cons_trimmed : ℕ → Bytes → Bytes
cons_trimmed c [] = if is_ascii_whitespace c then [] else c ∷ []
cons_trimmed c (d ∷ ds) = c ∷ d ∷ ds

unfoldable pub trim_ascii_end : Bytes → Bytes
trim_ascii_end [] = []
trim_ascii_end (c ∷ cs) = cons_trimmed c (trim_ascii_end cs)

unfoldable pub caseless : Bytes → Bool → Bytes
caseless query trim =
    let lower = map to_ascii_lowercase query in
    if trim then trim_ascii_end (trim_ascii_start lower) else lower

-- The query that `search` searches with.
unfoldable pub query_impl : (Bytes → Bytes → Option ℕ) → Query → QueryImpl
query_impl finder (plain needle) = plain_query finder needle
query_impl finder (plain_ignore_case query trim) =
    plain_ignore_case_query finder (caseless query trim)
query_impl finder (regex r) = regex_query r
query_impl finder (mimes r) = regex_query r

pub data EntryLocation : Type 0 where
  -- the bucket and the index
  bucketed : ℕ → ℕ → EntryLocation
  -- the identifier
  in_file : ℕ → EntryLocation

pub record QueryResult : Type 0 where
  pub location : EntryLocation
  pub start : ℕ
  pub end_ : ℕ

-- What ends a thread early, by the number of the item: a canceled token, or a receiver that is gone.
pub record Stops : Type 0 where
  pub is_cancelled : ℕ → Bool
  pub is_closed : ℕ → Bool

unfoldable pub midpoint : ℕ → ℕ
midpoint bucket_size = if bucket_size == 4 then 1 else bucket_size / 2 + 1

-- The bytes of a slot up to its NUL byte.
unfoldable pub slot_text : (ℕ → Bytes → Option ℕ) → ℕ → Bytes → Bytes
slot_text memchr middle entry = elim (memchr 0 (drop middle entry)) [
  | none ↦ entry
  | some stop ↦ take (middle + stop) entry
]

-- `chunks_exact`
unfoldable pub chunks_exact : ℕ → ℕ → Bytes → List Bytes
chunks_exact zero size bytes = []
chunks_exact (suc fuel) size bytes =
    let rest = chunks_exact fuel size (drop size bytes) in
    if ltb (length bytes) size then [] else take size bytes ∷ rest

module _ (query : QueryImpl) (memchr : ℕ → Bytes → Option ℕ) (stops : Stops) where
  -- The loop of a bucket's thread.
  unfoldable pub search_slots : ℕ → ℕ → ℕ → List Bytes → List QueryResult
  search_slots bucket middle index [] = []
  search_slots bucket middle index (entry ∷ entries) =
      let rest = search_slots bucket middle (suc index) entries in
      if stops.is_cancelled index then [] else elim (query.find (slot_text memchr middle entry)) [
        | none ↦ rest
        | some (start, end_) ↦
            if stops.is_closed index
            then []
            else record { location = bucketed bucket index; start = start; end_ = end_ } ∷ rest
      ]

  -- A bucket's thread; `fuel` of as many rounds as the file has bytes is enough.
  unfoldable pub search_bucket : ℕ → Bytes → List QueryResult
  search_bucket bucket file =
      let bucket_size = bucket_to_length bucket in
      search_slots bucket (midpoint bucket_size) 0 (chunks_exact (length file) bucket_size file)

  unfoldable pub search_buckets : ℕ → List Bytes → List (List QueryResult)
  search_buckets bucket [] = []
  search_buckets bucket (file ∷ files) =
      search_bucket bucket file ∷ search_buckets (suc bucket) files

  -- The first bucket that has room for the needle.
  unfoldable pub first_bucket : ℕ
  first_bucket = elim query.needle_len [
    | none ↦ size_to_bucket 0
    | some len ↦ size_to_bucket (min len (2 ^ 16 - 1))
  ]

  -- The threads of `search_impl` that search buckets.
  unfoldable pub search_impl : List Bytes → List (List QueryResult)
  search_impl files = search_buckets first_bucket (drop first_bucket files)

-- `is_searchable_mime`
abbrev pub is_one_of : Bytes → List Bytes → Bool
is_one_of mime [] = false
is_one_of mime (m ∷ ms) = bytes_eq m mime || is_one_of mime ms

unfoldable pub is_searchable_mime : Bytes → Bool
is_searchable_mime mime =
    is_one_of mime text_mimes
    || (starts_with mime (codes "text/") || bytes_eq mime (codes "application/xml"))

pub data SearchError : Type 0 where
  io_failed not_a_database : SearchError

-- A file in the directory of direct allocations; `none` where it cannot be opened or mapped.
pub record DirectEntry : Type 0 where
  pub name : Bytes
  pub mime_type : Option Bytes
  pub content : Option Bytes

-- What is sent for a file, if anything is.
abbrev pub Sent : Type 0
Sent = Option (Result QueryResult SearchError)

abbrev pub result_at : Option ℕ → ℕ → ℕ → Sent
result_at none start end_ = some (err not_a_database)
result_at (some id) start end_ =
    some (ok (record { location = in_file id; start = start; end_ = end_ }))

-- A round of `direct_alloc_search_stream`
unfoldable pub search_file : QueryImpl → Bytes → Bytes → Sent
search_file query file file_name = elim (query.find file) [
  | none ↦ none
  | some (start, end_) ↦ result_at (entry_id_from_direct_file_name file_name) start end_
]

-- A round of `stream_through_direct_allocations`, with what is done with the file.
unfoldable pub stream_file : (DirectEntry → Bytes → Sent) → DirectEntry → Sent
stream_file f file =
    if bytes_eq file.name (codes ".") || bytes_eq file.name (codes "..")
    then none
    else elim file.mime_type [ none ↦ some (err io_failed) | some mime ↦ f file mime ]

-- The closure of `search_impl`, with the search of the file that it sends on.
unfoldable pub search_direct : QueryImpl → DirectEntry → Bytes → Sent
search_direct query file mime =
    if is_searchable_mime mime
    then elim file.content [
      | none ↦ some (err io_failed)
      | some bytes ↦
          if length file.name == direct_file_name_len
          then search_file query bytes file.name
          else some (err not_a_database)
    ]
    else none

-- The closure of `mime_search_impl`
unfoldable pub search_mime : QueryImpl → DirectEntry → Bytes → Sent
search_mime query file [] = none
search_mime query file (c ∷ cs) = elim (query.find (c ∷ cs)) [
  | none ↦ none
  | some found ↦ result_at (entry_id_from_direct_file_name file.name) 0 0
]

-- The results for the files of the directory, of which two threads make those of `search_direct`.
unfoldable pub search_files :
    Stops
    → (DirectEntry → Bytes → Sent)
    → ℕ
    → List DirectEntry
    → List (Result QueryResult SearchError)
search_files stops f index [] = []
search_files stops f index (file ∷ files) =
    let rest = search_files stops f (suc index) files in
    if stops.is_cancelled index then [] else elim (stream_file f file) [
      | none ↦ rest
      | some result ↦ if stops.is_closed index then [] else result ∷ rest
    ]

abbrev oks : List (List QueryResult) → List (List (Result QueryResult SearchError))
oks [] = []
oks (thread ∷ threads) = map ok thread ∷ oks threads

-- `search`: what the threads send.
unfoldable pub search :
    (Bytes → Bytes → Option ℕ)
    → (ℕ → Bytes → Option ℕ)
    → Stops
    → Query
    → List Bytes
    → List DirectEntry
    → List (List (Result QueryResult SearchError))
search finder memchr stops (mimes r) files entries =
    search_files stops (search_mime (query_impl finder (mimes r))) 0 entries ∷ []
search finder memchr stops (plain needle) files entries =
    oks (search_impl (query_impl finder (plain needle)) memchr stops files)
    ++ (search_files stops (search_direct (query_impl finder (plain needle))) 0 entries ∷ [])
search finder memchr stops (plain_ignore_case query trim) files entries =
    oks (search_impl (query_impl finder (plain_ignore_case query trim)) memchr stops files)
    ++ (search_files stops (search_direct (query_impl finder (plain_ignore_case query trim))) 0
          entries
        ∷ [])
search finder memchr stops (regex r) files entries =
    oks (search_impl (query_impl finder (regex r)) memchr stops files)
    ++ (search_files stops (search_direct (query_impl finder (regex r))) 0 entries ∷ [])
