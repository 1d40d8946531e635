-- ===== src/Client/Search/Finds.antt =====
-- client-sdk/src/search.rs: which entries the search through the buckets finds.
use native.Mathlib.Nat.{suc-mul}
use clipboard_history.Prelude.{
  ℕ, zero, suc, ◌+◌, ◌-◌, ◌*◌, ◌≤◌, ◌<◌, ◌≡◌, ◌≢◌, ◌⊎◌, ◌∙◌, refl, ap, false, Option, none, some,
  List, [], ◌∷◌, ◌++◌, map, length, length-drop, take, drop, get_elem?, ltb, ◌==◌, if◌then◌else◌,
  arith, Option-cases, inl, inr, All, drop-drop, get_elem?-drop, take-append,
}
use mathlib.Core.Option.{some-injective}
use mathlib.Core.List.{append-nil}
use mathlib.Core.Path.{subst}
use clipboard_history.Prelude.Files.{Bytes}
use clipboard_history.Core.Buckets.{size_to_bucket, bucket_to_length}
use clipboard_history.Core.Buckets.Classes.{size_to_bucket_fits, size_to_bucket-le}
use clipboard_history.Core.Mimes.{to_ascii_lowercase}
use clipboard_history.Client.Search.{
  QueryImpl, Query, plain, plain_ignore_case, regex, mimes, query_impl, plain_query,
  plain_ignore_case_query, QueryResult, bucketed, Stops, midpoint, slot_text, chunks_exact,
  search_slots, search_bucket, search_buckets, first_bucket, search_impl, caseless,
}

-- Where the byte is first, which is what `memchr` finds.
abbrev pub first_index : ℕ → Bytes → Option ℕ
first_index c [] = none
first_index c (x ∷ xs) =
    let later = first_index c xs in
    if x == c then some 0 else elim later [ none ↦ none | some i ↦ some (suc i) ]

-- The bytes of a chunk.
chunks_exact-at :
    (fuel size i : ℕ) (bytes : Bytes)
    → 0 < size
    → i < fuel
    → suc i * size ≤ length bytes
    → get_elem? (chunks_exact fuel size bytes) i ≡ some (take size (drop (i * size) bytes))
unfolding chunks_exact
chunks_exact-at zero size i bytes pos f h = absurd (omega arith)
chunks_exact-at (suc fuel) size zero bytes pos f h =
    let room : ltb (length bytes) size ≡ false = ground arith in
    let start : 0 * size ≡ 0 = omega arith in rw (room, start)
chunks_exact-at (suc fuel) size (suc i) bytes pos f h =
    let next = suc-mul (suc i) size in
    let room : ltb (length bytes) size ≡ false = ground (arith, next) in
    let offset : size + i * size ≡ suc i * size = omega (arith, suc-mul i size) in
    rw room (
      chunks_exact-at fuel size i (drop size bytes) pos (omega arith)
        (omega (arith, next, length-drop size bytes))
      ∙ ap (λ rest. some (take size rest)) (drop-drop (i * size) size bytes)
      ∙ ap (λ n. some (take size (drop n bytes))) offset)

abbrev pub In : QueryResult → List QueryResult → Type 0
In r [] = ⊥
In r (x ∷ xs) = (x ≡ r) ⊎ In r xs

-- A search that nobody ends early.
abbrev pub never : Stops
never = record { is_cancelled = λ _. false; is_closed = λ _. false }

abbrev pub found_at : ℕ → ℕ → ℕ → ℕ → QueryResult
found_at bucket index start end_ = record {
  location = bucketed bucket index;
  start = start;
  end_ = end_;
}

module _ (query : QueryImpl) (memchr : ℕ → Bytes → Option ℕ) where
  search_slots-In :
      (bucket middle index k start end_ : ℕ) (entries : List Bytes) (entry : Bytes)
      → get_elem? entries k ≡ some entry
      → query.find (slot_text memchr middle entry) ≡ some (start, end_)
      → In
          (found_at bucket (index + k) start end_)
          (search_slots query memchr never bucket middle index entries)
  unfolding search_slots
  search_slots-In bucket middle index k start end_ [] entry at found = ground arith
  search_slots-In bucket middle index zero start end_ (e ∷ entries) entry at found =
      let same = some-injective e entry at in
      let here : index ≡ index + 0 = omega arith in
      rw (same, search_slots, found) (inl (ap (λ i. found_at bucket i start end_) here))
  search_slots-In bucket middle index (suc k) start end_ (e ∷ entries) entry at found =
      let later : suc index + k ≡ index + suc k = omega arith in
      let rest =
        subst
          (λ i.
            In (found_at bucket i start end_)
              (search_slots query memchr never bucket middle (suc index) entries))
          later (search_slots-In bucket middle (suc index) k start end_ entries entry at found) in
      elim (Option-cases (query.find (slot_text memchr middle e))) [
        | inl missed ↦ rw missed rest
        | inr (r, also) ↦ rw also (inr rest)
      ]

  search_buckets-at :
      (n k : ℕ) (files : List Bytes) (file : Bytes)
      → get_elem? files k ≡ some file
      → get_elem? (search_buckets query memchr never n files) k
        ≡ some (search_bucket query memchr never (n + k) file)
  unfolding search_buckets
  search_buckets-at n k [] file at = ground arith
  search_buckets-at n zero (f ∷ files) file at =
      let e : n + 0 ≡ n = omega arith in
      rw e (ap (λ g. some (search_bucket query memchr never n g)) (some-injective f file at))
  search_buckets-at n (suc k) (f ∷ files) file at =
      let e : suc n + k ≡ n + suc k = omega arith in
      search_buckets-at (suc n) k files file at
      ∙ ap (λ m. some (search_bucket query memchr never m file)) e

first_index-none : (xs : Bytes) → All (λ c. c ≢ 0) xs → first_index 0 xs ≡ none
first_index-none [] all = refl
first_index-none (x ∷ xs) (ne, all) =
    let other : (x == 0) ≡ false = ground arith in rw (other, first_index-none xs all)

first_index-stop :
    (xs rest : Bytes) → All (λ c. c ≢ 0) xs → first_index 0 (xs ++ (0 ∷ rest)) ≡ some (length xs)
first_index-stop [] rest all = refl
first_index-stop (x ∷ xs) rest (ne, all) =
    let other : (x == 0) ≡ false = ground arith in rw (other, first_index-stop xs rest all)

drop-append : (n : ℕ) (xs ys : Bytes) → n ≤ length xs → drop n (xs ++ ys) ≡ drop n xs ++ ys
drop-append zero xs ys h = refl
drop-append (suc n) [] ys h = absurd (omega arith)
drop-append (suc n) (x ∷ xs) ys h = drop-append n xs ys (omega arith)

All-drop : (n : ℕ) (xs : Bytes) → All (λ c. c ≢ 0) xs → All (λ c. c ≢ 0) (drop n xs)
All-drop zero xs all = all
All-drop (suc n) [] all = tt
All-drop (suc n) (x ∷ xs) (ne, all) = All-drop n xs all

-- What follows a text in its slot.
abbrev pub IsPad : Bytes → Type 0
IsPad [] = Unit
IsPad (c ∷ cs) = c ≡ 0

slot_text-text :
    (memchr : ℕ → Bytes → Option ℕ) (middle : ℕ) (text pad : Bytes)
    → ((xs : Bytes) → memchr 0 xs ≡ first_index 0 xs)
    → middle ≤ length text
    → All (λ c. c ≢ 0) text
    → IsPad pad
    → slot_text memchr middle (text ++ pad) ≡ text
unfolding slot_text
slot_text-text memchr middle text [] first le all h =
    let none_there = first_index-none (drop middle text) (All-drop middle text all) in
    ap (slot_text memchr middle) (append-nil text) ∙ rw (slot_text, first, none_there)
slot_text-text memchr middle text (c ∷ cs) first le all h =
    let stop = first_index-stop (drop middle text) cs (All-drop middle text all) in
    let size : middle + length (drop middle text) ≡ length text =
      omega (arith, length-drop middle text) in
    rw (h, slot_text, first, drop-append middle text (0 ∷ cs) le, stop, size)
      (take-append text (c ∷ cs))

midpoint-le : (n : ℕ) → 0 < n → n < 4096 → midpoint (bucket_to_length (size_to_bucket n)) ≤ n
unfolding midpoint
midpoint-le n pos small = ground (arith, size_to_bucket_fits n pos small)

length-map_bytes : (xs : Bytes) (f : ℕ → ℕ) → length (map f xs) ≡ length xs
length-map_bytes [] f = refl
length-map_bytes (x ∷ xs) f = ap suc (length-map_bytes xs f)

first_bucket-le :
    (finder : Bytes → Bytes → Option ℕ) (memchr : ℕ → Bytes → Option ℕ) (query : Query)
    (text : Bytes) (start end_ : ℕ)
    → ((needle haystack : Bytes) (k : ℕ)
        → finder needle haystack ≡ some k
        → k + length needle ≤ length haystack)
    → length text < 4096
    → (query_impl finder query).find text ≡ some (start, end_)
    → first_bucket (query_impl finder query) memchr never ≤ size_to_bucket (length text)
unfolding first_bucket query_impl plain_query plain_ignore_case_query
first_bucket-le finder memchr (plain needle) text start end_ fits small found =
    elim (Option-cases (finder needle text)) [
      | inl missed ↦ ground (arith, missed)
      | inr (k, at) ↦ size_to_bucket-le _ _ (omega (arith, fits needle text k at))
    ]
first_bucket-le finder memchr (plain_ignore_case query trim) text start end_ fits small found =
    let needle = caseless query trim in
    let haystack = map to_ascii_lowercase text in
    elim (Option-cases (finder needle haystack)) [
      | inl missed ↦ ground (arith, missed)
      | inr (k, at) ↦
          size_to_bucket-le _ _
            (omega (arith, fits needle haystack k at, length-map_bytes text to_ascii_lowercase))
    ]
first_bucket-le finder memchr (regex r) text start end_ fits small found =
    size_to_bucket-le 0 (length text) (omega arith)
first_bucket-le finder memchr (mimes r) text start end_ fits small found =
    size_to_bucket-le 0 (length text) (omega arith)

index-lt : (i size n : ℕ) → 0 < size → suc i * size ≤ n → i < n
index-lt zero size n pos h = omega arith
index-lt (suc i) size n pos h = omega (
  arith,
  suc-mul (suc i) size,
  index-lt i size (n - size) pos (omega (arith, suc-mul (suc i) size)),
)

-- A text of 1 to 4095 bytes, none of them NUL, stands at the start of a slot of its bucket's file and is
-- followed there by a NUL byte, unless it fills the slot: if the query, which is not of types, finds
-- something in the text, then the search, unless it is ended early, has among the results of the thread
-- of that bucket the slot with the place where the query found it. `memchr` finds the first such byte,
-- and what `Finder` finds is inside the haystack.
pub search_finds_text :
    (finder : Bytes → Bytes → Option ℕ) (memchr : ℕ → Bytes → Option ℕ)
    → ((xs : Bytes) → memchr 0 xs ≡ first_index 0 xs)
    → ((needle haystack : Bytes) (k : ℕ)
        → finder needle haystack ≡ some k
        → k + length needle ≤ length haystack)
    → (query : Query) (files : List Bytes) (file text pad : Bytes) (index start end_ : ℕ)
    → 0 < length text
    → length text < 4096
    → All (λ c. c ≢ 0) text
    → IsPad pad
    → get_elem? files (size_to_bucket (length text)) ≡ some file
    → suc index * bucket_to_length (size_to_bucket (length text)) ≤ length file
    → take
        (bucket_to_length (size_to_bucket (length text)))
        (drop (index * bucket_to_length (size_to_bucket (length text))) file)
      ≡ text ++ pad
    → (query_impl finder query).find text ≡ some (start, end_)
    → (results : List QueryResult) × (get_elem?
          (search_impl (query_impl finder query) memchr never files)
          (size_to_bucket (length text) - first_bucket (query_impl finder query) memchr never)
        ≡ some results)
      × In (found_at (size_to_bucket (length text)) index start end_) results
unfolding search_impl search_bucket
search_finds_text finder memchr first fits query files file text pad index start end_ pos small all
      padded there room slot found =
    let q = query_impl finder query in
    let b = size_to_bucket (length text) in
    let size = bucket_to_length b in
    let n = first_bucket q memchr never in
    let le : n ≤ b = first_bucket-le finder memchr query text start end_ fits small found in
    let sum : n + (b - n) ≡ b = omega arith in
    let some_size : 0 < size = omega (arith, size_to_bucket_fits (length text) pos small) in
    let chunk =
      chunks_exact-at (length file) size index file some_size
        (index-lt index size (length file) some_size room) room in
    let text_found : q.find
          (slot_text memchr (midpoint size) (take size (drop (index * size) file)))
        ≡ some (start, end_) =
      ap (λ e. q.find (slot_text memchr (midpoint size) e)) slot
      ∙ ap q.find (
          slot_text-text memchr (midpoint size) text pad first (midpoint-le (length text) pos small)
            all padded)
      ∙ found in
    (
      search_bucket q memchr never b file,
      search_buckets-at q memchr n (b - n) (drop n files) file
            (get_elem?-drop n (b - n) files ∙ ap (get_elem? files) sum ∙ there)
          ∙ ap (λ m. some (search_bucket q memchr never m file)) sum,
      subst
          (λ i. In (found_at b i start end_) (
            search_slots q memchr never b (midpoint size) 0 (chunks_exact (length file) size file)))
          (omega arith)
          (search_slots-In q memchr b (midpoint size) 0 index start end_
            (chunks_exact (length file) size file) _ chunk text_found),
    )
