-- ===== src/Client/DuplicateDetector/Exact.antt =====
-- client-sdk/src/duplicate_detection.rs: what a duplicate is.
use mathlib.Core.Path.{subst}
use clipboard_history.Prelude.{
  ℕ, ◌<◌, ◌≡◌, ◌⊎◌, ◌∙◌, refl, sym, ap, Bool, true, false, ◌||◌, some, List, [], ◌∷◌, ◌++◌, Result,
  ok, length, bit_and, leb, ◌==◌, arith, Bool-cases, All, inl, inr,
}
use clipboard_history.Prelude.Bits.{mask}
use clipboard_history.Prelude.Results.{◌>>=◌}
use clipboard_history.Prelude.Files.{Bytes}
use clipboard_history.Core.Views.{RingAndIndex}
use clipboard_history.Server.Store.{bytes_eq}
use clipboard_history.Server.Store.Laws.{bytes_eq_iff}
use clipboard_history.Client.RingReader.{ReaderEntry, DatabaseReader}
use clipboard_history.Client.EntryReader.{
  EntryReader, Kind, bucket, file, kind, to_slice, to_slice_raw,
}
use clipboard_history.Client.DuplicateDetector.{
  Hashes, entries_with, DetectError, hash_kind, hash_entry, raw_data, any_same, is_known, add_entry,
}

abbrev pub member : Bytes → List Bytes → Bool
member c [] = false
member c (d ∷ ds) = bytes_eq c d || member c ds

-- Which texts stand earlier in the list, or among those seen.
abbrev pub duplicates : List Bytes → List Bytes → List Bool
duplicates seen [] = []
duplicates seen (c ∷ cs) = member c seen ∷ duplicates (c ∷ seen) cs

module _ (fx_bytes : Bytes → ℕ) (fx_len : ℕ → ℕ) (database : DatabaseReader)
    (reader : EntryReader) where
  -- The answers for entries that are added one after the other.
  abbrev pub detect : List ReaderEntry → EntryReader → Hashes → Result (List Bool) DetectError
  detect [] now hashes = ok []
  detect (entry ∷ entries) now hashes =
      let (answer, hashes', now') = add_entry fx_bytes fx_len entry database now hashes in
      answer >>= λ known. detect entries now' hashes' >>= λ rest. ok (known ∷ rest)

  -- The reader has mapped the entry, whose data is `c`; the data of a slot is shorter than 4096 bytes.
  abbrev pub IsMapped : ReaderEntry × Bytes → Type 0
  IsMapped (entry, c) =
      (to_slice entry reader ≡ (ok (some c), reader))
      × (to_slice_raw entry reader ≡ ok (some c))
      × (raw_data database reader entry.rai ≡ ok c)
      × ((kind entry ≡ file) ⊎ (length c < 4096))

  abbrev hash : Bytes → ℕ
  hash c = bit_and (hash_kind fx_bytes fx_len file c) (mask 32)

  abbrev Kept : Type 0
  Kept = List (RingAndIndex × Bytes)

  abbrev hashes_of : Kept → Hashes
  hashes_of [] = []
  hashes_of ((rai, c) ∷ kept) = (hash c, rai) ∷ hashes_of kept

  abbrev IsRaw : RingAndIndex × Bytes → Type 0
  IsRaw (rai, c) = raw_data database reader rai ≡ ok c

  abbrev known : Bytes → Kept → Bool
  known c [] = false
  known c ((rai, d) ∷ kept) = bytes_eq c d || known c kept

  any_same-known :
      (c : Bytes) (kept : Kept)
      → All IsRaw kept
      → any_same database reader c (entries_with (hash c) (hashes_of kept)) ≡ ok (known c kept)
  unfolding any_same entries_with
  any_same-known c [] raw = refl
  any_same-known c ((rai, d) ∷ kept) (here, raw) = elim (Bool-cases (bytes_eq c d)) [
    | inl same ↦
        let e : c ≡ d = (bytes_eq_iff c d).0 same in
        let h : (hash d == hash c) ≡ true =
          subst (λ x. (hash x == hash c) ≡ true) e (ground arith) in
        rw (h, any_same, here, same)
    | inr other ↦ elim (Bool-cases (hash d == hash c)) [
      | inl collision ↦ rw (collision, any_same, here, other) (any_same-known c kept raw)
      | inr apart ↦ rw (apart, other) (any_same-known c kept raw)
    ]
  ]

  is_known-any_same :
      (entry : ReaderEntry) (c : Bytes) (rais : List RingAndIndex)
      → to_slice_raw entry reader ≡ ok (some c)
      → is_known database reader entry rais ≡ any_same database reader c rais
  unfolding is_known any_same
  is_known-any_same entry c [] loaded = refl
  is_known-any_same entry c (rai ∷ rais) loaded = rw (is_known, loaded)

  hash_entry-hash :
      (entry : ReaderEntry) (c : Bytes)
      → IsMapped (entry, c)
      → hash_entry fx_bytes fx_len entry reader ≡ (ok (hash c), reader)
  unfolding hash_entry
  hash_entry-hash entry c (loaded, raw_loaded, raw, inl is_file) = rw (loaded, is_file)
  hash_entry-hash entry c (loaded, raw_loaded, raw, inr short) =
      rw loaded (ap (λ h. (ok (bit_and h (mask 32)), reader)) (by_kind (kind entry)))
    where
      by_kind : (k : Kind) → hash_kind fx_bytes fx_len k c ≡ hash_kind fx_bytes fx_len file c
      by_kind file = refl
      by_kind (bucket e) = let less : leb 4096 (length c) ≡ false = ground arith in rw less

  abbrev keep : Bool → ReaderEntry → Bytes → Kept → Kept
  keep true entry c kept = kept
  keep false entry c kept = kept ++ ((entry.rai, c) ∷ [])

  hashes_of-append :
      (kept : Kept) (rai : RingAndIndex) (c : Bytes)
      → hashes_of (kept ++ ((rai, c) ∷ [])) ≡ hashes_of kept ++ ((hash c, rai) ∷ [])
  hashes_of-append [] rai c = refl
  hashes_of-append ((r, d) ∷ kept) rai c = rw (hashes_of-append kept rai c)

  add_entry-known :
      (entry : ReaderEntry) (c : Bytes) (kept : Kept)
      → IsMapped (entry, c)
      → All IsRaw kept
      → add_entry fx_bytes fx_len entry database reader (hashes_of kept)
        ≡ (ok (known c kept), hashes_of (keep (known c kept) entry c kept), reader)
  unfolding add_entry
  add_entry-known entry c kept mapped raw =
      let hashed = hash_entry-hash entry c mapped in
      let answer =
        is_known-any_same entry c (entries_with (hash c) (hashes_of kept)) mapped.1
        ∙ any_same-known c kept raw in
      elim (Bool-cases (known c kept)) [
        | inl old ↦ rw (add_entry, hashed, hashed, answer, old, hashed)
        | inr new ↦
            rw (add_entry, hashed, hashed, answer, new, hashed, hashes_of-append kept entry.rai c)
      ]

  known-append :
      (x c : Bytes) (rai : RingAndIndex) (kept : Kept)
      → known x (kept ++ ((rai, c) ∷ [])) ≡ (bytes_eq x c || known x kept)
  known-append x c rai [] = refl
  known-append x c rai ((r, d) ∷ kept) = ground (arith, known-append x c rai kept)

  All-keep :
      (b : Bool) (entry : ReaderEntry) (c : Bytes) (kept : Kept)
      → raw_data database reader entry.rai ≡ ok c
      → All IsRaw kept
      → All IsRaw (keep b entry c kept)
  All-keep true entry c kept raw all = all
  All-keep false entry c [] raw all = (raw, tt)
  All-keep false entry c ((r, d) ∷ kept) raw (here, all) =
      (here, All-keep false entry c kept raw all)

  abbrev pub entries_of : List (ReaderEntry × Bytes) → List ReaderEntry
  entries_of [] = []
  entries_of ((entry, c) ∷ pairs) = entry ∷ entries_of pairs

  abbrev pub texts_of : List (ReaderEntry × Bytes) → List Bytes
  texts_of [] = []
  texts_of ((entry, c) ∷ pairs) = c ∷ texts_of pairs

  known-keep :
      (entry : ReaderEntry) (c : Bytes) (kept : Kept) (seen : List Bytes)
      → ((x : Bytes) → known x kept ≡ member x seen)
      → (x : Bytes) → known x (keep (known c kept) entry c kept) ≡ member x (c ∷ seen)
  known-keep entry c kept seen same x = elim (Bool-cases (known c kept)) [
    | inr new ↦ rw (new, known-append x c entry.rai kept, same x)
    | inl old ↦ elim (Bool-cases (bytes_eq x c)) [
      | inr other ↦ rw (old, other, same x)
      | inl equal ↦
          let e : x ≡ c = (bytes_eq_iff x c).0 equal in
          rw (old, equal) (subst (λ y. known y kept ≡ true) (sym e) old)
    ]
  ]

  detect-duplicates :
      (pairs : List (ReaderEntry × Bytes)) (kept : Kept) (seen : List Bytes)
      → All IsMapped pairs
      → All IsRaw kept
      → ((x : Bytes) → known x kept ≡ member x seen)
      → detect (entries_of pairs) reader (hashes_of kept) ≡ ok (duplicates seen (texts_of pairs))
  detect-duplicates [] kept seen mapped raw same = refl
  detect-duplicates ((entry, c) ∷ pairs) kept seen (here, mapped) raw same =
      rw
        (
          add_entry-known entry c kept here raw,
          detect-duplicates pairs (keep (known c kept) entry c kept) (c ∷ seen) mapped
              (All-keep (known c kept) entry c kept here.2 raw) (known-keep entry c kept seen same),
        )
        (ap (λ b. ok (b ∷ duplicates (c ∷ seen) (texts_of pairs))) (same c))

  -- Entries that a new detector is given one after the other, all of them mapped by the reader: it reports
  -- exactly those whose data an earlier one has, whatever the hashes are and also where they collide.
  pub detect_exactly :
      (pairs : List (ReaderEntry × Bytes))
      → All IsMapped pairs
      → detect (entries_of pairs) reader [] ≡ ok (duplicates [] (texts_of pairs))
  detect_exactly pairs mapped = detect-duplicates pairs [] [] mapped tt (λ x. refl)
