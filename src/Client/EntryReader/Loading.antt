-- ===== src/Client/EntryReader/Loading.antt =====
-- What a reader loads of an entry whose slot the file holds.
use clipboard_history.Prelude.{
  ℕ, ◌+◌, ◌*◌, ◌≤◌, ◌<◌, ◌≡◌, refl, ◌∙◌, ap, true, false, some, ok, err, length, get_or, set,
  get_or-set, arith, ltb, Bool-cases, inl, inr,
}
use clipboard_history.Core.InitializedEntry
use clipboard_history.Core.InitializedEntry.{InitializedEntry, is_file}
use clipboard_history.Core.Buckets.{num_buckets, size_to_bucket, bucket_to_length}
use clipboard_history.Core.Buckets.Contents.{slot_bytes}
use clipboard_history.Core.Buckets.Classes.{size_to_bucket_fits}
use clipboard_history.Core.InitializedEntry.Fields.{size-lt}
use clipboard_history.Client.RingReader.{ReaderEntry}
use clipboard_history.Client.EntryReader.{
  EntryReader, kind, bucket, bucket_entry_to_slice, remap, grow_bucket_if_needed, to_slice_raw,
  to_slice,
}

abbrev end_of : InitializedEntry → ℕ
end_of e =
    bucket_to_length (size_to_bucket (InitializedEntry.size e)) * InitializedEntry.index e
    + InitializedEntry.size e

slice_mapped :
    (reader : EntryReader) (e : InitializedEntry)
    → ltb (get_or reader.mapped (size_to_bucket (InitializedEntry.size e)) 0) (end_of e) ≡ false
    → bucket_entry_to_slice reader e ≡ ok (slot_bytes reader.buckets e)
unfolding bucket_entry_to_slice
slice_mapped reader e h = rw (h) refl

slice_short :
    (reader : EntryReader) (e : InitializedEntry)
    → ltb (get_or reader.mapped (size_to_bucket (InitializedEntry.size e)) 0) (end_of e) ≡ true
    → bucket_entry_to_slice reader e
      ≡ err (record {
        bucket = size_to_bucket (InitializedEntry.size e);
        needed_len =
            bucket_to_length (size_to_bucket (InitializedEntry.size e))
            * (InitializedEntry.index e + 1);
      })
unfolding bucket_entry_to_slice
slice_short reader e h = rw (h) refl

kind-bucket :
    (entry : ReaderEntry) → is_file entry.metadata ≡ false → kind entry ≡ bucket entry.metadata
unfolding kind
kind-bucket entry h = ground arith

raw_mapped :
    (entry : ReaderEntry) (reader : EntryReader)
    → is_file entry.metadata ≡ false
    → ltb
        (get_or reader.mapped (size_to_bucket (InitializedEntry.size entry.metadata)) 0)
        (end_of entry.metadata)
      ≡ false
    → to_slice_raw entry reader ≡ ok (some (slot_bytes reader.buckets entry.metadata))
unfolding to_slice_raw
raw_mapped entry reader slotted h =
    ground (arith, kind-bucket entry slotted, slice_mapped reader entry.metadata h)

abbrev grown : InitializedEntry → EntryReader → EntryReader
grown e reader =
    let b = size_to_bucket (InitializedEntry.size e) in
    remap b (bucket_to_length b * (InitializedEntry.index e + 1)) reader

grow_mapped :
    (entry : ReaderEntry) (reader : EntryReader)
    → is_file entry.metadata ≡ false
    → ltb
        (get_or reader.mapped (size_to_bucket (InitializedEntry.size entry.metadata)) 0)
        (end_of entry.metadata)
      ≡ false
    → grow_bucket_if_needed entry reader ≡ reader
unfolding grow_bucket_if_needed
grow_mapped entry reader slotted h =
    ground (arith, kind-bucket entry slotted, slice_mapped reader entry.metadata h)

grow_short :
    (entry : ReaderEntry) (reader : EntryReader)
    → is_file entry.metadata ≡ false
    → ltb
        (get_or reader.mapped (size_to_bucket (InitializedEntry.size entry.metadata)) 0)
        (end_of entry.metadata)
      ≡ true
    → grow_bucket_if_needed entry reader ≡ grown entry.metadata reader
unfolding grow_bucket_if_needed
grow_short entry reader slotted h =
    ground (arith, kind-bucket entry slotted, slice_short reader entry.metadata h)

within : (len index size : ℕ) → size ≤ len → ltb (len * (index + 1)) (len * index + size) ≡ false
within len index size h = ground arith

grown-mapped :
    (e : InitializedEntry) (reader : EntryReader)
    → 0 < InitializedEntry.size e
    → length reader.mapped ≡ num_buckets
    → ltb (get_or (grown e reader).mapped (size_to_bucket (InitializedEntry.size e)) 0) (end_of e)
      ≡ false
unfolding remap
grown-mapped e reader pos n =
    let b = size_to_bucket (InitializedEntry.size e) in
    let (lt, fits, _) = size_to_bucket_fits (InitializedEntry.size e) pos (size-lt e) in
    let needed = bucket_to_length b * (InitializedEntry.index e + 1) in
    let got : get_or (set reader.mapped b needed) b 0 ≡ needed =
      ground (arith, get_or-set reader.mapped b needed b 0 (omega arith)) in
    rw got (within (bucket_to_length b) (InitializedEntry.index e) (InitializedEntry.size e) fits)

-- An entry that is kept in a bucket loads as the bytes of its slot, however short the mapping was:
-- the `unwrap` of `to_slice` does not panic.
pub to_slice-slot_bytes :
    (entry : ReaderEntry) (reader : EntryReader)
    → is_file entry.metadata ≡ false
    → 0 < InitializedEntry.size entry.metadata
    → length reader.mapped ≡ num_buckets
    → (to_slice entry reader).0 ≡ ok (some (slot_bytes reader.buckets entry.metadata))
unfolding to_slice remap
to_slice-slot_bytes entry reader slotted pos n =
    elim (Bool-cases (
      ltb (get_or reader.mapped (size_to_bucket (InitializedEntry.size entry.metadata)) 0)
        (end_of entry.metadata))) [
          | inr h ↦
              ap (to_slice_raw entry) (grow_mapped entry reader slotted h)
              ∙ raw_mapped entry reader slotted h
          | inl h ↦
              ap (to_slice_raw entry) (grow_short entry reader slotted h)
              ∙ raw_mapped entry (grown entry.metadata reader) slotted
                  (grown-mapped entry.metadata reader pos n)
        ]
