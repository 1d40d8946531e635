-- ===== src/Server/Slots/AllocBucket.antt =====
-- server/src/allocator.rs: `alloc_bucket` finds a slot that nobody owns and stores the data there.
use clipboard_history.Prelude.{
  ℕ, ◌+◌, ◌≤◌, ◌<◌, ◌≡◌, ◌≢◌, refl, ◌∙◌, Bool, true, false, ◌&&◌, none, some, List, [], ok, length,
  length-set, get_or, set, get_or-set, arith, ltb, if◌then◌else◌, Bool-cases, Option-cases, inl,
  inr, ◌==◌,
}
use clipboard_history.Prelude.Files.{Bytes}
use clipboard_history.Prelude.Vecs.{pop, count-pop}
use clipboard_history.Core.Protocol.{RingKind}
use clipboard_history.Core.InitializedEntry
use clipboard_history.Core.InitializedEntry.{InitializedEntry, max_entries}
use clipboard_history.Core.InitializedEntry.Fields.{bucket_fields, size-lt}
use clipboard_history.Core.Entry.{bucketed}
use clipboard_history.Core.Entry.Words.{IsEntry, IsEntry-bucket}
use clipboard_history.Core.Buckets.{num_buckets, size_to_bucket, bucket_to_length}
use clipboard_history.Core.Buckets.Contents.{bucket_of, slot_bytes}
use clipboard_history.Core.Buckets.Classes.{size_to_bucket_fits}
use clipboard_history.Server.Store.{Allocator, pure, ◌>>◌, ring_at}
use clipboard_history.Server.Store.Laws.{>>-ok, on_error-ok}
use clipboard_history.Server.Slots.{free_list, put_free_list, fill_slot, alloc_bucket}
use clipboard_history.Server.Slots.Accounts.{IsAccounted, owners, held}
use clipboard_history.Server.Slots.Filled.{
  files_filled, filled, after_fill, fill_slot-after_fill, filled-stored, filled-kept,
  get_or-files_filled, length-files_filled,
}

-- The entry that stands for the slot.
abbrev slot_word : Bytes → ℕ → InitializedEntry
slot_word bytes index = InitializedEntry.bucket (length bytes) index

run_reused :
    (bytes : Bytes) (s : Allocator) (index : ℕ) (rest : List ℕ)
    → s.faults ≡ []
    → pop (free_list (size_to_bucket (length bytes)) s) ≡ some (index, rest)
    → alloc_bucket bytes s ≡ (
      ok (bucketed (slot_word bytes index)),
      after_fill
          (size_to_bucket (length bytes))
          index
          false
          bytes
          (put_free_list (size_to_bucket (length bytes)) rest s),
    )
unfolding alloc_bucket
run_reused bytes s index rest calm h =
    let b = size_to_bucket (length bytes) in
    rw (h, alloc_bucket)
      (on_error-ok (fill_slot b index false bytes >> pure (bucketed (slot_word bytes index))) _
        (put_free_list b rest s)
        (>>-ok (fill_slot b index false bytes) (pure (bucketed (slot_word bytes index)))
          (put_free_list b rest s)
          (fill_slot-after_fill b index false bytes (put_free_list b rest s) calm)))

abbrev counted : ℕ → Allocator → Allocator
counted b s = record s { slot_counts = set s.slot_counts b (get_or s.slot_counts b 0 + 1) }

run_new :
    (bytes : Bytes) (s : Allocator)
    → s.faults ≡ []
    → pop (free_list (size_to_bucket (length bytes)) s) ≡ none
    → alloc_bucket bytes s ≡ (
      ok (bucketed (slot_word bytes (get_or s.slot_counts (size_to_bucket (length bytes)) 0))),
      after_fill
          (size_to_bucket (length bytes))
          (get_or s.slot_counts (size_to_bucket (length bytes)) 0)
          true
          bytes
          (counted (size_to_bucket (length bytes)) s),
    )
unfolding alloc_bucket
run_new bytes s calm h =
    let b = size_to_bucket (length bytes) in
    let index = get_or s.slot_counts b 0 in
    rw (h, alloc_bucket)
      (>>-ok (fill_slot b index true bytes) (pure (bucketed (slot_word bytes index))) (counted b s)
        (fill_slot-after_fill b index true bytes (counted b s) calm))

-- A new entry's slot, before a ring holds it: it has the entry's data, the entry is its one owner, and
-- no other slot has lost its data or its owner.
pub record Allocated (bytes : Bytes) (s : Allocator) (w : InitializedEntry) (s' : Allocator)
    : Type 0 where
  pub proper : IsEntry (bucketed w)
  pub rings : (l : RingKind) → ring_at l s' ≡ ring_at l s
  pub directory : s'.direct_dir ≡ s.direct_dir
  pub calm : s'.faults ≡ []
  pub accounts :
      (b j : ℕ)
      → b < num_buckets
      → owners b j s' + held b j (bucketed w) ≡ (if ltb j (get_or s'.slot_counts b 0) then 1 else 0)
  pub lists : length s'.free_lists ≡ num_buckets
  pub counts : length s'.slot_counts ≡ num_buckets
  pub files : length s'.files ≡ num_buckets
  pub stored : slot_bytes s'.files w ≡ bytes
  pub kept :
      (v : InitializedEntry)
      → 0 < InitializedEntry.size v
      → held (bucket_of v) (InitializedEntry.index v) (bucketed w) ≡ 0
      → slot_bytes s'.files v ≡ slot_bytes s.files v

module _ (bytes : Bytes) (s : Allocator) (pos : 0 < length bytes) (small : length bytes < 4096)
    (accounted : IsAccounted s) (whole : length s.files ≡ num_buckets) where
  abbrev b0 : ℕ
  b0 = size_to_bucket (length bytes)

  fits : (b0 < num_buckets) × (length bytes ≤ bucket_to_length b0)
  fits = let (lt, le, _) = size_to_bucket_fits (length bytes) pos small in (lt, le)

  module _ (index : ℕ) (below : index < max_entries) where
    abbrev word : InitializedEntry
    word = slot_word bytes index

    word_fields :
        (InitializedEntry.size word ≡ length bytes) × (InitializedEntry.index word ≡ index)
    word_fields = let f = bucket_fields (length bytes) index pos small below in (f.0, f.1)

    held-word : (b j : ℕ) → held b j (bucketed word) ≡ (if b0 == b && index == j then 1 else 0)
    unfolding held
    held-word b j = rw (word_fields.0, word_fields.1) refl

    word-stored : (grow : Bool) → slot_bytes (files_filled b0 index grow bytes s.files) word ≡ bytes
    word-stored grow =
        let here : get_or (files_filled b0 index grow bytes s.files) b0 []
            ≡ filled b0 index grow bytes (get_or s.files b0 []) =
          ground
            (arith, get_or-files_filled b0 index grow bytes s.files b0 (omega (arith, fits.0))) in
        rw (word_fields.0, word_fields.1, here)
          (filled-stored b0 index grow bytes (get_or s.files b0 []))

    word-kept :
        (grow : Bool) (v : InitializedEntry)
        → 0 < InitializedEntry.size v
        → held (bucket_of v) (InitializedEntry.index v) (bucketed word) ≡ 0
        → slot_bytes (files_filled b0 index grow bytes s.files) v ≡ slot_bytes s.files v
    word-kept grow v posv apart =
        let got =
          get_or-files_filled b0 index grow bytes s.files (bucket_of v) (omega (arith, fits.0)) in
        elim (Bool-cases (b0 == bucket_of v)) [
          | inr other ↦
              let there : get_or (files_filled b0 index grow bytes s.files) (bucket_of v) []
                  ≡ get_or s.files (bucket_of v) [] =
                ground arith in
              rw there refl
          | inl same ↦
              let e : bucket_of v ≡ b0 = ground arith in
              let here : get_or (files_filled b0 index grow bytes s.files) b0 []
                  ≡ filled b0 index grow bytes (get_or s.files b0 []) =
                ground (
                  arith,
                  get_or-files_filled b0 index grow bytes s.files b0 (omega (arith, fits.0)),
                ) in
              let ne : InitializedEntry.index v ≢ index =
                λ q. absurd (ground (arith, held-word (bucket_of v) (InitializedEntry.index v))) in
              let le : InitializedEntry.size v ≤ bucket_to_length b0 =
                rw⁻¹ e (size_to_bucket_fits (InitializedEntry.size v) posv (size-lt v)).1 in
              rw (e, here)
                (filled-kept b0 index grow bytes (get_or s.files b0 []) (InitializedEntry.index v)
                  (InitializedEntry.size v) fits.1 ne le)
        ]

  free_below :
      (index : ℕ) (rest : List ℕ)
      → pop (free_list b0 s) ≡ some (index, rest)
      → index < get_or s.slot_counts b0 0
  unfolding owners
  free_below index rest h =
      ground
        (arith, count-pop index (free_list b0 s) index rest h, accounted.accounts b0 index fits.0)

  reused_accounts :
      (index : ℕ) (rest : List ℕ)
      → pop (free_list b0 s) ≡ some (index, rest)
      → (below : index < max_entries) → (b j : ℕ) → b < num_buckets
      → owners b j (after_fill b0 index false bytes (put_free_list b0 rest s))
          + held b j (bucketed (slot_word bytes index))
        ≡ (if ltb j (get_or s.slot_counts b 0) then 1 else 0)
  unfolding owners
  reused_accounts index rest h below b j lt = ground (
    arith,
    get_or-set s.free_lists b0 rest b [] (omega (arith, fits.0, accounted.lists)),
    count-pop j (free_list b0 s) index rest h,
    held-word index below b j,
    accounted.accounts b j lt,
  )

  reused_Allocated :
      (index : ℕ) (rest : List ℕ)
      → s.faults ≡ []
      → pop (free_list b0 s) ≡ some (index, rest)
      → (below : index < max_entries)
      → Allocated bytes s
          (slot_word bytes index)
          (after_fill b0 index false bytes (put_free_list b0 rest s))
  reused_Allocated index rest calm h below = record {
    proper = IsEntry-bucket (length bytes) index pos small below;
    rings = λ l. refl;
    directory = refl;
    calm = calm;
    accounts = reused_accounts index rest h below;
    lists = length-set s.free_lists b0 rest ∙ accounted.lists;
    counts = accounted.counts;
    files = length-files_filled b0 index false bytes s.files ∙ whole;
    stored = word-stored index below false;
    kept = word-kept index below false;
  }

  new_accounts :
      (below : get_or s.slot_counts b0 0 < max_entries) (b j : ℕ)
      → b < num_buckets
      → owners b j (after_fill b0 (get_or s.slot_counts b0 0) true bytes (counted b0 s))
          + held b j (bucketed (slot_word bytes (get_or s.slot_counts b0 0)))
        ≡ (if ltb j (get_or (set s.slot_counts b0 (get_or s.slot_counts b0 0 + 1)) b 0)
            then 1
            else 0)
  unfolding owners
  new_accounts below b j lt = ground (
    arith,
    get_or-set s.slot_counts b0 (get_or s.slot_counts b0 0 + 1) b 0
        (omega (arith, fits.0, accounted.counts)),
    held-word (get_or s.slot_counts b0 0) below b j,
    accounted.accounts b j lt,
  )

  new_Allocated :
      s.faults ≡ []
      → (below : get_or s.slot_counts b0 0 < max_entries)
      → Allocated bytes s
          (slot_word bytes (get_or s.slot_counts b0 0))
          (after_fill b0 (get_or s.slot_counts b0 0) true bytes (counted b0 s))
  new_Allocated calm below = record {
    proper = IsEntry-bucket (length bytes) (get_or s.slot_counts b0 0) pos small below;
    rings = λ l. refl;
    directory = refl;
    calm = calm;
    accounts = new_accounts below;
    lists = accounted.lists;
    counts = length-set s.slot_counts b0 (get_or s.slot_counts b0 0 + 1) ∙ accounted.counts;
    files = length-files_filled b0 (get_or s.slot_counts b0 0) true bytes s.files ∙ whole;
    stored = word-stored (get_or s.slot_counts b0 0) below true;
    kept = word-kept (get_or s.slot_counts b0 0) below true;
  }

-- `alloc_bucket` of 1 to 4095 bytes, where each slot has one owner, the class has fewer slots than a
-- ring may have entries and no system call fails, gives an entry whose slot held nothing before: a
-- free one, or a new one at the end. The slot has the data, the entry is its one owner, and no other
-- slot has lost its data or its owner.
pub alloc_bucket-Allocated :
    (bytes : Bytes) (s : Allocator)
    → 0 < length bytes
    → length bytes < 4096
    → s.faults ≡ []
    → IsAccounted s
    → length s.files ≡ num_buckets
    → get_or s.slot_counts (size_to_bucket (length bytes)) 0 < max_entries
    → (w : InitializedEntry) × (s' : Allocator) × (alloc_bucket bytes s ≡ (ok (bucketed w), s'))
      × Allocated bytes s w s'
alloc_bucket-Allocated bytes s pos small calm accounted whole bound =
    let b = size_to_bucket (length bytes) in
    elim (Option-cases (pop (free_list b s))) [
      | inl h ↦
          let index = get_or s.slot_counts b 0 in
          (
            slot_word bytes index,
            after_fill b index true bytes (counted b s),
            run_new bytes s calm h,
            new_Allocated bytes s pos small accounted whole calm bound,
          )
      | inr ((index, rest), h) ↦
          let below : index < max_entries =
            omega (arith, free_below bytes s pos small accounted whole index rest h, bound) in
          (
            slot_word bytes index,
            after_fill b index false bytes (put_free_list b rest s),
            run_reused bytes s index rest calm h,
            reused_Allocated bytes s pos small accounted whole index rest calm h below,
          )
    ]
