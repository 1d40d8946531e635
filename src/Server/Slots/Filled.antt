-- ===== src/Server/Slots/Filled.antt =====
-- server/src/allocator.rs: what the writes of `alloc_bucket` leave in the bucket files.
use clipboard_history.Prelude.{
  ℕ, zero, suc, ◌+◌, ◌-◌, ◌*◌, ◌≤◌, ◌<◌, ◌≡◌, ◌≢◌, ◌⊎◌, refl, ◌∙◌, ap, Bool, List, [], ◌∷◌, ok,
  length, length-set, get_or, set, get_or-set, arith, ltb, ltb→lt, if◌then◌else◌, Bool-cases, inl,
  inr, ◌==◌,
}
use clipboard_history.Prelude.Files.{
  Bytes, byte_at, write_at, read_at, byte_at-write_at_in, byte_at-write_at_out,
}
use clipboard_history.Core.Buckets.{bucket_to_length}
use clipboard_history.Server.Store.{Allocator, copy_bucket, write_nul}
use clipboard_history.Server.Store.Laws.{syscall-ok}
use clipboard_history.Server.Slots.{fill_slot, copy_into}

-- Where the NUL byte goes.
abbrev nul_at : ℕ → ℕ → Bool → Bytes → ℕ
nul_at bucket index grow bytes =
    let len = bucket_to_length bucket in
    if grow then (index + 1) * len - 1 else index * len + length bytes

abbrev copied : ℕ → ℕ → Bytes → List Bytes → List Bytes
copied bucket index bytes files =
    set files bucket (copy_into bytes (get_or files bucket []) (index * bucket_to_length bucket))

-- The bucket files behind `fill_slot`.
unfoldable pub files_filled : ℕ → ℕ → Bool → Bytes → List Bytes → List Bytes
files_filled bucket index grow bytes files =
    let fs = copied bucket index bytes files in
    if ltb (length bytes) (bucket_to_length bucket)
    then set fs bucket (write_at (get_or fs bucket []) (nul_at bucket index grow bytes) (0 ∷ []))
    else fs

abbrev pub after_fill : ℕ → ℕ → Bool → Bytes → Allocator → Allocator
after_fill bucket index grow bytes s = record s {
  files = files_filled bucket index grow bytes s.files;
}

pub fill_slot-after_fill :
    (bucket index : ℕ) (grow : Bool) (bytes : Bytes) (s : Allocator)
    → s.faults ≡ []
    → fill_slot bucket index grow bytes s ≡ (ok tt, after_fill bucket index grow bytes s)
unfolding fill_slot files_filled
fill_slot-after_fill bucket index grow bytes s calm = ground (
  arith,
  syscall-ok copy_bucket s calm,
  syscall-ok write_nul (record s { files = copied bucket index bytes s.files }) calm,
)

-- The bucket file behind `fill_slot`.
unfoldable pub filled : ℕ → ℕ → Bool → Bytes → Bytes → Bytes
filled bucket index grow bytes f =
    let len = bucket_to_length bucket in
    let g = copy_into bytes f (index * len) in
    if ltb (length bytes) len then write_at g (nul_at bucket index grow bytes) (0 ∷ []) else g

byte_at-copy_into_in :
    (bytes f : Bytes) (off i j : ℕ)
    → i < length bytes
    → j ≡ off + i
    → byte_at (copy_into bytes f off) j ≡ byte_at bytes i
byte_at-copy_into_in [] f off i j h e = absurd (omega arith)
byte_at-copy_into_in (b ∷ bs) f off i j h e = byte_at-write_at_in f off (b ∷ bs) i j h e

byte_at-copy_into_out :
    (bytes f : Bytes) (off j : ℕ)
    → (j < off) ⊎ (off + length bytes ≤ j)
    → byte_at (copy_into bytes f off) j ≡ byte_at f j
byte_at-copy_into_out [] f off j h = refl
byte_at-copy_into_out (b ∷ bs) f off j h = byte_at-write_at_out f off (b ∷ bs) j h

-- The end of a slot lies a slot's length behind its start.
slot_end : (index len : ℕ) → (index + 1) * len ≡ index * len + len
slot_end index len = omega arith

nul_within :
    (bucket index : ℕ) (grow : Bool) (bytes : Bytes)
    → length bytes < bucket_to_length bucket
    → (index * bucket_to_length bucket + length bytes ≤ nul_at bucket index grow bytes)
      × (nul_at bucket index grow bytes < index * bucket_to_length bucket + bucket_to_length bucket)
nul_within bucket index grow bytes h = ground (arith, slot_end index (bucket_to_length bucket))

byte_at-filled_in :
    (bucket index : ℕ) (grow : Bool) (bytes f : Bytes) (i : ℕ)
    → i < length bytes
    → byte_at (filled bucket index grow bytes f) (index * bucket_to_length bucket + i)
      ≡ byte_at bytes i
unfolding filled
byte_at-filled_in bucket index grow bytes f i h =
    let len = bucket_to_length bucket in
    let g = copy_into bytes f (index * len) in
    elim (Bool-cases (ltb (length bytes) len)) [
      | inr full ↦ rw full (byte_at-copy_into_in bytes f (index * len) i (index * len + i) h refl)
      | inl part ↦
          let (lo, hi) = nul_within bucket index grow bytes (ltb→lt (length bytes) len part) in
          rw part (
            byte_at-write_at_out g (nul_at bucket index grow bytes) (0 ∷ []) (index * len + i)
              (inl (omega arith))
            ∙ byte_at-copy_into_in bytes f (index * len) i (index * len + i) h refl)
    ]

-- Nothing outside the slot changes.
byte_at-filled_out :
    (bucket index : ℕ) (grow : Bool) (bytes f : Bytes) (j : ℕ)
    → length bytes ≤ bucket_to_length bucket
    → (j < index * bucket_to_length bucket)
      ⊎ (index * bucket_to_length bucket + bucket_to_length bucket ≤ j)
    → byte_at (filled bucket index grow bytes f) j ≡ byte_at f j
unfolding filled
byte_at-filled_out bucket index grow bytes f j fits out =
    let len = bucket_to_length bucket in
    let g = copy_into bytes f (index * len) in
    let off = nul_at bucket index grow bytes in
    let before : byte_at g j ≡ byte_at f j =
      byte_at-copy_into_out bytes f (index * len) j (clear out) in
    elim (Bool-cases (ltb (length bytes) len)) [
      | inr full ↦ rw full before
      | inl part ↦
          let (lo, hi) = nul_within bucket index grow bytes (ltb→lt (length bytes) len part) in
          rw part (byte_at-write_at_out g off (0 ∷ []) j (beyond off lo hi out) ∙ before)
    ]
  where
    clear :
        (j < index * bucket_to_length bucket)
          ⊎ (index * bucket_to_length bucket + bucket_to_length bucket ≤ j)
        → (j < index * bucket_to_length bucket)
          ⊎ (index * bucket_to_length bucket + length bytes ≤ j)
    clear (inl a) = inl a
    clear (inr b) = inr (omega arith)

    beyond :
        (off : ℕ)
        → index * bucket_to_length bucket + length bytes ≤ off
        → off < index * bucket_to_length bucket + bucket_to_length bucket
        → (j < index * bucket_to_length bucket)
          ⊎ (index * bucket_to_length bucket + bucket_to_length bucket ≤ j)
        → (j < off) ⊎ (off + 1 ≤ j)
    beyond off lo hi (inl a) = inl (omega arith)
    beyond off lo hi (inr b) = inr (omega arith)

read_at-eq :
    (f g : Bytes) (off off' n : ℕ)
    → ((i : ℕ) → i < n → byte_at f (off + i) ≡ byte_at g (off' + i))
    → read_at f off n ≡ read_at g off' n
unfolding read_at
read_at-eq f g off off' zero h = refl
read_at-eq f g off off' (suc n) h = cons_eq (first (h 0 (omega arith))) (
    read_at-eq f g (off + 1) (off' + 1) n (λ i lt.
      ap (byte_at f) (omega arith) ∙ h (i + 1) (omega arith) ∙ ap (byte_at g) (omega arith)))
  where
    first : byte_at f (off + 0) ≡ byte_at g (off' + 0) → byte_at f off ≡ byte_at g off'
    first e = ap (byte_at f) (omega arith) ∙ e ∙ ap (byte_at g) (omega arith)

    cons_eq : {x y : ℕ} {xs ys : Bytes} → x ≡ y → xs ≡ ys → (x ∷ xs) ≡ (y ∷ ys)
    cons_eq e e' = cc (e, e')

read_at_all : (bytes : Bytes) → read_at bytes 0 (length bytes) ≡ bytes
unfolding read_at
read_at_all [] = refl
read_at_all (b ∷ bs) = shift (read_at_all bs)
  where
    shift : read_at bs 0 (length bs) ≡ bs → (b ∷ read_at (b ∷ bs) (0 + 1) (length bs)) ≡ (b ∷ bs)
    shift e = ap (λ xs. b ∷ xs) (read_at-eq (b ∷ bs) bs (0 + 1) 0 (length bs) next ∙ e)
      where
        next : (i : ℕ) → i < length bs → byte_at (b ∷ bs) (0 + 1 + i) ≡ byte_at bs (0 + i)
        next i h =
            let e1 : 0 + 1 + i ≡ suc i = omega arith in
            let e2 : 0 + i ≡ i = omega arith in rw (e1, e2) refl

-- The data stands in the slot.
pub filled-stored :
    (bucket index : ℕ) (grow : Bool) (bytes f : Bytes)
    → read_at (filled bucket index grow bytes f) (bucket_to_length bucket * index) (length bytes)
      ≡ bytes
filled-stored bucket index grow bytes f =
    read_at-eq (filled bucket index grow bytes f) bytes (bucket_to_length bucket * index) 0
      (length bytes)
      (λ i h.
        ap (byte_at (filled bucket index grow bytes f)) (omega arith)
        ∙ byte_at-filled_in bucket index grow bytes f i h
        ∙ ap (byte_at bytes) (omega arith))
    ∙ read_at_all bytes

slot_before : (len low high : ℕ) → low < high → low * len + len ≤ high * len
slot_before len low high h = expand (high - low - 1) (omega arith)
  where
    expand : (d : ℕ) → high ≡ low + 1 + d → low * len + len ≤ high * len
    expand d e = rw e (omega arith)

slots_apart :
    (len index index' i n : ℕ)
    → index' ≢ index
    → i < n
    → n ≤ len
    → (len * index' + i < index * len) ⊎ (index * len + len ≤ len * index' + i)
slots_apart len index index' i n ne lt le = elim (Bool-cases (ltb index' index)) [
  | inl low ↦ inl (omega (arith, slot_before len index' index (ltb→lt index' index low)))
  | inr h ↦
      let high : index < index' = ground arith in
      inr (omega (arith, slot_before len index index' high))
]

-- Every other slot of the file keeps its data.
pub filled-kept :
    (bucket index : ℕ) (grow : Bool) (bytes f : Bytes) (index' n : ℕ)
    → length bytes ≤ bucket_to_length bucket
    → index' ≢ index
    → n ≤ bucket_to_length bucket
    → read_at (filled bucket index grow bytes f) (bucket_to_length bucket * index') n
      ≡ read_at f (bucket_to_length bucket * index') n
filled-kept bucket index grow bytes f index' n fits ne le =
    read_at-eq (filled bucket index grow bytes f) f (bucket_to_length bucket * index')
      (bucket_to_length bucket * index') n
      (λ i h.
        byte_at-filled_out bucket index grow bytes f (bucket_to_length bucket * index' + i) fits
          (slots_apart (bucket_to_length bucket) index index' i n ne h le))

-- One of the bucket files is filled.
pub get_or-files_filled :
    (bucket index : ℕ) (grow : Bool) (bytes : Bytes) (files : List Bytes) (b : ℕ)
    → bucket < length files
    → get_or (files_filled bucket index grow bytes files) b [] ≡ (
        if bucket == b
        then filled bucket index grow bytes (get_or files bucket [])
        else get_or files b [])
unfolding files_filled filled
get_or-files_filled bucket index grow bytes files b h =
    let g = copy_into bytes (get_or files bucket []) (index * bucket_to_length bucket) in
    ground (
      arith,
      get_or-set files bucket g b [] h,
      get_or-set files bucket g bucket [] h,
      get_or-set (set files bucket g) bucket (write_at g (nul_at bucket index grow bytes) (0 ∷ []))
          b [],
      length-set files bucket g,
    )

pub length-files_filled :
    (bucket index : ℕ) (grow : Bool) (bytes : Bytes) (files : List Bytes)
    → length (files_filled bucket index grow bytes files) ≡ length files
unfolding files_filled
length-files_filled bucket index grow bytes files =
    let fs = copied bucket index bytes files in
    let same : length fs ≡ length files =
      length-set files bucket
        (copy_into bytes (get_or files bucket []) (index * bucket_to_length bucket)) in
    elim (Bool-cases (ltb (length bytes) (bucket_to_length bucket))) [
      | inr h ↦ rw h same
      | inl h ↦ rw h (
          length-set fs bucket
            (write_at (get_or fs bucket []) (nul_at bucket index grow bytes) (0 ∷ []))
          ∙ same)
    ]
