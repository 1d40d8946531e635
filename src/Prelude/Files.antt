-- ===== src/Prelude/Files.antt =====
-- Files as lists of bytes: the positioned reads and writes of the standard library and the
-- little-endian words that the database stores.
use Prim.Native.Nat.{ℕ, zero, suc, ◌+◌, ◌*◌, ◌/◌, ◌%◌, ◌^◌, ◌≤◌, ◌<◌, max}
use mathlib.Core.Path.{◌≡◌, refl}
use mathlib.Core.Logic.{◌⊎◌, inl, inr}
use mathlib.Core.List.{List, [], ◌∷◌, ◌++◌}
use native.Mathlib.Omega.{arith}
use clipboard_history.Prelude.Lists.{length, get_or}

abbrev pub Bytes : Type 0
Bytes = List ℕ

-- A byte of a mapped file. Past the end a mapped page reads as zero.
abbrev pub byte_at : Bytes → ℕ → ℕ
byte_at f i = get_or f i 0

overwrite : Bytes → Bytes → Bytes
overwrite f [] = f
overwrite [] (b ∷ bs) = b ∷ bs
overwrite (x ∷ f) (b ∷ bs) = b ∷ overwrite f bs

-- `write_all_at(bytes, offset)`; a gap past the end of the file is filled with zeros.
unfoldable pub write_at : Bytes → ℕ → Bytes → Bytes
unfolding overwrite
write_at f zero bs = overwrite f bs
write_at [] (suc off) bs = 0 ∷ write_at [] off bs
write_at (x ∷ f) (suc off) bs = x ∷ write_at f off bs

-- The `n` bytes from `off` on.
unfoldable pub read_at : Bytes → ℕ → ℕ → Bytes
read_at f off zero = []
read_at f off (suc n) = byte_at f off ∷ read_at f (off + 1) n

-- `u32::to_le_bytes`, `u32::from_le_bytes`; an item of a file stands for a byte, its remainder.
unfoldable pub to_le_bytes : ℕ → Bytes
to_le_bytes v = v % 256 ∷ (v / 2 ^ 8) % 256 ∷ (v / 2 ^ 16) % 256 ∷ (v / 2 ^ 24) % 256 ∷ []

unfoldable pub from_le_bytes : ℕ → ℕ → ℕ → ℕ → ℕ
from_le_bytes a b c d = a % 256 + (b % 256) * 2 ^ 8 + (c % 256) * 2 ^ 16 + (d % 256) * 2 ^ 24

unfoldable pub read_u32 : Bytes → ℕ → ℕ
unfolding from_le_bytes
read_u32 f off =
    from_le_bytes (byte_at f off) (byte_at f (off + 1)) (byte_at f (off + 2)) (byte_at f (off + 3))

length-overwrite : (f bs : Bytes) → length (overwrite f bs) ≡ max (length f) (length bs)
unfolding overwrite
length-overwrite f [] = omega arith
length-overwrite [] (b ∷ bs) = omega arith
length-overwrite (x ∷ f) (b ∷ bs) = omega (arith, length-overwrite f bs)

pub length-write_at :
    (f : Bytes) (off : ℕ) (bs : Bytes)
    → length (write_at f off bs) ≡ max (length f) (off + length bs)
unfolding write_at
length-write_at f zero bs = omega (arith, length-overwrite f bs)
length-write_at [] (suc off) bs = omega (arith, length-write_at [] off bs)
length-write_at (x ∷ f) (suc off) bs = omega (arith, length-write_at f off bs)

byte_at-overwrite_in :
    (f bs : Bytes) (i : ℕ) → i < length bs → byte_at (overwrite f bs) i ≡ byte_at bs i
unfolding overwrite
byte_at-overwrite_in f [] i h = absurd (omega arith)
byte_at-overwrite_in [] (b ∷ bs) i h = refl
byte_at-overwrite_in (x ∷ f) (b ∷ bs) zero h = refl
byte_at-overwrite_in (x ∷ f) (b ∷ bs) (suc i) h = byte_at-overwrite_in f bs i (omega arith)

byte_at-past : (f : Bytes) (i : ℕ) → length f ≤ i → byte_at f i ≡ 0
byte_at-past [] i h = refl
byte_at-past (x ∷ f) zero h = absurd (omega arith)
byte_at-past (x ∷ f) (suc i) h = byte_at-past f i (omega arith)

byte_at-overwrite_past :
    (f bs : Bytes) (i : ℕ) → length bs ≤ i → byte_at (overwrite f bs) i ≡ byte_at f i
unfolding overwrite
byte_at-overwrite_past f [] i h = refl
byte_at-overwrite_past [] (b ∷ bs) i h = byte_at-past (b ∷ bs) i h
byte_at-overwrite_past (x ∷ f) (b ∷ bs) zero h = absurd (omega arith)
byte_at-overwrite_past (x ∷ f) (b ∷ bs) (suc i) h = byte_at-overwrite_past f bs i (omega arith)

-- A write is read back.
pub byte_at-write_at_in :
    (f : Bytes) (off : ℕ) (bs : Bytes) (i j : ℕ)
    → i < length bs
    → j ≡ off + i
    → byte_at (write_at f off bs) j ≡ byte_at bs i
unfolding write_at
byte_at-write_at_in f zero bs i j h e =
    let e' : j ≡ i = omega arith in rw e' (byte_at-overwrite_in f bs i h)
byte_at-write_at_in f (suc off) bs i zero h e = absurd (omega arith)
byte_at-write_at_in [] (suc off) bs i (suc j) h e =
    byte_at-write_at_in [] off bs i j h (omega arith)
byte_at-write_at_in (x ∷ f) (suc off) bs i (suc j) h e =
    byte_at-write_at_in f off bs i j h (omega arith)

-- A write changes nothing outside its range.
pub byte_at-write_at_out :
    (f : Bytes) (off : ℕ) (bs : Bytes) (j : ℕ)
    → (j < off) ⊎ (off + length bs ≤ j)
    → byte_at (write_at f off bs) j ≡ byte_at f j
unfolding write_at
byte_at-write_at_out f zero bs j h = byte_at-overwrite_past f bs j (omega arith)
byte_at-write_at_out [] (suc off) bs zero h = refl
byte_at-write_at_out [] (suc off) bs (suc j) h = byte_at-write_at_out [] off bs j (below j h)
  where
    below :
        (j : ℕ)
        → (suc j < suc off) ⊎ (suc off + length bs ≤ suc j)
        → (j < off) ⊎ (off + length bs ≤ j)
    below j (inl a) = inl (omega arith)
    below j (inr b) = inr (omega arith)
byte_at-write_at_out (x ∷ f) (suc off) bs zero h = refl
byte_at-write_at_out (x ∷ f) (suc off) bs (suc j) h = byte_at-write_at_out f off bs j (below j h)
  where
    below :
        (j : ℕ)
        → (suc j < suc off) ⊎ (suc off + length bs ≤ suc j)
        → (j < off) ⊎ (off + length bs ≤ j)
    below j (inl a) = inl (omega arith)
    below j (inr b) = inr (omega arith)

pub read_u32-lt : (f : Bytes) (off : ℕ) → read_u32 f off < 2 ^ 32
unfolding read_u32
read_u32-lt f off = omega arith

pub read_u32-write_at_self :
    (f : Bytes) (off v : ℕ) → v < 2 ^ 32 → read_u32 (write_at f off (to_le_bytes v)) off ≡ v
unfolding read_u32 to_le_bytes
read_u32-write_at_self f off v h = omega (
  arith,
  byte_at-write_at_in f off (to_le_bytes v) 0 off (omega arith) (omega arith),
  byte_at-write_at_in f off (to_le_bytes v) 1 (off + 1) (omega arith) (omega arith),
  byte_at-write_at_in f off (to_le_bytes v) 2 (off + 2) (omega arith) (omega arith),
  byte_at-write_at_in f off (to_le_bytes v) 3 (off + 3) (omega arith) (omega arith),
)

pub read_u32-write_at_other :
    (f : Bytes) (off v at : ℕ)
    → (at + 4 ≤ off) ⊎ (off + 4 ≤ at)
    → read_u32 (write_at f off (to_le_bytes v)) at ≡ read_u32 f at
unfolding read_u32 to_le_bytes
read_u32-write_at_other f off v at h = omega (
  arith,
  byte_at-write_at_out f off (to_le_bytes v) at (apart at (omega arith) (omega arith)),
  byte_at-write_at_out f off (to_le_bytes v) (at + 1) (apart (at + 1) (omega arith) (omega arith)),
  byte_at-write_at_out f off (to_le_bytes v) (at + 2) (apart (at + 2) (omega arith) (omega arith)),
  byte_at-write_at_out f off (to_le_bytes v) (at + 3) (apart (at + 3) (omega arith) (omega arith)),
)
  where
    apart : (j : ℕ) → at ≤ j → j < at + 4 → (j < off) ⊎ (off + 4 ≤ j)
    apart j lo hi = elim h [ inl a ↦ inl (omega arith) | inr b ↦ inr (omega arith) ]

-- A write at the end of a file appends.
pub write_at-append : (f bs : Bytes) → write_at f (length f) bs ≡ f ++ bs
unfolding write_at overwrite
write_at-append [] [] = refl
write_at-append [] (b ∷ bs) = refl
write_at-append (x ∷ f) bs = rw (write_at-append f bs)
