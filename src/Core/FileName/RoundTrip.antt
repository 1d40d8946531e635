-- ===== src/Core/FileName/RoundTrip.antt =====
-- The name of a direct allocation gives the identifier back.
use clipboard_history.Prelude.{
  ℕ, zero, suc, ◌+◌, ◌-◌, ◌/◌, ◌%◌, ◌^◌, ◌≤◌, ◌<◌, ◌≡◌, ◌≢◌, refl, ◌∙◌, ap, some, [], ◌∷◌, ◌++◌,
  length, replicate, arith, length-append, length-replicate,
}
use native.Mathlib.Nat.{pow-suc}
use clipboard_history.Prelude.Files.{Bytes}
use clipboard_history.Core.Protocol.{RingKind, favorites, main, composite_id}
use clipboard_history.Core.Protocol.Ids.{composite_id_sum, decompose_id-composite_id}
use clipboard_history.Core.FileName.{
  direct_file_name_len, decimal_loop, direct_file_name, scan, parse_u64,
  entry_id_from_direct_file_name,
}

-- Reading the last digit of a number after the digits before it gives the number.
scan_last : (n : ℕ) (out : Bytes) → n < 2 ^ 64 → scan ((b'0' + n % 10) ∷ out) (n / 10) ≡ scan out n
unfolding scan
scan_last n out h = ground arith

scan-decimal_loop :
    (fuel n : ℕ) (out : Bytes)
    → n < 10 ^ fuel
    → 0 < fuel
    → n < 2 ^ 64
    → scan (decimal_loop fuel n out) 0 ≡ scan out n
unfolding decimal_loop
scan-decimal_loop zero n out h pos w = absurd (omega arith)
scan-decimal_loop (suc zero) n out h pos w =
    let e : n / 10 ≡ 0 = omega arith in ground (arith, scan_last n out w)
scan-decimal_loop (suc (suc fuel)) n out h pos w = ground (
  arith,
  pow-suc 10 (suc fuel),
  scan_last n out w,
  scan-decimal_loop (suc fuel) (n / 10) ((b'0' + n % 10) ∷ out),
)

scan_zeros : (k : ℕ) (s : Bytes) → scan (replicate k b'0' ++ s) 0 ≡ scan s 0
unfolding scan
scan_zeros zero s = refl
scan_zeros (suc k) s = scan_zeros k s

length-decimal_loop :
    (m fuel n : ℕ) (out : Bytes)
    → n < 10 ^ m
    → 0 < m
    → length (decimal_loop fuel n out) ≤ m + length out
unfolding decimal_loop
length-decimal_loop m zero n out h pos = omega arith
length-decimal_loop zero (suc fuel) n out h pos = absurd (omega arith)
length-decimal_loop (suc zero) (suc fuel) n out h pos = ground arith
length-decimal_loop (suc (suc m)) (suc fuel) n out h pos =
    ground
      (arith, pow-suc 10 (suc m), length-decimal_loop (suc m) fuel (n / 10) ((b'0' + n % 10) ∷ out))

-- Text that begins with a digit is scanned whole.
parse_u64-scan : (c : ℕ) (s : Bytes) → c ≢ b'+' → parse_u64 (c ∷ s) ≡ scan (c ∷ s) 0
unfolding parse_u64
parse_u64-scan c [] h = refl
parse_u64-scan c (d ∷ s) h = ground arith

-- A number with zeros in front is read as the number.
parse_padded : (k : ℕ) (s : Bytes) → 0 < k → parse_u64 (replicate k b'0' ++ s) ≡ scan s 0
parse_padded zero s h = absurd (omega arith)
parse_padded (suc k) s h =
    parse_u64-scan b'0' (replicate k b'0' ++ s) (omega arith) ∙ scan_zeros (suc k) s

composite_id-lt : (k : RingKind) (i : ℕ) → i < 2 ^ 32 → composite_id k i < 2 ^ 33
composite_id-lt favorites i h = omega (arith, composite_id_sum favorites i h)
composite_id-lt main i h = omega (arith, composite_id_sum main i h)

-- The name of a direct allocation has 13 bytes, so that it fills its buffer and the reader's array,
-- and reads back as the entry's composite identifier: for every ring and every index of 32 bits.
pub direct_file_name_round_trip :
    (k : RingKind) (i : ℕ)
    → i < 2 ^ 32
    → (length (direct_file_name k i) ≡ direct_file_name_len)
      × (entry_id_from_direct_file_name (direct_file_name k i) ≡ some (composite_id k i))
unfolding direct_file_name entry_id_from_direct_file_name
direct_file_name_round_trip k i h =
    let id = composite_id k i in
    let small : length (decimal_loop 20 id []) ≤ 10 = omega (
      arith,
      length-decimal_loop 10 20 id [] (omega (arith, composite_id-lt k i h)) (omega arith),
    ) in
    (
      omega (
        arith,
        length-append (replicate (13 - length (decimal_loop 20 id [])) b'0')
            (decimal_loop 20 id []),
        length-replicate {A = ℕ} (13 - length (decimal_loop 20 id [])) b'0',
      ),
      parse_padded (13 - length (decimal_loop 20 id [])) (decimal_loop 20 id []) (omega arith)
          ∙ scan-decimal_loop 20 id [] (omega (arith, composite_id-lt k i h)) (omega arith)
              (omega (arith, composite_id-lt k i h))
          ∙ unfold scan in refl,
    )

-- Different entries have different names.
pub direct_file_name-injective :
    (k l : RingKind) (i j : ℕ)
    → i < 2 ^ 32
    → j < 2 ^ 32
    → direct_file_name k i ≡ direct_file_name l j
    → (k ≡ l) × (i ≡ j)
direct_file_name-injective k l i j hi hj e =
    ground (arith, same, decompose_id-composite_id k i hi, decompose_id-composite_id l j hj)
  where
    same : composite_id k i ≡ composite_id l j
    same = cc (
      ap entry_id_from_direct_file_name e,
      (direct_file_name_round_trip k i hi).1,
      (direct_file_name_round_trip l j hj).1,
    )
