-- ===== src/Core/FileName.antt =====
-- The names of direct allocations: core/src/utils.rs writes an identifier in decimal, padded to 13
-- digits; client-sdk/src/search.rs reads it back.
pub mod RoundTrip
use clipboard_history.Prelude.{
  ℕ, zero, suc, ◌+◌, ◌-◌, ◌*◌, ◌/◌, ◌%◌, ◌^◌, Option, none, some, List, [], ◌∷◌, ◌++◌, ◌||◌, length,
  replicate, ltb, leb, ◌==◌, if◌then◌else◌,
}
use clipboard_history.Prelude.Files.{Bytes}
use clipboard_history.Core.Protocol.{RingKind, composite_id}

abbrev pub direct_file_name_len : ℕ
direct_file_name_len = 13

-- The digits of a number, least significant first into `out`. A word of 64 bits has 20 at most.
decimal_loop : ℕ → ℕ → Bytes → Bytes
decimal_loop zero n out = out
decimal_loop (suc fuel) n out =
    let out' = (b'0' + n % 10) ∷ out in
    let rest = decimal_loop fuel (n / 10) out' in if n / 10 == 0 then out' else rest

decimal : ℕ → Bytes
unfolding decimal_loop
decimal n = decimal_loop 20 n []

-- `{:0>13}`
unfoldable pub direct_file_name : RingKind → ℕ → Bytes
unfolding decimal
direct_file_name to index =
    let digits = decimal (composite_id to index) in
    replicate (direct_file_name_len - length digits) b'0' ++ digits

-- The loop of `u64::from_str`, with its overflow test.
scan : Bytes → ℕ → Option ℕ
scan [] n = some n
scan (c ∷ s) n =
    let d = c - b'0' in
    if ltb c b'0' || ltb b'9' c
    then none
    else if leb (2 ^ 64) (n * 10 + d)
    then none
    else scan s (n * 10 + d)

-- `u64::from_str`: digits, with one leading `+` at most. What is no UTF-8 is no number either.
unfoldable pub parse_u64 : Bytes → Option ℕ
unfolding scan
parse_u64 [] = none
parse_u64 (c ∷ []) = scan (c ∷ []) 0
parse_u64 (c ∷ d ∷ s) = if c == b'+' then scan (d ∷ s) 0 else scan (c ∷ d ∷ s) 0

-- `entry_id_from_direct_file_name`; `none` is `Not a Ringboard database.`
unfoldable pub entry_id_from_direct_file_name : Bytes → Option ℕ
unfolding parse_u64
entry_id_from_direct_file_name name = parse_u64 name
