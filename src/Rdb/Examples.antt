-- ===== src/Rdb/Examples.antt =====
-- Runs of database/rdbutil/src/lib.rs on concrete inputs: those of its tests, and more.
use redvector.Base.{
  ◌≡◌, ◌<◌, ◌↔◌, refl, true, some, [], ◌∷◌, ◌++◌, Bytes, codes, returns, panics, ok, err, pos,
  negsuc, arith, ℤ,
}
use redvector.Decimal.{parse_i64, to_string_i64}
use redvector.Utf8.{is_utf8}
use redvector.Rdb.{
  encode_i64, encode_usize, encode_len, encode_slice_u8, overflow_error, max_u32, as_integer,
}
use redvector.Rdb.Decoder.{read_len, read_string}
use redvector.Rdb.Lengths.{encode_len-panics, read_len-encode_len}
use redvector.Rdb.Integers.{encode_i64-overflow, IsI32}
use redvector.Rdb.Strings.{stored, read_string-encode_slice_u8, stored-canonical}

integers :
    (encode_i64 (pos 1) [] ≡ ok (192 ∷ 1 ∷ []))
    × (encode_i64 (pos 260) [] ≡ ok (193 ∷ 4 ∷ 1 ∷ []))
    × (encode_i64 (pos 70000) [] ≡ ok (194 ∷ b'p' ∷ 17 ∷ 1 ∷ 0 ∷ []))
    × (encode_i64 (negsuc 1) [] ≡ ok (192 ∷ 254 ∷ []))
    × (encode_usize 18446744073709551615 [] ≡ err overflow_error)
unfolding encode_i64 encode_usize
integers = (refl, refl, refl, refl, refl)

slices :
    (encode_slice_u8 (codes "1") [] true ≡ returns (192 ∷ 1 ∷ []))
    × (encode_slice_u8 (codes "hello world") [] true ≡ returns (11 ∷ codes "hello world"))
unfolding encode_slice_u8 encode_i64 encode_len parse_i64 is_utf8
slices = (refl, refl)

-- The bytes `007` are stored as the number 7.
leading_zeros : stored (codes "007") true ≡ codes "7"
unfolding is_utf8 parse_i64 to_string_i64
leading_zeros = refl

encode_len-panics_example : (encode_len 4294967296 [] ≡ panics) ↔ (max_u32 < 4294967296)
encode_len-panics_example = encode_len-panics 4294967296 []

read_len-encode_len_example :
    (out : Bytes) × (encode_len 300 (9 ∷ []) ≡ returns (9 ∷ out))
    × ((rest : Bytes) → read_len (out ++ rest) ≡ some (300, rest))
read_len-encode_len_example = read_len-encode_len 300 (9 ∷ []) (omega arith)

encode_i64-overflow_example :
    (encode_i64 (pos 2147483648) [] ≡ err overflow_error) ↔ (¬ IsI32 (pos 2147483648))
encode_i64-overflow_example = encode_i64-overflow (pos 2147483648) []

read_string-encode_slice_u8_example :
    (out : Bytes) × (encode_slice_u8 (codes "-42") [] true ≡ returns out)
    × ((rest : Bytes) → read_string (out ++ rest) ≡ some (stored (codes "-42") true, rest))
read_string-encode_slice_u8_example =
    read_string-encode_slice_u8 (codes "-42") [] true (omega arith)

forty_two : (i : ℤ) → as_integer (codes "-42") ≡ some i → to_string_i64 i ≡ codes "-42"
unfolding is_utf8 parse_i64 to_string_i64
forty_two (pos n) h = cc
forty_two (negsuc n) h = let e : 41 ≡ n = ground (arith, h) in rw (← e)

stored-canonical_example : stored (codes "-42") true ≡ codes "-42"
stored-canonical_example = stored-canonical (codes "-42") true forty_two
