-- ===== src/SetValue/Examples.antt =====
-- Runs of database/src/set.rs on concrete sets.
use redvector.Base.{◌≡◌, refl, true, [], ◌∷◌, codes, eq_bytes}
use redvector.Dbutil.{vec_to_usize, usize_to_vec}
use redvector.Decimal.{to_string, parse_usize}
use redvector.Utf8.{is_utf8}
use redvector.Base.{◌++◌, ◌^◌, returns, panics}
use redvector.Decimal.{parse_i64}
use redvector.Rdb.{encode_len, encode_slice_u8, encode_u16_to_slice_u8, encode_u32_to_slice_u8}
use redvector.SetValue.Dump.{dump}
use redvector.SetValue.{
  ValueSet, integer, data_, new, create_with_hashset, sadd, sdiff, sinter, sunion,
}

abbrev two_numbers : ValueSet
two_numbers = integer (123 ∷ 456 ∷ [])

conversions :
    (sadd new (codes "7") 100 ≡ (integer (7 ∷ []), true))
    × (sadd two_numbers (codes "foo") 100
        ≡ (data_ (codes "foo" ∷ codes "123" ∷ codes "456" ∷ []), true))
    × (sadd two_numbers (codes "7") 2 ≡ (data_ (codes "7" ∷ codes "123" ∷ codes "456" ∷ []), true))
    × (create_with_hashset (codes "1" ∷ codes "2" ∷ []) ≡ integer (2 ∷ 1 ∷ []))
    × (create_with_hashset (codes "1" ∷ codes "x" ∷ []) ≡ data_ (codes "1" ∷ codes "x" ∷ []))
unfolding sadd create_with_hashset vec_to_usize usize_to_vec is_utf8 parse_usize to_string
conversions = (refl, refl, refl, refl, refl)

algebra :
    (sdiff two_numbers (data_ (codes "123" ∷ codes "x" ∷ []) ∷ []) ≡ codes "456" ∷ [])
    × (sinter two_numbers (data_ (codes "123" ∷ codes "x" ∷ []) ∷ []) ≡ codes "123" ∷ [])
    × (sunion (data_ (codes "x" ∷ [])) (integer (9 ∷ []) ∷ []) ≡ codes "9" ∷ codes "x" ∷ [])
unfolding sdiff sinter sunion vec_to_usize usize_to_vec is_utf8 parse_usize to_string eq_bytes
algebra = (refl, refl, refl)

-- The dump of an intset and of a data set, and the panic on an element above 32 bits.
dumps :
    (dump (integer (1 ∷ []))
      ≡ returns (11 ∷ 10 ∷ 2 ∷ 0 ∷ 0 ∷ 0 ∷ 1 ∷ 0 ∷ 0 ∷ 0 ∷ 1 ∷ 0 ∷ 7 ∷ 0 ∷ []))
    × (dump (data_ (codes "foo" ∷ [])) ≡ returns (2 ∷ 1 ∷ 3 ∷ codes "foo" ++ 7 ∷ 0 ∷ []))
    × (dump (integer (2 ^ 32 ∷ [])) ≡ panics)
unfolding dump encode_len encode_slice_u8 encode_u16_to_slice_u8 encode_u32_to_slice_u8 is_utf8
    parse_i64
dumps = (refl, refl, refl)
