-- ===== src/ListValue/Examples.antt =====
-- Runs of database/src/list.rs on concrete lists.
use redvector.Base.{
  ◌≡◌, refl, true, false, some, [], ◌∷◌, reverse, Bytes, codes, returns, panics, pos, negsuc, ◌+ℤ◌,
  drop, min, map, arith,
}
use redvector.Dbutil.{normalize_position}
use redvector.ListValue.{ValueList, lrange, lrem, ltrim}
use redvector.ListValue.Ends.{Lacks}
use redvector.ListValue.Ranges.{resolve, between}
use redvector.ListValue.Windows.{lrange-between, ltrim-between, reversed_range}
use redvector.ListValue.Dump.{dump, read_dump, read_dump-dump}
use redvector.Rdb.{encode_slice_u8, encode_len, encode_i64}
use redvector.Rdb.Strings.{stored}
use redvector.Decimal.{parse_i64}
use redvector.Utf8.{is_utf8}
use redvector.ListValue.Removal.{without, occurrences, budget_of, lrem_lem}

-- The elements 0 to 4, a byte each.
abbrev five : ValueList
five = (0 ∷ []) ∷ (1 ∷ []) ∷ (2 ∷ []) ∷ (3 ∷ []) ∷ (4 ∷ []) ∷ []

middle : lrange five (pos 1) (negsuc 1) ≡ (1 ∷ []) ∷ (2 ∷ []) ∷ (3 ∷ []) ∷ []
unfolding lrange normalize_position
middle = refl

trims :
    (ltrim five (negsuc 999) (pos 1000) ≡ returns five)
    × (ltrim five (pos 2) (pos 100) ≡ returns ((2 ∷ []) ∷ (3 ∷ []) ∷ (4 ∷ []) ∷ []))
    × (ltrim five (pos 0) (negsuc 999) ≡ returns [])
unfolding ltrim normalize_position
trims = (refl, refl, refl)

-- `LTRIM key 4 1` and `LRANGE key 4 1`.
reversed : (lrange five (pos 4) (pos 1) ≡ (4 ∷ []) ∷ []) × (ltrim five (pos 4) (pos 1) ≡ panics)
unfolding lrange ltrim normalize_position
reversed = (refl, refl)

five-Lacks : Lacks (9 ∷ []) five
five-Lacks = (λ e. cc e, (λ e. cc e, (λ e. cc e, (λ e. cc e, (λ e. cc e, tt)))))

lrange-between_example :
    lrange five (pos 1) (pos 9) ≡ between 0 (resolve (pos 1) 5) (resolve (pos 9) 5) five
unfolding ◌+ℤ◌
lrange-between_example = lrange-between five (pos 1) (pos 9) (omega arith) (omega arith)

ltrim-between_example :
    ltrim five (negsuc 1) (negsuc 0)
    ≡ returns (between 0 (resolve (negsuc 1) 5) (resolve (negsuc 0) 5) five)
unfolding ◌+ℤ◌
ltrim-between_example = ltrim-between five (negsuc 1) (negsuc 0) (omega arith) (omega arith)

reversed_range_example :
    (lrange five (pos 4) (pos 1) ≡ drop 4 five) × (ltrim five (pos 4) (pos 1) ≡ panics)
unfolding normalize_position
reversed_range_example =
    reversed_range five (pos 4) (pos 1) 4 1 (omega arith) refl refl (omega arith)

lrem_lem_example :
    (lrem five true 1 (2 ∷ []) ≡ (
      without (budget_of 1 five) (2 ∷ []) five,
      min (budget_of 1 five) (occurrences (2 ∷ []) five),
    ))
    × (lrem five false 1 (2 ∷ []) ≡ (
      reverse (without (budget_of 1 five) (2 ∷ []) (reverse five)),
      min (budget_of 1 five) (occurrences (2 ∷ []) five),
    ))
lrem_lem_example = lrem_lem five 1 (2 ∷ [])

dumped : dump (codes "a" ∷ codes "b" ∷ []) ≡ returns (1 ∷ 2 ∷ 1 ∷ b'a' ∷ 1 ∷ b'b' ∷ 7 ∷ 0 ∷ [])
unfolding dump encode_slice_u8 encode_len encode_i64 parse_i64 is_utf8
dumped = refl

read_dump-dump_example :
    (out : Bytes) × (dump five ≡ returns out)
    × (read_dump out ≡ some (map (λ item. stored item true) five))
read_dump-dump_example = read_dump-dump five (omega arith) (omega arith)
