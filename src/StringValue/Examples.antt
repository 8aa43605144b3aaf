-- ===== src/StringValue/Examples.antt =====
-- Runs of database/src/string.rs on concrete values.
use redvector.Base.{
  Bytes, ◌≡◌, refl, true, false, some, [], ◌∷◌, ◌++◌, codes, err, returns, pos, negsuc, ◌+ℤ◌, arith,
}
use redvector.Decimal.{to_string, to_string_i64, parse_i64}
use redvector.Utf8.{is_utf8}
use redvector.Dbutil.{normalize_position}
use redvector.ListValue.Ranges.{between}
use redvector.StringValue.{
  integer, data_, new, to_vec, incr, getrange, setbit, getbit, setrange, not_an_integer,
}
use redvector.StringValue.Numbers.{IsPlain, to_vec-new}
use redvector.StringValue.Writes.{setrange_lem}
use redvector.StringValue.Bits.{getbit-setbit}
use redvector.StringValue.Reads.{getrange-between}
use redvector.StringValue.Dump.{dump, read_dump, dumped, read_dump-dump_string}
use redvector.Rdb.{encode_i64, encode_slice_u8, encode_len}

stored_values :
    (new (codes "123") ≡ integer (pos 123))
    × (new (codes "-5") ≡ integer (negsuc 4))
    × (new (codes "012") ≡ data_ (codes "012"))
    × (new (codes "foo") ≡ data_ (codes "foo"))
unfolding new parse_i64 is_utf8
stored_values = (refl, refl, refl, refl)

-- `SET k 0` and `INCR k`: "0" is not held as an integer, and `incr` refuses it.
zero_refused : incr (new (codes "0")) (pos 1) ≡ (data_ (codes "0"), err not_an_integer)
unfolding incr new
zero_refused = refl

bits : (setbit (data_ []) 7 true ≡ (data_ (1 ∷ []), false)) × (getbit (data_ (1 ∷ [])) 7 ≡ true)
unfolding setbit getbit
bits = (refl, refl)

ranges :
    (setrange (data_ (codes "foobar")) 3 (codes "quux!") ≡ (data_ (codes "fooquux!"), 8))
    × (getrange (integer (pos 12345)) (pos 1) (negsuc 1) ≡ returns (codes "234"))
unfolding setrange getrange normalize_position to_string_i64 to_string
ranges = (refl, refl)

foo-IsPlain : IsPlain (codes "foo")
foo-IsPlain = (λ t e. cc e, λ t e. cc e)

to_vec-new_example : to_vec (new (codes "foo")) ≡ codes "foo"
to_vec-new_example = to_vec-new (codes "foo") foo-IsPlain

setrange_lem_example : setrange (data_ (codes "ab")) 1 (codes "xyz") ≡ (data_ (codes "axyz"), 4)
unfolding to_vec
setrange_lem_example = setrange_lem (data_ (codes "ab")) 1 b'x' (codes "yz")

getbit-setbit_example :
    (getbit (setbit (data_ (codes "a")) 20 true).0 20 ≡ true)
    × ((setbit (data_ (codes "a")) 20 true).1 ≡ getbit (data_ (codes "a")) 20)
getbit-setbit_example = getbit-setbit (data_ (codes "a")) 20 20 true

getrange-between_example :
    getrange (data_ (codes "hello")) (pos 1) (negsuc 1)
    ≡ returns (between 0 (pos 1) (negsuc 1 +ℤ pos 5) (codes "hello"))
unfolding to_vec
getrange-between_example = getrange-between (data_ (codes "hello")) (pos 1) (negsuc 1) (omega arith)

-- Dumps of an integer and of other data.
dumps :
    (dump (integer (pos 1)) ≡ returns (0 ∷ 0xc0 ∷ 1 ∷ 7 ∷ 0 ∷ []))
    × (dump (data_ (codes "hello")) ≡ returns (0 ∷ 5 ∷ codes "hello" ++ 7 ∷ 0 ∷ []))
unfolding dump encode_i64 encode_slice_u8 encode_len is_utf8 parse_i64
dumps = (refl, refl)

read_dump-dump_string_example :
    (out : Bytes) × (dump (data_ (codes "hello")) ≡ returns out)
    × (read_dump out ≡ some (dumped (data_ (codes "hello"))))
unfolding to_vec
read_dump-dump_string_example = read_dump-dump_string (data_ (codes "hello")) (omega arith)
