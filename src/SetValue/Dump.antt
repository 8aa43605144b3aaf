-- ===== src/SetValue/Dump.antt =====
-- `dump` of database/src/set.rs.
use redvector.Base.{
  ℕ, ◌%◌, ◌/◌, ◌^◌, max, true, Option, none, some, List, [], ◌∷◌, ◌++◌, Bytes, Run, returns, panics,
  ◌==◌, leb, if◌then◌else◌, length,
}
use redvector.Rdb.{
  encode_len, encode_slice_u8, encode_u16_to_slice_u8, encode_u32_to_slice_u8,
  encode_u64_to_slice_u8, version,
}
use redvector.SetValue.{ValueSet, integer, data_}

abbrev type_set : ℕ
type_set = 2

abbrev type_set_intset : ℕ
type_set_intset = 11

abbrev trailer : Bytes
trailer = version % 256 ∷ version / 256 % 256 ∷ []

-- `set.iter().max()`
abbrev largest : List ℕ → Option ℕ
largest [] = none
largest (n ∷ set) = elim (largest set) [ none ↦ some n | some m ↦ some (max n m) ]

-- The width that the source chooses; `none` is its panic on an element that is too large.
abbrev width : ℕ → Option ℕ
width m =
    if leb m 0xff
    then some 2
    else if leb m 0xffff
    then some 4
    else if leb m 0xffffffff
    then some 8
    else none

abbrev encode_item : ℕ → ℕ → Bytes → Bytes
encode_item encoding item tmp =
    if encoding == 2
    then encode_u16_to_slice_u8 (item % 2 ^ 16) tmp
    else if encoding == 4
    then encode_u32_to_slice_u8 (item % 2 ^ 32) tmp
    else encode_u64_to_slice_u8 item tmp

abbrev encode_items : ℕ → List ℕ → Bytes → Bytes
encode_items encoding [] tmp = tmp
encode_items encoding (item ∷ set) tmp = encode_items encoding set (encode_item encoding item tmp)

abbrev intset_bytes : ℕ → List ℕ → Bytes
intset_bytes encoding set =
    encode_items encoding set
      (encode_u32_to_slice_u8 (length set % 2 ^ 32) (encode_u32_to_slice_u8 encoding []))

abbrev framed : ℕ → Bytes → Run Bytes → Run Bytes
framed settype tmp panics = panics
framed settype tmp (returns v) = returns (settype ∷ (v ++ tmp) ++ trailer)

abbrev dump_intset : Option ℕ → List ℕ → Run Bytes
dump_intset none set = panics
dump_intset (some encoding) set =
    let tmp = intset_bytes encoding set in framed type_set_intset tmp (encode_len (length tmp) [])

abbrev data_items : List Bytes → Run Bytes → Run Bytes
data_items set panics = panics
data_items [] (returns v) = returns v
data_items (item ∷ set) (returns v) = data_items set (encode_slice_u8 item v true)

abbrev width_of : Option ℕ → Option ℕ
width_of none = none
width_of (some m) = width m

unfoldable pub dump : ValueSet → Run Bytes
dump (integer set) = dump_intset (width_of (largest set)) set
dump (data_ set) = framed type_set [] (data_items set (encode_len (length set) []))
