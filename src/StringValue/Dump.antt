-- ===== src/StringValue/Dump.antt =====
-- `dump` of database/src/string.rs, and a reader of what it writes.
use redvector.Base.{
  ℕ, ◌%◌, ◌/◌, ◌≤◌, ◌≡◌, refl, true, false, Option, none, some, [], ◌∷◌, ◌++◌, Bytes, Run, returns,
  panics, ok, err, ◌==◌, if◌then◌else◌, length, eq_bytes,
}
use redvector.Rdb.{encode_i64, encode_slice_u8, version, max_u32}
use redvector.Rdb.Decoder.{read_string}
use redvector.Rdb.Strings.{stored, ReadsBack, read_string-encode_slice_u8, ReadsBack-integer}
use redvector.StringValue.{ValueString, integer, data_, to_vec}

abbrev pub type_string : ℕ
type_string = 0

abbrev trailer : Bytes
trailer = version % 256 ∷ version / 256 % 256 ∷ []

-- An integer that does not fit in 32 bits is written as its text.
unfoldable pub dump_body : ValueString → Run Bytes
unfolding to_vec
dump_body (integer i) = elim (encode_i64 i []) [
  | ok v ↦ returns v
  | err _ ↦ encode_slice_u8 (to_vec (integer i)) [] false
]
dump_body (data_ d) = encode_slice_u8 d [] true

abbrev framed : Run Bytes → Run Bytes
framed panics = panics
framed (returns v) = returns (type_string ∷ v ++ trailer)

unfoldable pub dump : ValueString → Run Bytes
unfolding dump_body
dump value = framed (dump_body value)

abbrev complete : Option (Bytes × Bytes) → Option Bytes
complete none = none
complete (some (text, rest)) = if eq_bytes rest trailer then some text else none

-- The type byte, a string and the version, and nothing after it.
unfoldable pub read_dump : Bytes → Option Bytes
read_dump [] = none
read_dump (b ∷ s) = if b == type_string then complete (read_string s) else none

-- The text that a dump stands for.
abbrev pub dumped : ValueString → Bytes
dumped (integer i) = to_vec (integer i)
dumped (data_ d) = stored d true

dump_body_lem :
    (value : ValueString)
    → length (to_vec value) ≤ max_u32
    → ReadsBack [] (dump_body value) (dumped value)
unfolding dump_body to_vec
dump_body_lem (data_ d) h = read_string-encode_slice_u8 d [] true h
dump_body_lem (integer i) h = ReadsBack-integer i h

-- A string value whose text has at most 2^32 - 1 bytes is dumped without a panic, and the reader of
-- the format takes back the text of an integer, and of other data what `stored` has for it.
pub read_dump-dump_string :
    (value : ValueString)
    → length (to_vec value) ≤ max_u32
    → (out : Bytes) × (dump value ≡ returns out) × (read_dump out ≡ some (dumped value))
unfolding dump read_dump eq_bytes
read_dump-dump_string value h =
    let (out, written, reads) = dump_body_lem value h in
    (type_string ∷ out ++ trailer, rw written refl, rw (reads trailer) refl)
