-- ===== src/Rdb/Strings.antt =====
-- Strings: `encode_slice_u8` and the reader. A string that reads as an integer of 32 bits is stored
-- as that integer, and comes back as its decimal text.
use redvector.Base.{
  ℕ, ◌≤◌, ◌≡◌, refl, ap, Bool, true, false, ◌&&◌, Option, some, none, ◌++◌, append_assoc, Bytes,
  Run, returns, ℤ, pos, negsuc, arith, leb, ◌==◌, if◌then◌else◌, length, length-append,
  take-length-append, drop-length-append, inl, inr, Option-cases, Bool-cases, ◌^◌,
}
use redvector.Decimal.{to_string_i64}
use redvector.Base.{ok, err, []}
use redvector.Rdb.{encode_i64, encode_slice_u8, encode_raw, as_integer, max_u32, within}
use redvector.Rdb.Decoder.{read_string, is_encoded}
use redvector.Rdb.Lengths.{len_bytes, encode_len-eq, read_len-len_bytes}
use redvector.Rdb.Integers.{
  IsI32, int_bytes, encode_i64-eq, encode_i64-overflow, read_i64-int_bytes,
}

-- The text that stands in the dump for some bytes.
abbrev pub kept : Bytes → Option ℤ → Bytes
kept bytes none = bytes
kept bytes (some i) = if within (2 ^ 31) i then to_string_i64 i else bytes

abbrev pub stored : Bytes → Bool → Bytes
stored bytes as_int =
    if as_int && leb (length bytes) 11 then kept bytes (as_integer bytes) else bytes

len_bytes-plain : (n : ℕ) (s : Bytes) → n ≤ max_u32 → (is_encoded (len_bytes n ++ s) == 3) ≡ false
unfolding len_bytes
len_bytes-plain n s h = ground arith

int_bytes-encoded : (i : ℤ) (s : Bytes) → (is_encoded (int_bytes i ++ s) == 3) ≡ true
unfolding int_bytes
int_bytes-encoded i s = ground arith

within-IsI32 : (i : ℤ) → within (2 ^ 31) i ≡ true → IsI32 i
within-IsI32 (pos n) h = ground arith
within-IsI32 (negsuc n) h = ground arith

IsI32-within : (i : ℤ) → within (2 ^ 31) i ≡ false → ¬ IsI32 i
IsI32-within (pos n) h = ground arith
IsI32-within (negsuc n) h = ground arith

-- The bytes that are appended for a length and raw data read back as the data.
read_string-raw :
    (bytes rest : Bytes)
    → length bytes ≤ max_u32
    → read_string ((len_bytes (length bytes) ++ bytes) ++ rest) ≡ some (bytes, rest)
unfolding read_string
read_string-raw bytes rest h =
    let l : leb (length bytes) (length (bytes ++ rest)) ≡ true =
      ground (arith, length-append bytes rest) in
    rw (
      append_assoc (len_bytes (length bytes)) bytes rest,
      len_bytes-plain (length bytes) (bytes ++ rest) h,
      read_len-len_bytes (length bytes) (bytes ++ rest) h,
      l,
      take-length-append bytes rest,
      drop-length-append bytes rest,
    )

read_string-integer :
    (i : ℤ) (rest : Bytes)
    → IsI32 i
    → read_string (int_bytes i ++ rest) ≡ some (to_string_i64 i, rest)
unfolding read_string
read_string-integer i rest h = rw (int_bytes-encoded i rest, read_i64-int_bytes i rest h)

-- What one call appends, read back whatever follows.
abbrev pub ReadsBack : Bytes → Run Bytes → Bytes → Type 0
ReadsBack enc written text =
    (out : Bytes) × (written ≡ returns (enc ++ out))
    × ((rest : Bytes) → read_string (out ++ rest) ≡ some (text, rest))

raw_lem : (bytes enc : Bytes) → length bytes ≤ max_u32 → ReadsBack enc (encode_raw bytes enc) bytes
raw_lem bytes enc h = (
  len_bytes (length bytes) ++ bytes,
  rw (encode_len-eq (length bytes) enc h)
      (ap returns (append_assoc enc (len_bytes (length bytes)) bytes)),
  λ rest. read_string-raw bytes rest h,
)

-- `encode_slice_u8` appends bytes from which the reader of the format takes back `stored`, whatever
-- follows: the data itself, or the decimal text of the integer that it reads as, where `as_int` is
-- set, the data has at most 11 bytes and the integer fits in 32 bits.
pub read_string-encode_slice_u8 :
    (bytes enc : Bytes) (as_int : Bool)
    → length bytes ≤ max_u32
    → (out : Bytes) × (encode_slice_u8 bytes enc as_int ≡ returns (enc ++ out))
      × ((rest : Bytes) → read_string (out ++ rest) ≡ some (stored bytes as_int, rest))
unfolding encode_slice_u8
read_string-encode_slice_u8 bytes enc as_int h =
    elim (Bool-cases (as_int && leb (length bytes) 11)) [
      | inr e ↦ rw (e, encode_slice_u8) (raw_lem bytes enc h)
      | inl e ↦ elim (Option-cases (as_integer bytes)) [
        | inl f ↦ rw (e, f, encode_slice_u8) (raw_lem bytes enc h)
        | inr (i, f) ↦ elim (Bool-cases (within (2 ^ 31) i)) [
          | inl fits ↦
              let small : IsI32 i = within-IsI32 i fits in
              rw (e, f, fits, encode_i64-eq i enc small, encode_slice_u8)
                (int_bytes i, refl, λ rest. read_string-integer i rest small)
          | inr large ↦
              let over = (encode_i64-overflow i enc).1 (IsI32-within i large) in
              rw (e, f, large, over, encode_slice_u8) (raw_lem bytes enc h)
        ]
      ]
    ]

-- An integer that is written as such where it fits in 32 bits, and else as its text.
pub ReadsBack-integer :
    (i : ℤ)
    → length (to_string_i64 i) ≤ max_u32
    → ReadsBack []
        (elim (encode_i64 i []) [
          | ok v ↦ returns v
          | err _ ↦ encode_slice_u8 (to_string_i64 i) [] false
        ])
        (to_string_i64 i)
ReadsBack-integer i h = elim (Bool-cases (within (2 ^ 31) i)) [
  | inl fits ↦
      let small : IsI32 i = within-IsI32 i fits in
      rw (encode_i64-eq i [] small) (int_bytes i, refl, λ rest. read_string-integer i rest small)
  | inr large ↦
      let over = (encode_i64-overflow i []).1 (IsI32-within i large) in
      rw over (read_string-encode_slice_u8 (to_string_i64 i) [] false h)
]

-- Data that is the canonical text of whatever integer it reads as survives the dump unchanged.
pub stored-canonical :
    (bytes : Bytes) (as_int : Bool)
    → ((i : ℤ) → as_integer bytes ≡ some i → to_string_i64 i ≡ bytes)
    → stored bytes as_int ≡ bytes
stored-canonical bytes as_int canonical = elim (Option-cases (as_integer bytes)) [
  | inl f ↦ rw f (ground arith)
  | inr (i, f) ↦ let same = canonical i f in rw f (ground (arith, same))
]
