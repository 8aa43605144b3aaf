-- ===== src/Rdb.antt =====
-- database/rdbutil/src/lib.rs and constants.rs, with `htonl` of util/src/lib.rs: the encoders of
-- Redis' dump format. A writer is the list of the bytes written so far: every caller passes a
-- `Vec<u8>`, whose `write_all` does not fail.
pub mod Bytewise
pub mod Decoder
pub mod Integers
pub mod Lengths
pub mod Strings
mod Examples
use Prim.Native.Nat.{bit_or}
use redvector.Base.{
  ℕ, zero, suc, ◌+◌, ◌-◌, ◌*◌, ◌/◌, ◌%◌, ◌^◌, Bool, true, false, ◌&&◌, Option, none, some, [], ◌∷◌,
  ◌++◌, Bytes, Result, ok, err, Run, returns, panics, ℤ, pos, negsuc, leb_ℤ, ltb_ℤ, max_i64, ltb,
  leb, if◌then◌else◌, length,
}
use redvector.Decimal.{parse_i64}
use redvector.Utf8.{is_utf8}

-- constants.rs
abbrev pub version : ℕ
version = 7

abbrev pub bitlen6 : ℕ
bitlen6 = 0

abbrev pub bitlen14 : ℕ
bitlen14 = 1

abbrev pub bitlen32 : ℕ
bitlen32 = 2

abbrev pub encval : ℕ
encval = 3

abbrev pub enc_int8 : ℕ
enc_int8 = 0

abbrev pub enc_int16 : ℕ
enc_int16 = 1

abbrev pub enc_int32 : ℕ
enc_int32 = 2

pub data EncodeError : Type 0 where
  io_error overflow_error : EncodeError

-- The 64 bits of an i64, and the k-th byte from the low end: `((value >> 8 * k) & 0xFF) as u8`.
abbrev pub bits64 : ℤ → ℕ
bits64 (pos n) = n
bits64 (negsuc n) = 2 ^ 64 - 1 - n

abbrev pub byte_at : ℕ → ℕ → ℕ
byte_at k bits = bits / 2 ^ (8 * k) % 256

abbrev within : ℕ → ℤ → Bool
within bound (pos n) = ltb n bound
within bound (negsuc n) = ltb n bound

-- `value >= -(1 << 7) && value < 1 << 7` is `within (2 ^ 7) value`, and so on.
unfoldable pub encode_i64 : ℤ → Bytes → Result Bytes EncodeError
encode_i64 value enc =
    let bits = bits64 value in
    if within (2 ^ 7) value
    then ok (enc ++ bit_or (encval * 2 ^ 6) enc_int8 ∷ byte_at 0 bits ∷ [])
    else if within (2 ^ 15) value
    then ok (enc ++ bit_or (encval * 2 ^ 6) enc_int16 ∷ byte_at 0 bits ∷ byte_at 1 bits ∷ [])
    else if within (2 ^ 31) value
    then ok (
        enc
        ++ bit_or (encval * 2 ^ 6) enc_int32
          ∷ byte_at 0 bits
          ∷ byte_at 1 bits
          ∷ byte_at 2 bits
          ∷ byte_at 3 bits
          ∷ [])
    else err overflow_error

unfoldable pub encode_usize : ℕ → Bytes → Result Bytes EncodeError
unfolding encode_i64
encode_usize value enc =
    if ltb max_i64 value then err overflow_error else encode_i64 (pos value) enc

unfoldable pub encode_u16_to_slice_u8 : ℕ → Bytes → Bytes
encode_u16_to_slice_u8 value enc = enc ++ byte_at 0 value ∷ byte_at 1 value ∷ []

unfoldable pub encode_u32_to_slice_u8 : ℕ → Bytes → Bytes
encode_u32_to_slice_u8 value enc =
    enc ++ byte_at 0 value ∷ byte_at 1 value ∷ byte_at 2 value ∷ byte_at 3 value ∷ []

unfoldable pub encode_u64_to_slice_u8 : ℕ → Bytes → Bytes
encode_u64_to_slice_u8 value enc =
    enc
    ++ byte_at 0 value
      ∷ byte_at 1 value
      ∷ byte_at 2 value
      ∷ byte_at 3 value
      ∷ byte_at 4 value
      ∷ byte_at 5 value
      ∷ byte_at 6 value
      ∷ byte_at 7 value
      ∷ []

unfoldable pub htonl : ℕ → Bytes
htonl v = byte_at 3 v ∷ byte_at 2 v ∷ byte_at 1 v ∷ byte_at 0 v ∷ []

abbrev pub max_u32 : ℕ
max_u32 = 2 ^ 32 - 1

-- `((len & 0xFF) as u8) | (BITLEN6 << 6)` and its two kin.
unfoldable pub encode_len : ℕ → Bytes → Run Bytes
unfolding htonl
encode_len len enc =
    if ltb max_u32 len
    then panics
    else if ltb len (2 ^ 6)
    then returns (enc ++ bit_or (len % 256) (bitlen6 * 2 ^ 6) ∷ [])
    else if ltb len (2 ^ 14)
    then returns (enc ++ bit_or (len / 2 ^ 8 % 256) (bitlen14 * 2 ^ 6) ∷ len % 256 ∷ [])
    else returns ((enc ++ bitlen32 * 2 ^ 6 ∷ []) ++ htonl len)

-- The integer that `encode_slice_u8` finds in the data.
abbrev pub as_integer : Bytes → Option ℤ
as_integer bytes = if is_utf8 bytes then parse_i64 bytes else none

abbrev or_length : Run Bytes → Bytes → Run Bytes
or_length panics bytes = panics
or_length (returns enc) bytes = returns (enc ++ bytes)

-- `encode_len(data.len(), enc)?; enc.write_all(data)?`
abbrev pub encode_raw : Bytes → Bytes → Run Bytes
encode_raw bytes enc = or_length (encode_len (length bytes) enc) bytes

abbrev encode_integer : Option ℤ → Bytes → Option Bytes
encode_integer none enc = none
encode_integer (some i) enc = elim (encode_i64 i enc) [ ok out ↦ some out | err _ ↦ none ]

unfoldable pub encode_slice_u8 : Bytes → Bytes → Bool → Run Bytes
encode_slice_u8 bytes enc as_int =
    if as_int && leb (length bytes) 11
    then elim (encode_integer (as_integer bytes) enc) [
      | some out ↦ returns out
      | none ↦ encode_raw bytes enc
    ]
    else encode_raw bytes enc
