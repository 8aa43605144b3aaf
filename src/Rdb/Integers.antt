-- ===== src/Rdb/Integers.antt =====
-- Integers: `encode_i64` and the reader.
use redvector.Base.{
  ℕ, ◌+◌, ◌*◌, ◌^◌, ◌<◌, ◌≡◌, ◌↔◌, some, [], ◌∷◌, ◌++◌, Bytes, ok, err, ℤ, pos, negsuc, arith,
  if◌then◌else◌,
}
use redvector.Rdb.{encode_i64, overflow_error, within, bits64, byte_at}
use redvector.Rdb.Decoder.{read_i64, signed_of}

-- The integers of 32 bits.
abbrev pub IsI32 : ℤ → Type 0
IsI32 (pos n) = n < 2 ^ 31
IsI32 (negsuc n) = n < 2 ^ 31

-- The bytes that `encode_i64` appends to an integer of 32 bits.
unfoldable pub int_bytes : ℤ → Bytes
int_bytes i =
    let bits = bits64 i in
    if within (2 ^ 7) i
    then 192 ∷ byte_at 0 bits ∷ []
    else if within (2 ^ 15) i
    then 193 ∷ byte_at 0 bits ∷ byte_at 1 bits ∷ []
    else 194 ∷ byte_at 0 bits ∷ byte_at 1 bits ∷ byte_at 2 bits ∷ byte_at 3 bits ∷ []

pub encode_i64-eq : (i : ℤ) (enc : Bytes) → IsI32 i → encode_i64 i enc ≡ ok (enc ++ int_bytes i)
unfolding encode_i64 int_bytes
encode_i64-eq (pos n) enc h = ground arith
encode_i64-eq (negsuc n) enc h = ground arith

-- `encode_i64` fails exactly on an integer that does not fit in 32 bits.
pub encode_i64-overflow :
    (i : ℤ) (enc : Bytes) → (encode_i64 i enc ≡ err overflow_error) ↔ (¬ IsI32 i)
unfolding encode_i64
encode_i64-overflow (pos n) enc = (ground arith, ground arith)
encode_i64-overflow (negsuc n) enc = (ground arith, ground arith)

signed_of-pos : (half n : ℕ) → n < half → signed_of half n ≡ pos n
signed_of-pos half n h = ground arith

signed_of-negsuc : (half n w : ℕ) → n < half → w + n + 1 ≡ 2 * half → signed_of half w ≡ negsuc n
signed_of-negsuc half n w h e = ground arith

pub read_i64-int_bytes :
    (i : ℤ) (rest : Bytes) → IsI32 i → read_i64 (int_bytes i ++ rest) ≡ some (i, rest)
unfolding read_i64 int_bytes
read_i64-int_bytes (pos n) rest h = ground arith
read_i64-int_bytes (negsuc n) rest h = ground arith

-- For an integer of 32 bits `encode_i64` appends bytes from which the reader of the format takes
-- that integer back, whatever follows, and leaves what follows.
pub read_i64-encode_i64 :
    (i : ℤ) (enc : Bytes)
    → IsI32 i
    → (out : Bytes) × (encode_i64 i enc ≡ ok (enc ++ out))
      × ((rest : Bytes) → read_i64 (out ++ rest) ≡ some (i, rest))
read_i64-encode_i64 i enc h =
    (int_bytes i, encode_i64-eq i enc h, λ rest. read_i64-int_bytes i rest h)
