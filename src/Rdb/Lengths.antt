-- ===== src/Rdb/Lengths.antt =====
-- Lengths: `encode_len` and the reader.
use redvector.Base.{
  ℕ, ◌+◌, ◌/◌, ◌%◌, ◌≤◌, ◌<◌, ◌≡◌, ◌↔◌, true, false, some, [], ◌∷◌, ◌++◌, append_assoc, Bytes,
  returns, panics, arith, ltb, ltb,
}
use redvector.Rdb.{encode_len, htonl, max_u32}
use redvector.Rdb.Bytewise.{tag_lem}
use redvector.Rdb.Decoder.{read_len}

-- The bytes that `encode_len` appends to a length that fits.
unfoldable pub len_bytes : ℕ → Bytes
len_bytes len = elim (ltb len 64) [
  | true ↦ len ∷ []
  | false ↦ elim (ltb len 16384) [
    | true ↦ (len / 256 + 64) ∷ len % 256 ∷ []
    | false ↦ 128 ∷ htonl len
  ]
]

pub encode_len-eq :
    (len : ℕ) (enc : Bytes) → len ≤ max_u32 → encode_len len enc ≡ returns (enc ++ len_bytes len)
unfolding encode_len len_bytes
encode_len-eq len enc h =
    ground (
      arith,
      tag_lem (len % 256),
      tag_lem (len / 256 % 256),
      append_assoc enc (128 ∷ []) (htonl len),
    )

pub read_len-len_bytes :
    (len : ℕ) (rest : Bytes) → len ≤ max_u32 → read_len (len_bytes len ++ rest) ≡ some (len, rest)
unfolding read_len len_bytes htonl
read_len-len_bytes len rest h = ground arith

-- `encode_len` panics exactly on a length above the largest u32.
pub encode_len-panics : (len : ℕ) (enc : Bytes) → (encode_len len enc ≡ panics) ↔ (max_u32 < len)
unfolding encode_len
encode_len-panics len enc = (ground arith, ground arith)

-- For a length that fits in a u32, `encode_len` appends bytes from which the reader of the format
-- takes that length back, whatever follows, and leaves what follows.
pub read_len-encode_len :
    (len : ℕ) (enc : Bytes)
    → len ≤ max_u32
    → (out : Bytes) × (encode_len len enc ≡ returns (enc ++ out))
      × ((rest : Bytes) → read_len (out ++ rest) ≡ some (len, rest))
read_len-encode_len len enc h =
    (len_bytes len, encode_len-eq len enc h, λ rest. read_len-len_bytes len rest h)
