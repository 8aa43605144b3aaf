-- ===== src/HashValue/Examples.antt =====
-- Runs of database/src/hash.rs on concrete hashes.
use redvector.Base.{
  ◌≡◌, refl, true, not, none, some, [], ◌∷◌, Bytes, codes, ok, pos, if◌then◌else◌, eq_bytes,
}
use redvector.Decimal.{to_string_i64, to_string, parse_i64}
use redvector.Utf8.{is_utf8}
use redvector.Base.{◌++◌, returns}
use redvector.Rdb.{encode_len, encode_slice_u8, encode_i64}
use redvector.HashValue.Dump.{dump}
use redvector.Dict.{lookup}
use redvector.HashValue.{ValueHash, hash_map, new, hset, hget, hdel, hexists, hgetall, hincrby}
use redvector.HashValue.Fields.{IsValid, among, hset_lem, hdel_lem}

abbrev two_fields : ValueHash
two_fields = hash_map ((codes "a", codes "1") ∷ (codes "b", codes "x") ∷ [])

two_fields-IsValid : IsValid two_fields
unfolding lookup eq_bytes
two_fields-IsValid = (refl, (refl, tt))

operations :
    (hset new (codes "f") (codes "v") ≡ (hash_map ((codes "f", codes "v") ∷ []), true))
    × (hdel two_fields (codes "b" ∷ codes "c" ∷ []) ≡ (hash_map ((codes "a", codes "1") ∷ []), 1))
    × (hgetall two_fields ≡ codes "a" ∷ codes "1" ∷ codes "b" ∷ codes "x" ∷ [])
unfolding hset hdel eq_bytes
operations = (refl, refl, refl)

-- `HINCRBY key b 5`, where the field b holds "x".
overwritten :
    hincrby two_fields (codes "b") (pos 5)
    ≡ (hash_map ((codes "a", codes "1") ∷ (codes "b", codes "5") ∷ []), ok (pos 5))
unfolding hincrby eq_bytes is_utf8 parse_i64 to_string_i64 to_string
overwritten = refl

hset_lem_example :
    IsValid (hset two_fields (codes "c") (codes "y")).0
    × ((hset two_fields (codes "c") (codes "y")).1 ≡ not (hexists two_fields (codes "c")))
    × ((x : Bytes)
        → hget (hset two_fields (codes "c") (codes "y")).0 x
          ≡ (if eq_bytes x (codes "c") then some (codes "y") else hget two_fields x))
hset_lem_example = hset_lem two_fields (codes "c") (codes "y") two_fields-IsValid

hdel_lem_example :
    IsValid (hdel two_fields (codes "b" ∷ [])).0
    × (hget (hdel two_fields (codes "b" ∷ [])).0 (codes "a")
        ≡ (if among (codes "a") (codes "b" ∷ []) then none else hget two_fields (codes "a")))
hdel_lem_example = hdel_lem two_fields (codes "b" ∷ []) (codes "a") two_fields-IsValid

dumps :
    (dump two_fields
      ≡ returns (4 ∷ 2 ∷ 1 ∷ codes "a" ++ 0xc0 ∷ 1 ∷ 1 ∷ codes "b" ++ 1 ∷ codes "x" ++ 7 ∷ 0 ∷ []))
    × (dump new ≡ returns (4 ∷ 0 ∷ 7 ∷ 0 ∷ []))
unfolding dump encode_len encode_slice_u8 encode_i64 is_utf8 parse_i64
dumps = (refl, refl)
