-- ===== src/HashValue.antt =====
-- database/src/hash.rs: a hash value. A `HashMap` is the list of its entries in the order in which
-- it iterates, each field once. The operation on floats is not modelled.
pub mod Fields
pub mod Dump
mod Examples
use redvector.Base.{
  ℕ, zero, suc, ◌+◌, Bool, true, false, Option, none, some, List, [], ◌∷◌, ◌++◌, map, Bytes, Result,
  ok, err, ℤ, ◌+ℤ◌, fits_i64, leb, ltb, if◌then◌else◌, length, eq_bytes, Run, returns, panics, ◌%◌,
  ◌/◌, ◌&&◌,
}
use redvector.Dict.{Dict, lookup, insert, remove, is_none, is_some}
use redvector.Decimal.{to_string_i64, parse_i64}
use redvector.Utf8.{is_utf8}
use redvector.Dbutil.{OperationError, overflow_error, is_empty}

abbrev pub Entries : Type 0
Entries = Dict Bytes

pub data ValueHash : Type 0 where
  zip_list : Bytes → ValueHash
  hash_map : Entries → ValueHash

abbrev pub new : ValueHash
new = zip_list []

-- What is set in a ziplist replaces it.
unfoldable pub hset : ValueHash → Bytes → Bytes → ValueHash × Bool
unfolding lookup insert
hset (hash_map entries) field value =
    (hash_map (insert field value entries), is_none (lookup field entries))
hset (zip_list zl) field value = (hash_map ((field, value) ∷ []), true)

unfoldable pub hget : ValueHash → Bytes → Option Bytes
hget (hash_map entries) field = lookup field entries
hget (zip_list zl) field = none

-- The loop of `hdel`, which counts the fields that were there.
unfoldable pub del_all : Entries → List Bytes → ℕ → Entries × ℕ
unfolding lookup remove
del_all entries [] count = (entries, count)
del_all entries (field ∷ fields) count =
    del_all (remove field entries) fields
      (if is_some (lookup field entries) then count + 1 else count)

unfoldable pub hdel : ValueHash → List Bytes → ValueHash × ℕ
unfolding del_all
hdel (hash_map entries) fields =
    let (left, count) = del_all entries fields 0 in (hash_map left, count)
hdel (zip_list zl) fields = let (left, count) = del_all [] fields 0 in (hash_map left, count)

abbrev pub hexists : ValueHash → Bytes → Bool
hexists (hash_map entries) field = is_some (lookup field entries)
hexists (zip_list zl) field = false

abbrev pub hlen : ValueHash → ℕ
hlen (hash_map entries) = length entries
hlen (zip_list zl) = 0

abbrev pub hkeys : ValueHash → List Bytes
hkeys (hash_map entries) = map (λ e. e.0) entries
hkeys (zip_list zl) = []

abbrev pub hvals : ValueHash → List Bytes
hvals (hash_map entries) = map (λ e. e.1) entries
hvals (zip_list zl) = []

abbrev flatten : Entries → List Bytes
flatten [] = []
flatten (entry ∷ entries) = entry.0 ∷ entry.1 ∷ flatten entries

abbrev pub hgetall : ValueHash → List Bytes
hgetall (hash_map entries) = flatten entries
hgetall (zip_list zl) = []

abbrev length_or_zero : Option Bytes → ℕ
length_or_zero none = 0
length_or_zero (some v) = length v

abbrev pub hstrlen : ValueHash → Bytes → ℕ
hstrlen (hash_map entries) field = length_or_zero (lookup field entries)
hstrlen (zip_list zl) field = 0

-- The integer that a field holds, if it is there and is one.
abbrev pub current : Option Bytes → Option ℤ
current none = none
current (some v) = if is_utf8 v then parse_i64 v else none

-- What `hincrby` stores over what it found, or its error.
abbrev pub sum_with : Option ℤ → ℤ → Result ℤ OperationError
sum_with none increment = ok increment
sum_with (some val) increment =
    let sum = val +ℤ increment in if fits_i64 sum then ok sum else err overflow_error

unfoldable pub hincrby : ValueHash → Bytes → ℤ → ValueHash × Result ℤ OperationError
unfolding insert lookup
hincrby (hash_map entries) field increment =
    elim (sum_with (current (lookup field entries)) increment) [
      | err e ↦ (hash_map entries, err e)
      | ok new_value ↦ (hash_map (insert field (to_string_i64 new_value) entries), ok new_value)
    ]
hincrby (zip_list zl) field increment =
    (hash_map ((field, to_string_i64 increment) ∷ []), ok increment)

unfoldable pub is_empty_hash : ValueHash → Bool
is_empty_hash (hash_map entries) = is_empty entries
is_empty_hash (zip_list zl) = is_empty zl
