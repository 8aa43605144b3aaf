-- ===== src/HashValue/Dump.antt =====
-- `dump` of database/src/hash.rs. The source writes a ziplist as a hash of no entries.
use redvector.Base.{ℕ, ◌%◌, ◌/◌, true, [], ◌∷◌, ◌++◌, Bytes, Run, returns, panics, length}
use redvector.Rdb.{encode_len, encode_slice_u8, version}
use redvector.HashValue.{ValueHash, zip_list, hash_map, Entries}

abbrev type_hash : ℕ
type_hash = 4

infixl 5 ◌>>=◌
abbrev ◌>>=◌ : Run Bytes → (Bytes → Run Bytes) → Run Bytes
returns v >>= f = f v
panics >>= f = panics

-- The field and the value of each entry.
unfoldable pub dump_entries : Entries → Bytes → Run Bytes
dump_entries [] v = returns v
dump_entries (entry ∷ entries) v = do
  v ← encode_slice_u8 entry.0 v true
  v ← encode_slice_u8 entry.1 v true
  dump_entries entries v

abbrev body : ValueHash → Run Bytes
body (hash_map entries) = do v ← encode_len (length entries) []; dump_entries entries v
body (zip_list zl) = encode_len 0 []

unfoldable pub dump : ValueHash → Run Bytes
unfolding dump_entries
dump value = do v ← body value; returns (type_hash ∷ v ++ version % 256 ∷ version / 256 % 256 ∷ [])
