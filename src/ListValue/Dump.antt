-- ===== src/ListValue/Dump.antt =====
-- `dump` of database/src/list.rs, and a reader of what it writes.
use redvector.Base.{
  ℕ, zero, suc, ◌/◌, ◌%◌, ◌≤◌, ◌≡◌, refl, ap, true, Option, none, some, [], ◌∷◌, ◌++◌, append_assoc,
  append-nil, map, Bytes, Run, returns, panics, ◌==◌, if◌then◌else◌, length, All, eq_bytes,
}
use redvector.Rdb.{encode_len, encode_slice_u8, version, max_u32}
use redvector.Rdb.Decoder.{read_len, read_string}
use redvector.Rdb.Lengths.{read_len-encode_len}
use redvector.Rdb.Strings.{stored, read_string-encode_slice_u8}
use redvector.ListValue.{ValueList}

abbrev type_list : ℕ
type_list = 1

-- `for ref item in list { encode_slice_u8(&*item, &mut v, true)?; }`
dump_items : ValueList → Bytes → Run Bytes
dump_items [] v = returns v
dump_items (item ∷ list) v = elim (encode_slice_u8 item v true) [
  | panics ↦ panics
  | returns v' ↦ dump_items list v'
]

abbrev trailer : Bytes
trailer = version % 256 ∷ version / 256 % 256 ∷ []

abbrev framed : Run Bytes → Run Bytes
framed panics = panics
framed (returns v) = returns (type_list ∷ v ++ trailer)

unfoldable pub dump : ValueList → Run Bytes
unfolding dump_items
dump list = elim (encode_len (length list) []) [
  | panics ↦ panics
  | returns v ↦ framed (dump_items list v)
]

read_items : ℕ → Bytes → Option (ValueList × Bytes)
read_items zero s = some ([], s)
read_items (suc n) s = elim (read_string s) [
  | none ↦ none
  | some (item, s') ↦ elim (read_items n s') [
    | none ↦ none
    | some (items, rest) ↦ some (item ∷ items, rest)
  ]
]

abbrev complete : Option (ValueList × Bytes) → Option ValueList
complete none = none
complete (some (items, rest)) = if eq_bytes rest trailer then some items else none

-- The type byte, the number of elements, the elements and the version, and nothing after it.
unfoldable pub read_dump : Bytes → Option ValueList
unfolding read_items
read_dump [] = none
read_dump (b ∷ s) =
    if b == type_list
    then elim (read_len s) [ none ↦ none | some (n, s') ↦ complete (read_items n s') ]
    else none

abbrev pub IsShort : Bytes → Type 0
IsShort item = length item ≤ max_u32

abbrev texts : ValueList → ValueList
texts = map (λ item. stored item true)

dump_items_lem :
    (list : ValueList) (v : Bytes)
    → All IsShort list
    → (out : Bytes) × (dump_items list v ≡ returns (v ++ out))
      × ((rest : Bytes) → read_items (length list) (out ++ rest) ≡ some (texts list, rest))
unfolding dump_items read_items
dump_items_lem [] v h = ([], rw append-nil, λ rest. refl)
dump_items_lem (item ∷ list) v h =
    let first = read_string-encode_slice_u8 item v true h.0 in
    let later = dump_items_lem list (v ++ first.0) h.1 in
    (
      first.0 ++ later.0,
      rw (first.1, dump_items, later.1) (ap returns (append_assoc v first.0 later.0)),
      λ rest.
          rw (
            append_assoc first.0 later.0 rest,
            first.2 (later.0 ++ rest),
            read_items,
            later.2 rest,
          ),
    )

-- A list with at most 2^32 - 1 elements, each as short, is dumped without a panic, and the reader of
-- the format takes back its elements in order, each as `stored` has it.
pub read_dump-dump :
    (list : ValueList)
    → length list ≤ max_u32
    → All IsShort list
    → (out : Bytes) × (dump list ≡ returns out)
      × (read_dump out ≡ some (map (λ item. stored item true) list))
unfolding dump read_dump eq_bytes
read_dump-dump list h hs =
    let head = read_len-encode_len (length list) [] h in
    let items = dump_items_lem list head.0 hs in
    (
      type_list ∷ (head.0 ++ items.0) ++ trailer,
      rw (head.1, dump, items.1),
      rw (
        append_assoc head.0 items.0 trailer,
        head.2 (items.0 ++ trailer),
        read_dump,
        items.2 trailer,
      ),
    )
