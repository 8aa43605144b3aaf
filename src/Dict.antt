-- ===== src/Dict.antt =====
-- A map keyed by byte strings, `HashMap` or `RehashingHashMap`, as the list of its entries in the
-- order in which it iterates.
pub mod Laws
use redvector.Base.{
  Bool, true, false, Option, none, some, List, [], ◌∷◌, Bytes, eq_bytes, if◌then◌else◌,
}

abbrev pub Dict : Type 0 → Type 0
Dict V = List (Bytes × V)

module _ {V : Type 0} where
  -- `map.get(key)`
  unfoldable pub lookup : Bytes → Dict V → Option V
  lookup key [] = none
  lookup key (entry ∷ entries) = if eq_bytes key entry.0 then some entry.1 else lookup key entries

  -- `map.insert(key, value)`
  unfoldable pub insert : Bytes → V → Dict V → Dict V
  insert key value [] = (key, value) ∷ []
  insert key value (entry ∷ entries) =
      if eq_bytes key entry.0 then (key, value) ∷ entries else entry ∷ insert key value entries

  -- `map.remove(key)`
  unfoldable pub remove : Bytes → Dict V → Dict V
  remove key [] = []
  remove key (entry ∷ entries) =
      if eq_bytes key entry.0 then entries else entry ∷ remove key entries

  abbrev pub is_none : Option V → Bool
  is_none none = true
  is_none (some _) = false

  abbrev pub is_some : Option V → Bool
  is_some none = false
  is_some (some _) = true
