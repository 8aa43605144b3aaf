-- ===== src/HashValue/Fields.antt =====
-- A hash value as a function from fields to values.
use redvector.Base.{
  ℕ, ◌+◌, ◌≡◌, refl, ◌∙◌, ap, Bool, true, false, not, Option, none, some, List, [], ◌∷◌, Bytes,
  eq_bytes, if◌then◌else◌, Bool-cases, inl, inr,
}
use redvector.Dict.{lookup, remove, is_some, is_none}
use redvector.Dict.Laws.{Distinct, lookup-insert, lookup-remove, insert-Distinct, remove-Distinct}
use redvector.HashValue.{ValueHash, zip_list, hash_map, Entries, hset, hget, hdel, del_all, hexists}

lookup_nil : (x : Bytes) → lookup {V = Bytes} x [] ≡ none
unfolding lookup
lookup_nil x = refl

fresh : (o : Option Bytes) → is_none o ≡ not (is_some o)
fresh none = refl
fresh (some v) = refl

-- A ziplist is the empty hash.
abbrev pub IsValid : ValueHash → Type 0
IsValid (hash_map entries) = Distinct entries
IsValid (zip_list zl) = zl ≡ []

-- After `hset` on a valid hash the field reads as it was set and every other field as before; the
-- answer says whether the field is new, and the hash stays valid.
pub hset_lem :
    (h : ValueHash) (field value : Bytes)
    → IsValid h
    → IsValid (hset h field value).0
      × ((hset h field value).1 ≡ not (hexists h field))
      × ((x : Bytes)
          → hget (hset h field value).0 x ≡ (if eq_bytes x field then some value else hget h x))
unfolding hset hget
hset_lem (zip_list zl) field value v =
    ((lookup_nil field, tt), refl, λ x. lookup-insert x field value [])
hset_lem (hash_map entries) field value v = (
  insert-Distinct field value entries v,
  fresh (lookup field entries),
  λ x. lookup-insert x field value entries,
)

-- Whether a field is among those to delete.
abbrev pub among : Bytes → List Bytes → Bool
among x [] = false
among x (field ∷ fields) = if eq_bytes x field then true else among x fields

deleted :
    (x field : Bytes) (fields : List Bytes) (entries : Entries)
    → Distinct entries
    → (if among x fields then none else lookup x (remove field entries))
      ≡ (if among x (field ∷ fields) then none else lookup x entries)
deleted x field fields entries d = elim (Bool-cases (among x fields)) [
  | inl a ↦ elim (Bool-cases (eq_bytes x field)) [ inl e ↦ rw (a, e) refl | inr e ↦ rw (a, e) refl ]
  | inr a ↦ elim (Bool-cases (eq_bytes x field)) [
    | inl e ↦ rw (a, e) (lookup-remove x field entries d ∙ rw e refl)
    | inr e ↦ rw (a, e) (lookup-remove x field entries d ∙ rw e refl)
  ]
]

del_all_lem :
    (entries : Entries) (fields : List Bytes) (count : ℕ) (x : Bytes)
    → Distinct entries
    → Distinct (del_all entries fields count).0
      × (lookup x (del_all entries fields count).0
          ≡ (if among x fields then none else lookup x entries))
unfolding del_all
del_all_lem entries [] count x d = (d, refl)
del_all_lem entries (field ∷ fields) count x d =
    let count' = if is_some (lookup field entries) then count + 1 else count in
    let (d', later) =
      del_all_lem (remove field entries) fields count' x (remove-Distinct field entries d) in
    (d', later ∙ deleted x field fields entries d)

-- After `hdel` on a valid hash the fields it was given read as absent and every other field as
-- before; the hash stays valid.
pub hdel_lem :
    (h : ValueHash) (fields : List Bytes) (x : Bytes)
    → IsValid h
    → IsValid (hdel h fields).0
      × (hget (hdel h fields).0 x ≡ (if among x fields then none else hget h x))
unfolding hdel hget
hdel_lem (hash_map entries) fields x v = del_all_lem entries fields 0 x v
hdel_lem (zip_list zl) fields x v =
    let (d, gone) = del_all_lem [] fields 0 x tt in
    (d, gone ∙ ap (λ r. if among x fields then none else r) (lookup_nil x))
