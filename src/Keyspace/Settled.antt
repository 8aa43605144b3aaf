-- ===== src/Keyspace/Settled.antt =====
-- What `key_updated` settles: no value is left empty, and nobody watches the key.
use redvector.Base.{
  ◌≡◌, refl, sym, ◌∙◌, ap, Bool, true, false, Option, none, some, Bytes, eq_bytes, eq_bytes_iff,
  if◌then◌else◌, Bool-cases, inl, inr,
}
use redvector.Dict.{Dict, lookup, remove}
use redvector.Dict.Laws
use redvector.Dict.Laws.{lookup-remove, lookup-insert_other}
use redvector.Value.{Value, Sizes}
use redvector.Value
use redvector.Keyspace.{Database, store}
use redvector.Keyspace
use redvector.Keyspace.Laws.{
  SameAt, SameAt-refl, IsValid, swept, swept-IsValid, key_updated-SameAt, key_updated-IsValid,
}

module _ {Z F : Type 0} ⦃sizes : Sizes Z F⦄ where
  -- No key but `key` has an empty value.
  pub record Pending (key : Bytes) (db : Database Z F) : Type 0 where
    pub valid : IsValid db
    pub full :
        (x : Bytes) (v : Value Z F)
        → eq_bytes x key ≡ false
        → lookup x db.data_ ≡ some v
        → Value.is_empty v ≡ false

  -- No key has an empty value.
  pub record NoEmpty (db : Database Z F) : Type 0 where
    pub valid : IsValid db
    pub full : (x : Bytes) (v : Value Z F) → lookup x db.data_ ≡ some v → Value.is_empty v ≡ false

  -- And nobody watches `key`.
  pub record Settled (key : Bytes) (db : Database Z F) : Type 0 where
    pub none_empty : NoEmpty db
    pub unwatched : lookup key db.watched_keys ≡ none

  pub NoEmpty-Pending : (key : Bytes) (db : Database Z F) → NoEmpty db → Pending key db
  NoEmpty-Pending key db h = record { valid = h.valid; full = λ x v _. h.full x v }

  -- A change that leaves the other values as they were.
  pub Pending-SameAt :
      (key : Bytes) (db db' : Database Z F)
      → IsValid db'
      → ((x : Bytes) → eq_bytes x key ≡ false → SameAt x db db')
      → Pending key db
      → Pending key db'
  Pending-SameAt key db db' valid same h = record {
    valid = valid;
    full = λ x v e found. h.full x v e (sym ((same x e).value) ∙ found);
  }

  lookup_self :
      (key : Bytes) (d : Dict (Value Z F)) (valid : Laws.Distinct d)
      → lookup key (remove key d) ≡ none
  lookup_self key d valid = lookup-remove key key d valid ∙ rw ((eq_bytes_iff key key).1 refl) refl

  -- What the sweep leaves at the key itself.
  lookup-swept :
      (key : Bytes) (db : Database Z F)
      → IsValid db
      → lookup key (swept key db).data_
        ≡ (if Keyspace.empties (lookup key db.data_) then none else lookup key db.data_)
  unfolding Keyspace.remove_key
  lookup-swept key db valid = elim (Bool-cases (Keyspace.empties (lookup key db.data_))) [
    | inl e ↦ rw e (lookup_self key db.data_ valid.values)
    | inr e ↦ rw e refl
  ]

  some_inj : (w v : Value Z F) → some w ≡ some v → w ≡ v
  some_inj w v e = ap Keyspace.or_nil e

  kept_value :
      (w v : Value Z F) (b : Bool)
      → Value.is_empty w ≡ b
      → (if b then none else some w) ≡ some v
      → Value.is_empty v ≡ false
  kept_value w v true f e = cc
  kept_value w v false f e = sym (ap (λ u. Value.is_empty u) (some_inj w v e)) ∙ f

  kept_full :
      (o : Option (Value Z F)) (v : Value Z F)
      → (if Keyspace.empties o then none else o) ≡ some v
      → Value.is_empty v ≡ false
  kept_full none v e = cc
  kept_full (some w) v e = kept_value w v (Value.is_empty w) refl e

  pub key_updated-Settled :
      (key : Bytes) (db : Database Z F) → Pending key db → Settled key (Keyspace.key_updated db key)
  unfolding Keyspace.key_updated
  key_updated-Settled key db h =
      let valid : IsValid (swept key db) = swept-IsValid db key h.valid in
      record {
        none_empty = record {
          valid = key_updated-IsValid db key h.valid;
          full = λ x v found. elim (Bool-cases (eq_bytes x key)) [
            | inr e ↦
                h.full x v e
                  (sym ((key_updated-SameAt x key db db e (SameAt-refl x db)).value) ∙ found)
            | inl e ↦
                let same = sym ((eq_bytes_iff x key).0 e) in
                kept_full (lookup key db.data_) v (
                  sym (lookup-swept key db h.valid)
                  ∙ ap (λ k. lookup k (swept key db).data_) same
                  ∙ found)
          ];
        };
        unwatched =
            lookup-remove key key (swept key db).watched_keys valid.watched
            ∙ rw ((eq_bytes_iff key key).1 refl) refl;
      }
