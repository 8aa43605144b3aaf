-- ===== src/Keyspace/Laws.antt =====
-- What the operations of the keyspace at one key keep of the others, and of the maps.
use redvector.Base.{
  ℕ, ◌++◌, ◌≡◌, refl, ◌∙◌, false, List, [], ◌∷◌, Bytes, eq_bytes, if◌then◌else◌, Bool-cases, inl,
  inr,
}
use redvector.Dict.{Dict, lookup, remove, is_some}
use redvector.Dict.Laws.{Distinct, remove-Distinct, lookup-remove_other}
use redvector.Value.{Sizes}
use redvector.Keyspace.{Database, store}
use redvector.Keyspace

module _ {Z F : Type 0} where
  -- Two databases read the same at a key: its value, its expiration and who watches or awaits it.
  pub record SameAt (x : Bytes) (before db : Database Z F) : Type 0 where
    pub value : lookup x db.data_ ≡ lookup x before.data_
    pub expiration : lookup x db.data_expiration_ms ≡ lookup x before.data_expiration_ms
    pub watchers : lookup x db.watched_keys ≡ lookup x before.watched_keys
    pub waiters : lookup x db.key_subscribers ≡ lookup x before.key_subscribers
    pub time : db.clock ≡ before.clock
    pub mode : db.loading ≡ before.loading

  -- No map has a key twice.
  pub record IsValid (db : Database Z F) : Type 0 where
    pub values : Distinct db.data_
    pub expirations : Distinct db.data_expiration_ms
    pub watched : Distinct db.watched_keys
    pub awaited : Distinct db.key_subscribers

  pub SameAt-refl : (x : Bytes) (db : Database Z F) → SameAt x db db
  SameAt-refl x db = record {
    value = refl;
    expiration = refl;
    watchers = refl;
    waiters = refl;
    time = refl;
    mode = refl;
  }

  pub remove_key-SameAt :
      (x key : Bytes) (before db : Database Z F)
      → eq_bytes x key ≡ false
      → SameAt x before db
      → SameAt x before (Keyspace.remove_key db key).0
  unfolding Keyspace.remove_key
  remove_key-SameAt x key before db e h = record {
    value = lookup-remove_other x key _ e ∙ h.value;
    expiration = lookup-remove_other x key _ e ∙ h.expiration;
    watchers = h.watchers;
    waiters = h.waiters;
    time = h.time;
    mode = h.mode;
  }

  pub remove_key-IsValid :
      (db : Database Z F) (key : Bytes) → IsValid db → IsValid (Keyspace.remove_key db key).0
  unfolding Keyspace.remove_key
  remove_key-IsValid db key h = record {
    values = remove-Distinct key _ h.values;
    expirations = remove-Distinct key _ h.expirations;
    watched = h.watched;
    awaited = h.awaited;
  }

module _ {Z F : Type 0} ⦃sizes : Sizes Z F⦄ where
  -- `key_updated` once it is known whether the value is removed.
  abbrev signalled : Bytes → Database Z F → Database Z F
  signalled key db = record db {
    key_subscribers = remove key db.key_subscribers;
    notified = db.notified ++ Keyspace.or_nobody (lookup key db.key_subscribers);
    watched_keys = remove key db.watched_keys;
  }

  abbrev pub swept : Bytes → Database Z F → Database Z F
  swept key db =
      if Keyspace.empties (lookup key db.data_) then (Keyspace.remove_key db key).0 else db

  swept-SameAt :
      (x key : Bytes) (before db : Database Z F)
      → eq_bytes x key ≡ false
      → SameAt x before db
      → SameAt x before (swept key db)
  swept-SameAt x key before db e h = elim (Bool-cases (Keyspace.empties (lookup key db.data_))) [
    | inl f ↦ rw f (remove_key-SameAt x key before db e h)
    | inr f ↦ rw f h
  ]

  pub swept-IsValid : (db : Database Z F) (key : Bytes) → IsValid db → IsValid (swept key db)
  swept-IsValid db key h = elim (Bool-cases (Keyspace.empties (lookup key db.data_))) [
    | inl f ↦ rw f (remove_key-IsValid db key h)
    | inr f ↦ rw f h
  ]

  pub key_updated-SameAt :
      (x key : Bytes) (before db : Database Z F)
      → eq_bytes x key ≡ false
      → SameAt x before db
      → SameAt x before (Keyspace.key_updated db key)
  unfolding Keyspace.key_updated
  key_updated-SameAt x key before db e h =
      let same : SameAt x before (swept key db) = swept-SameAt x key before db e h in
      record {
        value = same.value;
        expiration = same.expiration;
        watchers = lookup-remove_other x key _ e ∙ same.watchers;
        waiters = lookup-remove_other x key _ e ∙ same.waiters;
        time = same.time;
        mode = same.mode;
      }

  pub key_updated-IsValid :
      (db : Database Z F) (key : Bytes) → IsValid db → IsValid (Keyspace.key_updated db key)
  unfolding Keyspace.key_updated
  key_updated-IsValid db key h =
      let valid : IsValid (swept key db) = swept-IsValid db key h in
      record {
        values = valid.values;
        expirations = valid.expirations;
        watched = remove-Distinct key _ valid.watched;
        awaited = remove-Distinct key _ valid.awaited;
      }

  clear_watched-IsValid :
      (entries : Dict (List ℕ)) (db : Database Z F)
      → IsValid db
      → IsValid (Keyspace.clear_watched db entries)
  unfolding Keyspace.clear_watched
  clear_watched-IsValid [] db h = h
  clear_watched-IsValid (entry ∷ entries) db h =
      elim (Bool-cases (is_some (lookup entry.0 db.data_))) [
        | inr f ↦ rw f (clear_watched-IsValid entries db h)
        | inl f ↦
            let removed = record db { data_ = remove entry.0 db.data_ } in
            let valid : IsValid removed = record {
              values = remove-Distinct entry.0 _ h.values;
              expirations = h.expirations;
              watched = h.watched;
              awaited = h.awaited;
            } in
            rw f (
              clear_watched-IsValid entries (Keyspace.key_updated removed entry.0)
                (key_updated-IsValid removed entry.0 valid))
      ]

  pub clear-IsValid : (db : Database Z F) → IsValid db → IsValid (Keyspace.clear db)
  unfolding Keyspace.clear
  clear-IsValid db h =
      let valid = clear_watched-IsValid db.watched_keys db h in
      record { values = tt; expirations = tt; watched = valid.watched; awaited = valid.awaited }
