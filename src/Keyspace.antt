-- ===== src/Keyspace.antt =====
-- `struct Database` of database/src/lib.rs: the keys of one `dbindex`, with their values, their
-- expirations and the clients that watch them or wait for them. A map is a `Dict`; a set of client
-- identifiers is the list of them, each once. `clock` is what `mstime()` answers.
pub mod Laws
pub mod Settled
use redvector.Base.{
  ℕ, ◌+◌, Bool, true, false, not, ◌&&◌, Option, none, some, List, [], ◌∷◌, ◌++◌, Bytes, ℤ, leb_ℤ,
  ◌==◌, if◌then◌else◌, length,
}
use redvector.Dict.{Dict, lookup, insert, remove, is_some}
use redvector.Value
use redvector.Value.{Value, Sizes}

pub record Database (Z F : Type 0) : Type 0 where
  pub data_ : Dict (Value Z F)
  pub data_expiration_ms : Dict ℤ
  pub watched_keys : Dict (List ℕ)
  pub key_subscribers : Dict (List ℕ)
  pub subscriber_id : ℕ
  -- The identifiers of `key_subscribe` whose channels a `true` was sent to, in order.
  pub notified : List ℕ
  pub loading : Bool
  pub set_max_intset_entries : ℕ
  pub clock : ℤ

-- `HashSet<usize>`.
unfoldable pub contains : List ℕ → ℕ → Bool
contains [] identifier = false
contains (x ∷ xs) identifier = if x == identifier then true else contains xs identifier

abbrev pub add : List ℕ → ℕ → List ℕ
add xs identifier = if contains xs identifier then xs else identifier ∷ xs

unfoldable pub without : List ℕ → ℕ → List ℕ
without [] identifier = []
without (x ∷ xs) identifier = if x == identifier then xs else x ∷ without xs identifier

abbrev pub or_nobody : Option (List ℕ) → List ℕ
or_nobody none = []
or_nobody (some ids) = ids

abbrev pub due : Option ℤ → ℤ → Bool
due none now = false
due (some t) now = leb_ℤ t now

abbrev unwatched : Bytes → ℕ → Option (List ℕ) → Dict (List ℕ) → Dict (List ℕ)
unwatched key identifier none watched = watched
unwatched key identifier (some ids) watched = insert key (without ids identifier) watched

module _ {Z F : Type 0} where
  -- What a modification through a `&mut Value` leaves in the map.
  abbrev pub store : Bytes → Value Z F → Database Z F → Database Z F
  store key value db = record db { data_ = insert key value db.data_ }

  unfoldable pub is_expired : Database Z F → Bytes → Bool
  is_expired db key = not db.loading && due (lookup key db.data_expiration_ms) db.clock

  unfoldable pub dbsize : Database Z F → ℕ
  dbsize db = length db.data_

  unfoldable pub db_expire_size : Database Z F → ℕ
  db_expire_size db = length db.data_expiration_ms

  unfoldable pub get : Database Z F → Bytes → Option (Value Z F)
  unfolding is_expired
  get db key = if is_expired db key then none else lookup key db.data_

  -- `self.data[index].remove(key)` and `self.data_expiration_ms[index].remove(key)`.
  abbrev erase : Bytes → Database Z F → Database Z F
  erase key db = record db {
    data_ = remove key db.data_;
    data_expiration_ms = remove key db.data_expiration_ms;
  }

  unfoldable pub remove_key : Database Z F → Bytes → Database Z F × Option (Value Z F)
  unfolding is_expired
  remove_key db key = (erase key db, if is_expired db key then none else lookup key db.data_)

  unfoldable pub get_mut : Database Z F → Bytes → Database Z F × Option (Value Z F)
  unfolding is_expired remove_key
  get_mut db key =
      if is_expired db key then ((remove_key db key).0, none) else (db, lookup key db.data_)

  abbrev pub or_nil : Option (Value Z F) → Value Z F
  or_nil none = Value.nil
  or_nil (some value) = value

  unfoldable pub get_msexpiration : Database Z F → Bytes → Option ℤ
  get_msexpiration db key = lookup key db.data_expiration_ms

  unfoldable pub remove_msexpiration : Database Z F → Bytes → Database Z F × Option ℤ
  remove_msexpiration db key = (
    record db { data_expiration_ms = remove key db.data_expiration_ms },
    lookup key db.data_expiration_ms,
  )

  -- An occupied entry keeps its value, a vacant one is filled with `Value::Nil`.
  unfoldable pub get_or_create : Database Z F → Bytes → Database Z F × Value Z F
  unfolding is_expired remove_msexpiration
  get_or_create db key =
      let db1 = if is_expired db key then (remove_msexpiration db key).0 else db in
      let value = or_nil (lookup key db1.data_) in
      (if is_some (lookup key db1.data_) then db1 else store key value db1, value)

  unfoldable pub key_subscribe : Database Z F → Bytes → Database Z F × ℕ
  key_subscribe db key =
      let ids = or_nobody (lookup key db.key_subscribers) in
      (
        record db {
          key_subscribers = insert key (add ids db.subscriber_id) db.key_subscribers;
          subscriber_id = db.subscriber_id + 1;
        },
        db.subscriber_id,
      )

  unfoldable pub key_watch : Database Z F → Bytes → ℕ → Database Z F
  key_watch db key identifier =
      let ids = or_nobody (lookup key db.watched_keys) in
      record db { watched_keys = insert key (add ids identifier) db.watched_keys }

  unfoldable pub key_unwatch : Database Z F → Bytes → ℕ → Database Z F
  key_unwatch db key identifier = record db {
    watched_keys = unwatched key identifier (lookup key db.watched_keys) db.watched_keys;
  }

  unfoldable pub key_watch_verify : Database Z F → Bytes → ℕ → Bool
  key_watch_verify db key identifier = contains (or_nobody (lookup key db.watched_keys)) identifier

module _ {Z F : Type 0} ⦃sizes : Sizes Z F⦄ where
  abbrev pub empties : Option (Value Z F) → Bool
  empties none = false
  empties (some value) = Value.is_empty value

  unfoldable pub key_updated : Database Z F → Bytes → Database Z F
  unfolding remove_key Value.is_empty
  key_updated db key =
      let db1 = if empties (lookup key db.data_) then (remove_key db key).0 else db in
      record db1 {
        key_subscribers = remove key db1.key_subscribers;
        notified = db1.notified ++ or_nobody (lookup key db1.key_subscribers);
        watched_keys = remove key db1.watched_keys;
      }

  unfoldable pub set_msexpiration : Database Z F → Bytes → ℤ → Database Z F
  unfolding key_updated
  set_msexpiration db key msexpiration =
      let db1 = key_updated db key in
      record db1 { data_expiration_ms = insert key msexpiration db1.data_expiration_ms }

  -- The loop of `clear` over the watched keys.
  unfoldable pub clear_watched : Database Z F → Dict (List ℕ) → Database Z F
  unfolding key_updated
  clear_watched db [] = db
  clear_watched db (entry ∷ entries) =
      let removed = record db { data_ = remove entry.0 db.data_ } in
      clear_watched (if is_some (lookup entry.0 db.data_) then key_updated removed entry.0 else db)
        entries

  unfoldable pub clear : Database Z F → Database Z F
  unfolding clear_watched
  clear db = record (clear_watched db db.watched_keys) { data_ = []; data_expiration_ms = [] }
