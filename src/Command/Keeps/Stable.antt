-- ===== src/Command/Keeps/Stable.antt =====
-- Predicates that the operations of the keyspace at one key keep, and the steps of handlers that
-- are made of these.
use redvector.Base.{
  ◌≡◌, Bool, true, false, Option, none, some, Bytes, if◌then◌else◌, ℤ, Bool-cases, inl, inr,
}
use redvector.Parser.{ParsedCommand, get_vec}
use redvector.Parser
use redvector.Value.{Value, Sizes}
use redvector.Keyspace.{Database, store}
use redvector.Keyspace
use redvector.Command.{modify, call, update, update_found, stored, key_updated}
use redvector.Command.Keeps.{Keeps, Keeps-pure, Keeps-modify, Keeps-call, keeps_rules}

module _ {Z F : Type 0} ⦃sizes : Sizes Z F⦄ where
  pub record Stable (P : Database Z F → Type 0) (key : Bytes) : Type 0 where
    pub on_store : (value : Value Z F) (db : Database Z F) → P db → P (store key value db)
    pub on_remove : (db : Database Z F) → P db → P (Keyspace.remove_key db key).0
    pub on_unexpire : (db : Database Z F) → P db → P (Keyspace.remove_msexpiration db key).0
    pub on_updated : (db : Database Z F) → P db → P (Keyspace.key_updated db key)
    pub on_expire : (t : ℤ) (db : Database Z F) → P db → P (Keyspace.set_msexpiration db key t)

  -- At the key of a command's argument, and at every key.
  abbrev pub StableAt : (Database Z F → Type 0) → ParsedCommand → Type 0
  StableAt P parser = (key : Bytes) → get_vec parser 1 ≡ Parser.ok key → Stable P key

  abbrev pub StableEverywhere : (Database Z F → Type 0) → Type 0
  StableEverywhere P = (key : Bytes) → Stable P key

either : {S : Type 0} (P : S → Type 0) (b : Bool) {x y : S} → P x → P y → P (if b then x else y)
either P true hx hy = hx
either P false hx hy = hy

module _ {Z F : Type 0} ⦃sizes : Sizes Z F⦄ {P : Database Z F → Type 0} {key : Bytes} where
  get_or_create-Stable :
      (db : Database Z F) → Stable P key → P db → P (Keyspace.get_or_create db key).0
  unfolding Keyspace.get_or_create
  get_or_create-Stable db st h =
      let h1 = either P (Keyspace.is_expired db key) (st.on_unexpire db h) h in
      either P _ h1 (st.on_store _ _ h1)

  get_mut-Stable : (db : Database Z F) → Stable P key → P db → P (Keyspace.get_mut db key).0
  unfolding Keyspace.get_mut
  get_mut-Stable db st h = elim (Bool-cases (Keyspace.is_expired db key)) [
    | inl e ↦ rw e (st.on_remove db h)
    | inr e ↦ rw e h
  ]

module _ {Z F A : Type 0} ⦃sizes : Sizes Z F⦄ {P : Database Z F → Type 0} {key : Bytes} where
  pub update-Keeps : (f : Value Z F → Value Z F × A) → Stable P key → Keeps P (update key f)
  unfolding update
  update-Keeps f st = record { at = λ db h. st.on_store _ _ (get_or_create-Stable db st h) }

  stored-Keeps :
      (f : Value Z F → Value Z F × A) (found : Option (Value Z F))
      → Stable P key
      → Keeps P (stored key f found)
  unfolding stored
  stored-Keeps f none st = Keeps-pure none
  stored-Keeps f (some value) st = record { at = λ db h. st.on_store _ _ h }

  pub update_found-Keeps :
      (f : Value Z F → Value Z F × A) → Stable P key → Keeps P (update_found key f)
  unfolding update_found
  update_found-Keeps f st = record {
    at = λ db h. (stored-Keeps f _ st).at _ (get_mut-Stable db st h);
  }

module _ {Z F : Type 0} ⦃sizes : Sizes Z F⦄ {P : Database Z F → Type 0} {key : Bytes} where
  pub key_updated-Keeps : Stable P key → Keeps P (key_updated key)
  key_updated-Keeps st = Keeps-modify _ st.on_updated

  pub expire-Keeps :
      (t : ℤ) → Stable P key → Keeps P (modify (λ db. Keyspace.set_msexpiration db key t))
  expire-Keeps t st = Keeps-modify _ (st.on_expire t)

  pub remove_key-Keeps : Stable P key → Keeps P (call (λ db. Keyspace.remove_key db key))
  remove_key-Keeps st = Keeps-call _ st.on_remove

  pub unexpire-Keeps : Stable P key → Keeps P (call (λ db. Keyspace.remove_msexpiration db key))
  unexpire-Keeps st = Keeps-call _ st.on_unexpire

  pub get_mut-Keeps : Stable P key → Keeps P (call (λ db. Keyspace.get_mut db key))
  get_mut-Keeps st = Keeps-call _ (λ db h. get_mut-Stable db st h)

  pub store-Keeps : (value : Value Z F) → Stable P key → Keeps P (modify (λ db. store key value db))
  store-Keeps value st = Keeps-modify _ (st.on_store value)

pub ruleset stable_rules = (
  keeps_rules, update-Keeps, update_found-Keeps, key_updated-Keeps, expire-Keeps, remove_key-Keeps,
  unexpire-Keeps, get_mut-Keeps, store-Keeps,
)
