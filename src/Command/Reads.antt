-- ===== src/Command/Reads.antt =====
-- What a client reads back: GET after SET, and when a value expires.
use redvector.Base.{
  ◌≡◌, refl, ◌∙◌, ap, Bool, true, false, not, ◌&&◌, Option, none, some, Bytes, ℤ, ◌+ℤ◌, leb_ℤ,
  wrap_i64, eq_bytes, eq_bytes_iff, if◌then◌else◌, Bool-cases, inl, inr,
}
use redvector.Dict.{Dict, lookup, insert, remove, is_some}
use redvector.Dict.Laws.{lookup-insert}
use redvector.StringValue
use redvector.Response.{Response}
use redvector.Value.{Value, Sizes}
use redvector.Value
use redvector.Keyspace.{Database, store}
use redvector.Keyspace
use redvector.Keyspace.Laws.{swept}
use redvector.Command.{continues, ◌>>=◌, update}
use redvector.Command.Strings.{generic_set, generic_get, expire_in, shown}

self : (key : Bytes) → eq_bytes key key ≡ true
self key = (eq_bytes_iff key key).1 refl

module _ {V : Type 0} where
  found : (key : Bytes) (v : V) (d : Dict V) → lookup key (insert key v d) ≡ some v
  found key v d = lookup-insert key key v d ∙ rw (self key) refl

module _ {Z F : Type 0} where
  -- The database at another time.
  abbrev pub at : ℤ → Database Z F → Database Z F
  at now db = record db { clock = now }

  -- What `get_or_create` leaves of the expirations.
  abbrev unexpired : Database Z F → Bytes → Dict ℤ
  unexpired db key =
      if Keyspace.is_expired db key then remove key db.data_expiration_ms else db.data_expiration_ms

  -- The string is stored at the key.
  abbrev pub written : Database Z F → Bytes → Bytes → Database Z F
  written db key val =
      store key (Value.string (StringValue.new val)) (Keyspace.get_or_create db key).0

  -- What `get_or_create` leaves, but for the value at its key.
  pub get_or_create_lem :
      (db : Database Z F) (key : Bytes)
      → ((Keyspace.get_or_create db key).0.data_expiration_ms ≡ unexpired db key)
        × ((Keyspace.get_or_create db key).0.clock ≡ db.clock)
        × ((Keyspace.get_or_create db key).0.loading ≡ db.loading)
  unfolding Keyspace.get_or_create Keyspace.remove_msexpiration
  get_or_create_lem db key = elim (Bool-cases (Keyspace.is_expired db key)) [
    | inl e ↦ elim (Bool-cases (is_some (lookup key db.data_))) [
      | inl f ↦ rw (e, f) (refl, refl, refl)
      | inr f ↦ rw (e, f) (refl, refl, refl)
    ]
    | inr e ↦ elim (Bool-cases (is_some (lookup key db.data_))) [
      | inl f ↦ rw (e, f) (refl, refl, refl)
      | inr f ↦ rw (e, f) (refl, refl, refl)
    ]
  ]

module _ {Z F : Type 0} ⦃sizes : Sizes Z F⦄ where
  -- SET runs through these steps.
  generic_set_lem :
      (db : Database Z F) (key val : Bytes) (expiration : Option ℤ)
      → generic_set key val false false expiration db
        ≡ (continues true, expire_in key expiration (Keyspace.key_updated (written db key val) key))
  unfolding generic_set ◌>>=◌ update
  generic_set_lem db key val expiration = refl

  -- A string is never swept away.
  swept-string :
      (db : Database Z F) (key : Bytes) (s : StringValue.ValueString)
      → lookup key db.data_ ≡ some (Value.string s)
      → swept key db ≡ db
  unfolding Value.is_empty
  swept-string db key s e = rw e refl

  key_updated-string :
      (db : Database Z F) (key : Bytes) (s : StringValue.ValueString)
      → lookup key db.data_ ≡ some (Value.string s)
      → ((Keyspace.key_updated db key).data_ ≡ db.data_)
        × ((Keyspace.key_updated db key).data_expiration_ms ≡ db.data_expiration_ms)
        × ((Keyspace.key_updated db key).clock ≡ db.clock)
        × ((Keyspace.key_updated db key).loading ≡ db.loading)
  unfolding Keyspace.key_updated
  key_updated-string db key s e =
      let same = swept-string db key s e in
      (
        ap (λ d. d.data_) same,
        ap (λ d. d.data_expiration_ms) same,
        ap (λ d. d.clock) same,
        ap (λ d. d.loading) same,
      )

  -- What SET without an expiration leaves at its key.
  abbrev after_set : Database Z F → Bytes → Bytes → Database Z F
  after_set db key val = Keyspace.key_updated (written db key val) key

  written_value :
      (db : Database Z F) (key val : Bytes)
      → lookup key (written db key val).data_ ≡ some (Value.string (StringValue.new val))
  written_value db key val = found key _ _

  set_value :
      (db : Database Z F) (key val : Bytes)
      → lookup key (after_set db key val).data_ ≡ some (Value.string (StringValue.new val))
  set_value db key val =
      let (vals, exps, clock, loading) =
        key_updated-string (written db key val) key _ (written_value db key val) in
      ap (lookup key) vals ∙ written_value db key val

  generic_get_lem :
      (db : Database Z F) (key : Bytes) (err_on_wrongtype : Bool) (s : StringValue.ValueString)
      → Keyspace.is_expired db key ≡ false
      → lookup key db.data_ ≡ some (Value.string s)
      → generic_get db key err_on_wrongtype ≡ Response.bytes (StringValue.to_vec s)
  unfolding generic_get Keyspace.get
  generic_get_lem db key err_on_wrongtype s e f =
      let reads : Keyspace.get db key ≡ some (Value.string s) = rw e f in
      ap (shown err_on_wrongtype) reads

  generic_get-expired :
      (db : Database Z F) (key : Bytes) (err_on_wrongtype : Bool)
      → Keyspace.is_expired db key ≡ true
      → generic_get db key err_on_wrongtype ≡ Response.nil
  unfolding generic_get Keyspace.get
  generic_get-expired db key err_on_wrongtype e =
      let reads : Keyspace.get db key ≡ none = rw e refl in ap (shown err_on_wrongtype) reads

  expiring_value :
      (db : Database Z F) (key : Bytes) (t now : ℤ) (s : StringValue.ValueString)
      → lookup key db.data_ ≡ some (Value.string s)
      → lookup key (at now (Keyspace.set_msexpiration db key t)).data_ ≡ some (Value.string s)
  unfolding Keyspace.set_msexpiration
  expiring_value db key t now s e =
      let (vals, exps, clock, mode) = key_updated-string db key s e in ap (lookup key) vals ∙ e

  expiring_expired :
      (db : Database Z F) (key : Bytes) (t now : ℤ) (s : StringValue.ValueString)
      → lookup key db.data_ ≡ some (Value.string s)
      → db.loading ≡ false
      → Keyspace.is_expired (at now (Keyspace.set_msexpiration db key t)) key ≡ leb_ℤ t now
  unfolding Keyspace.set_msexpiration Keyspace.is_expired
  expiring_expired db key t now s e m =
      let (vals, exps, clock, mode) = key_updated-string db key s e in
      let times = (Keyspace.key_updated db key).data_expiration_ms in
      ap (λ l. not l && Keyspace.due (lookup key (insert key t times)) now) (mode ∙ m)
      ∙ ap (λ o. Keyspace.due o now) (found key t times)

  -- After SET with an expiration in `ms` milliseconds, a server that is not loading answers GET with
  -- the stored string before the i64 sum of the time of SET and `ms`, and with nil from then on.
  pub generic_get-set_expiring :
      (db : Database Z F) (key val : Bytes) (ms now : ℤ) (err_on_wrongtype : Bool)
      → db.loading ≡ false
      → generic_get (at now (generic_set key val false false (some ms) db).1) key err_on_wrongtype
        ≡ (if leb_ℤ (wrap_i64 (ms +ℤ db.clock)) now
            then Response.nil
            else Response.bytes (StringValue.to_vec (StringValue.new val)))
  generic_get-set_expiring db key val ms now err_on_wrongtype loading =
      let t = wrap_i64 (ms +ℤ db.clock) in
      let u = after_set db key val in
      let (vals, exps, clock, mode) =
        key_updated-string (written db key val) key _ (written_value db key val) in
      let (exps', clock', mode') = get_or_create_lem db key in
      let (vals2, exps2, clock2, mode2) = key_updated-string u key _ (set_value db key val) in
      let after = at now (Keyspace.set_msexpiration u key (wrap_i64 (ms +ℤ u.clock))) in
      let value : lookup key after.data_ ≡ some (Value.string (StringValue.new val)) =
        expiring_value u key _ now _ (set_value db key val) in
      let expired : Keyspace.is_expired after key ≡ leb_ℤ t now =
        expiring_expired u key _ now _ (set_value db key val) (mode ∙ mode' ∙ loading)
        ∙ rw (clock, clock') refl in
      ap (λ o. generic_get (at now o.1) key err_on_wrongtype) (generic_set_lem db key val (some ms))
      ∙ (elim (Bool-cases (leb_ℤ t now)) [
        | inl e ↦ rw e (generic_get-expired after key err_on_wrongtype (expired ∙ e))
        | inr e ↦ rw e (generic_get_lem after key err_on_wrongtype _ (expired ∙ e) value)
      ])
