-- ===== src/Command/Watch.antt =====
-- Transactions: what WATCH, MULTI and EXEC promise.
use redvector.Base.{
  ℕ, ◌≡◌, refl, sym, ◌∙◌, ap, true, false, none, some, List, [], ◌∷◌, Bytes, eq_bytes, eq_bytes_iff,
  if◌then◌else◌, Result, Bool-cases, inl, inr, arith, ◌==◌, ==_iff,
}
use redvector.Dict.{lookup, insert}
use redvector.Dict.Laws.{lookup-insert, lookup-insert_other}
use redvector.Parser.{ParsedCommand, get_vec}
use redvector.Parser
use redvector.Response.{Response}
use redvector.Value.{Sizes}
use redvector.Keyspace.{Database}
use redvector.Keyspace
use redvector.Keyspace.Settled.{NoEmpty, Settled}
use redvector.Command.{Handler, Outcome, continues, replies, aborts}
use redvector.Command.Session.{
  Session, Client, ResponseError, has_key, all_verified, generic_unwatch, closed, exec,
}
use redvector.Command.Settles.{Ends, settling, settling-Settled}

contains-add :
    (ids : List ℕ) (id other : ℕ)
    → Keyspace.contains (Keyspace.add ids id) other
      ≡ (if id == other then true else Keyspace.contains ids other)
unfolding Keyspace.contains
contains-add ids id other = elim (Bool-cases (Keyspace.contains ids id)) [
  | inr e ↦ rw e refl
  | inl e ↦ elim (Bool-cases (id == other)) [
    | inr f ↦ rw (e, f) refl
    | inl f ↦ rw (e, f) (ap (Keyspace.contains ids) (sym ((==_iff id other).0 f)) ∙ e)
  ]
]

-- What holds where a handler ends normally.
Ends-at :
    {S A : Type 0} (Q : S → Type 0) (o : Outcome A) (s : S) (a : A)
    → o ≡ continues a
    → Ends Q (o, s)
    → Q s
Ends-at Q (continues b) s a e h = h
Ends-at Q (replies r) s a e h = cc
Ends-at Q aborts s a e h = cc

module _ {Z F : Type 0} where
  -- One key that does not verify is enough.
  unverified :
      (db : Database Z F) (id : ℕ) (key : Bytes) (keys : List Bytes)
      → has_key key keys ≡ true
      → Keyspace.key_watch_verify db key id ≡ false
      → all_verified db id keys ≡ false
  unfolding has_key all_verified
  unverified db id key [] h e = cc
  unverified db id key (k ∷ keys) h e = elim (Bool-cases (eq_bytes key k)) [
    | inl f ↦
        let same : Keyspace.key_watch_verify db k id ≡ false =
          ap (λ x. Keyspace.key_watch_verify db x id) (sym ((eq_bytes_iff key k).0 f)) ∙ e in
        rw same refl
    | inr f ↦ elim (Bool-cases (Keyspace.key_watch_verify db k id)) [
      | inl g ↦ rw g (unverified db id key keys (ground (arith, h, f)) e)
      | inr g ↦ rw g refl
    ]
  ]

  pub exec-unverified :
      (command : ParsedCommand → Handler (Session Z F) (Result Response ResponseError))
      (s : Session Z F) (key : Bytes)
      → s.client.multi ≡ true
      → has_key key s.client.watched_keys ≡ true
      → Keyspace.key_watch_verify s.db key s.client.id ≡ false
      → exec command s ≡ (continues Response.nil, (generic_unwatch (closed s)).0)
  unfolding exec generic_unwatch
  exec-unverified command s key m h e =
      rw (m, unverified s.db s.client.id key s.client.watched_keys h e) refl

  verify-Settled :
      (db : Database Z F) (key : Bytes) (id : ℕ)
      → lookup key db.watched_keys ≡ none
      → Keyspace.key_watch_verify db key id ≡ false
  unfolding Keyspace.key_watch_verify Keyspace.contains
  verify-Settled db key id e = rw e refl

  -- After a client watches a key it verifies there, and what another client or another key verifies
  -- is as before.
  pub key_watch-verify :
      (db : Database Z F) (key x : Bytes) (id other : ℕ)
      → Keyspace.key_watch_verify (Keyspace.key_watch db key id) x other ≡ (
          if eq_bytes x key
          then (if id == other then true else Keyspace.key_watch_verify db key other)
          else Keyspace.key_watch_verify db x other)
  unfolding Keyspace.key_watch Keyspace.key_watch_verify
  key_watch-verify db key x id other = elim (Bool-cases (eq_bytes x key)) [
    | inr e ↦ rw (e, lookup-insert_other x key _ db.watched_keys e) refl
    | inl e ↦
        let ids = Keyspace.or_nobody (lookup key db.watched_keys) in
        let found : lookup x (insert key (Keyspace.add ids id) db.watched_keys)
            ≡ some (Keyspace.add ids id) =
          lookup-insert x key _ db.watched_keys ∙ rw e refl in
        rw (e, found) (contains-add ids id other)
  ]

module _ {Z F : Type 0} ⦃sizes : Sizes Z F⦄ where
  -- A client watches a key and has started a transaction. When a command of those that settle their
  -- key then ends normally on that key, EXEC answers nil.
  pub exec-settling :
      (name : Bytes) (handler : ParsedCommand → Handler (Database Z F) Response)
      (parser : ParsedCommand) (key : Bytes) (db : Database Z F) (r : Response)
      (command : ParsedCommand → Handler (Session Z F) (Result Response ResponseError))
      (client : Client)
      → lookup name settling ≡ some handler
      → get_vec parser 1 ≡ Parser.ok key
      → NoEmpty db
      → (handler parser db).0 ≡ continues r
      → client.multi ≡ true
      → has_key key client.watched_keys ≡ true
      → (exec command (record { client = client; db = (handler parser db).1 })).0
        ≡ continues Response.nil
  exec-settling name handler parser key db r command client found e h ends m w =
      let settled =
        Ends-at (Settled key) (handler parser db).0 (handler parser db).1 r ends
          (settling-Settled name handler parser key db found e h) in
      ap (λ p. p.0)
        (exec-unverified command (record { client = client; db = (handler parser db).1 }) key m w
          (verify-Settled (handler parser db).1 key client.id settled.unwatched))
