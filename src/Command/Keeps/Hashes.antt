-- ===== src/Command/Keeps/Hashes.antt =====
-- The handlers of hash values keep what the keyspace keeps at their keys.
use redvector.Base.{
  ◌≡◌, Bool, true, false, Option, none, some, Bytes, ℤ, ℕ, Result, ok, err, Run, returns, panics,
}
use redvector.Base
use redvector.Dbutil.{OperationError}
use redvector.Parser.{ParsedCommand}
use redvector.Response.{Response, Responses}
use redvector.Value.{Value, Sizes}
use redvector.Keyspace.{Database}
use redvector.Command.Hashes
use redvector.Command.Keeps.{Keeps}
use redvector.Command.Keeps.Stable.{Stable, StableAt, stable_rules}

module _ {Z F : Type 0} ⦃sizes : Sizes Z F⦄ {P : Database Z F → Type 0} where
  pub hget-Keeps : (parser : ParsedCommand) → Keeps P (Hashes.hget parser)
  unfolding Hashes.hget
  hget-Keeps parser = search stable_rules depth 60

  pub hexists-Keeps : (parser : ParsedCommand) → Keeps P (Hashes.hexists parser)
  unfolding Hashes.hexists
  hexists-Keeps parser = search stable_rules depth 60

  pub hstrlen-Keeps : (parser : ParsedCommand) → Keeps P (Hashes.hstrlen parser)
  unfolding Hashes.hstrlen
  hstrlen-Keeps parser = search stable_rules depth 60

  pub hlen-Keeps : (parser : ParsedCommand) → Keeps P (Hashes.hlen parser)
  unfolding Hashes.hlen
  hlen-Keeps parser = search stable_rules depth 60

  pub hkeys-Keeps : (parser : ParsedCommand) → Keeps P (Hashes.hkeys parser)
  unfolding Hashes.hkeys
  hkeys-Keeps parser = search stable_rules depth 60

  pub hvals-Keeps : (parser : ParsedCommand) → Keeps P (Hashes.hvals parser)
  unfolding Hashes.hvals
  hvals-Keeps parser = search stable_rules depth 60

  pub hgetall-Keeps : (parser : ParsedCommand) → Keeps P (Hashes.hgetall parser)
  unfolding Hashes.hgetall
  hgetall-Keeps parser = search stable_rules depth 60

  with_field-Keeps :
      (rs : Responses) (r : Result (Option Bytes) OperationError) → Keeps P (Hashes.with_field rs r)
  with_field-Keeps rs (ok a) = search stable_rules depth 20
  with_field-Keeps rs (err e) = search stable_rules depth 20

  get_field-Keeps :
      (parser : ParsedCommand) (el : Value Z F) (i : ℕ) (rs : Responses)
      → Keeps P (Hashes.get_field parser el i rs)
  unfolding Hashes.get_field
  get_field-Keeps parser el i rs = search (stable_rules, with_field-Keeps) depth 60

  fields_of-Keeps :
      (parser : ParsedCommand) (v : Option (Value Z F)) → Keeps P (Hashes.fields_of parser v)
  fields_of-Keeps parser none = search stable_rules depth 20
  fields_of-Keeps parser (some v) = search (stable_rules, get_field-Keeps) depth 20

  pub hmget-Keeps : (parser : ParsedCommand) → Keeps P (Hashes.hmget parser)
  unfolding Hashes.hmget
  hmget-Keeps parser = search (stable_rules, fields_of-Keeps) depth 60

  stored_or_return-Keeps : (r : Result Bool OperationError) → Keeps P (Hashes.stored_or_return r)
  stored_or_return-Keeps (ok a) = search stable_rules depth 20
  stored_or_return-Keeps (err e) = search stable_rules depth 20

  pub set_field-Keeps :
      (parser : ParsedCommand) (key : Bytes) (i : ℕ) (u : Unit {0}) (st : Stable P key)
      → Keeps P (Hashes.set_field parser key i u)
  unfolding Hashes.set_field
  set_field-Keeps parser key i u st = search (stable_rules, stored_or_return-Keeps) depth 60

  pub hmset-Keeps :
      (parser : ParsedCommand) (st : StableAt P parser) → Keeps P (Hashes.hmset parser)
  unfolding Hashes.hmset
  hmset-Keeps parser st = search (stable_rules, set_field-Keeps) depth 60

  published-Keeps :
      {A : Type 0} (key : Bytes) (f : A → Response) (r : Result A OperationError)
      (st : Stable P key)
      → Keeps P (Hashes.published key f r)
  published-Keeps key f (ok a) st = search stable_rules depth 20
  published-Keeps key f (err e) st = search stable_rules depth 20

  pub hset-Keeps : (parser : ParsedCommand) (st : StableAt P parser) → Keeps P (Hashes.hset parser)
  unfolding Hashes.hset
  hset-Keeps parser st = search (stable_rules, published-Keeps) depth 60

  pub hincrby-Keeps :
      (parser : ParsedCommand) (st : StableAt P parser) → Keeps P (Hashes.hincrby parser)
  unfolding Hashes.hincrby
  hincrby-Keeps parser st = search (stable_rules, published-Keeps) depth 60

  field_at-Keeps :
      (parser : ParsedCommand) (i : ℕ) (fields : Base.List Bytes)
      → Keeps P (Hashes.field_at parser i fields)
  unfolding Hashes.field_at
  field_at-Keeps parser i fields = search stable_rules depth 60

  deleted-Keeps :
      (key : Bytes) (r : Option (Result ℕ OperationError)) (st : Stable P key)
      → Keeps P (Hashes.deleted key r)
  deleted-Keeps key none st = search stable_rules depth 20
  deleted-Keeps key (some r) st = search (stable_rules, published-Keeps) depth 20

  pub hdel-Keeps : (parser : ParsedCommand) (st : StableAt P parser) → Keeps P (Hashes.hdel parser)
  unfolding Hashes.hdel
  hdel-Keeps parser st = search (stable_rules, field_at-Keeps, deleted-Keeps) depth 60

  unless_there-Keeps :
      (key : Bytes) (field : Bytes) (value : Bytes) (r : Option (Result Bool OperationError))
      (st : Stable P key)
      → Keeps P (Hashes.unless_there key field value r)
  unless_there-Keeps key field value none st = search (stable_rules, published-Keeps) depth 20
  unless_there-Keeps key field value (some (ok true)) st = search stable_rules depth 20
  unless_there-Keeps key field value (some (ok false)) st =
      search (stable_rules, published-Keeps) depth 20
  unless_there-Keeps key field value (some (err e)) st = search stable_rules depth 20

  pub hsetnx-Keeps :
      (parser : ParsedCommand) (st : StableAt P parser) → Keeps P (Hashes.hsetnx parser)
  unfolding Hashes.hsetnx
  hsetnx-Keeps parser st = search (stable_rules, unless_there-Keeps) depth 60
