-- ===== src/Command/Keeps/Expiry.antt =====
-- The handlers of keys and of expirations keep what the keyspace keeps at their keys.
use redvector.Base.{Option, none, some, Bytes, ℤ, ℕ}
use redvector.Parser.{ParsedCommand}
use redvector.Value.{Value, Sizes}
use redvector.Keyspace.{Database}
use redvector.Keyspace
use redvector.Command.Expiry
use redvector.Command.Keeps.{Keeps, Keeps-modify}
use redvector.Command.Keeps.Stable.{Stable, StableAt, StableEverywhere, stable_rules}

module _ {Z F : Type 0} ⦃sizes : Sizes Z F⦄ {P : Database Z F → Type 0} where
  pub exists-Keeps : (parser : ParsedCommand) → Keeps P (Expiry.exists parser)
  unfolding Expiry.exists
  exists-Keeps parser = search stable_rules depth 60

  pub dbsize-Keeps : (parser : ParsedCommand) → Keeps P (Expiry.dbsize parser)
  unfolding Expiry.dbsize
  dbsize-Keeps parser = search stable_rules depth 60

  pub echo-Keeps : (parser : ParsedCommand) → Keeps P (Expiry.echo parser)
  unfolding Expiry.echo
  echo-Keeps parser = search stable_rules depth 60

  pub dbtype-Keeps : (parser : ParsedCommand) → Keeps P (Expiry.dbtype parser)
  unfolding Expiry.dbtype
  dbtype-Keeps parser = search stable_rules depth 60

  generic_ttl-Keeps : (key : Bytes) (d : ℕ) → Keeps P (Expiry.generic_ttl key d)
  unfolding Expiry.generic_ttl
  generic_ttl-Keeps key d = search stable_rules depth 60

  pub ttl-Keeps : (parser : ParsedCommand) → Keeps P (Expiry.ttl parser)
  unfolding Expiry.ttl
  ttl-Keeps parser = search (stable_rules, generic_ttl-Keeps) depth 60

  pub pttl-Keeps : (parser : ParsedCommand) → Keeps P (Expiry.pttl parser)
  unfolding Expiry.pttl
  pttl-Keeps parser = search (stable_rules, generic_ttl-Keeps) depth 60

  replace_option-Keeps : (o : Bytes) → Keeps P (Expiry.replace_option o)
  unfolding Expiry.replace_option
  replace_option-Keeps o = search stable_rules depth 60

  pub restore-Keeps : (parser : ParsedCommand) → Keeps P (Expiry.restore parser)
  unfolding Expiry.restore
  restore-Keeps parser = search (stable_rules, replace_option-Keeps) depth 60

  del_one-Keeps :
      (parser : ParsedCommand) (i : ℕ) (c : ℕ) (st : StableEverywhere P)
      → Keeps P (Expiry.del_one parser i c)
  unfolding Expiry.del_one
  del_one-Keeps parser i c st = search stable_rules depth 60

  pub del-Keeps : (parser : ParsedCommand) (st : StableEverywhere P) → Keeps P (Expiry.del parser)
  unfolding Expiry.del
  del-Keeps parser st = search (stable_rules, del_one-Keeps) depth 60

  generic_expire-Keeps :
      (key : Bytes) (t : ℤ) (st : Stable P key) → Keeps P (Expiry.generic_expire key t)
  unfolding Expiry.generic_expire
  generic_expire-Keeps key t st = search stable_rules depth 60

  pub expire-Keeps :
      (parser : ParsedCommand) (st : StableAt P parser) → Keeps P (Expiry.expire parser)
  unfolding Expiry.expire
  expire-Keeps parser st = search (stable_rules, generic_expire-Keeps) depth 60

  pub expireat-Keeps :
      (parser : ParsedCommand) (st : StableAt P parser) → Keeps P (Expiry.expireat parser)
  unfolding Expiry.expireat
  expireat-Keeps parser st = search (stable_rules, generic_expire-Keeps) depth 60

  pub pexpire-Keeps :
      (parser : ParsedCommand) (st : StableAt P parser) → Keeps P (Expiry.pexpire parser)
  unfolding Expiry.pexpire
  pexpire-Keeps parser st = search (stable_rules, generic_expire-Keeps) depth 60

  pub pexpireat-Keeps :
      (parser : ParsedCommand) (st : StableAt P parser) → Keeps P (Expiry.pexpireat parser)
  unfolding Expiry.pexpireat
  pexpireat-Keeps parser st = search (stable_rules, generic_expire-Keeps) depth 60

  pub persist-Keeps :
      (parser : ParsedCommand) (st : StableAt P parser) → Keeps P (Expiry.persist parser)
  unfolding Expiry.persist
  persist-Keeps parser st = search stable_rules depth 60

  expire_again-Keeps :
      (key : Bytes) (t : Option ℤ) (st : Stable P key) → Keeps P (Expiry.expire_again key t)
  expire_again-Keeps key none st = search stable_rules depth 20
  expire_again-Keeps key (some t) st = search stable_rules depth 20

  taken-Keeps : (v : Option (Value Z F)) → Keeps P (Expiry.taken v)
  taken-Keeps none = search stable_rules depth 20
  taken-Keeps (some v) = search stable_rules depth 20

  pub rename-Keeps :
      (parser : ParsedCommand) (st : StableEverywhere P) → Keeps P (Expiry.rename parser)
  unfolding Expiry.rename
  rename-Keeps parser st = search (stable_rules, expire_again-Keeps, taken-Keeps) depth 60

  pub renamenx-Keeps :
      (parser : ParsedCommand) (st : StableEverywhere P) → Keeps P (Expiry.renamenx parser)
  unfolding Expiry.renamenx
  renamenx-Keeps parser st = search (stable_rules, expire_again-Keeps, taken-Keeps) depth 60

  pub flushdb-Keeps :
      (parser : ParsedCommand) (cleared : (db : Database Z F) → P db → P (Keyspace.clear db))
      → Keeps P (Expiry.flushdb parser)
  unfolding Expiry.flushdb
  flushdb-Keeps parser cleared = search (stable_rules, Keeps-modify) depth 20
