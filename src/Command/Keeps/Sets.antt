-- ===== src/Command/Keeps/Sets.antt =====
-- The handlers of set values keep what the keyspace keeps at their keys.
use redvector.Base.{
  ◌≡◌, Bool, true, false, Option, none, some, Bytes, ℤ, ℕ, Result, ok, err, Run, returns, panics,
}
use redvector.Base
use redvector.Dbutil.{OperationError}
use redvector.Parser.{ParsedCommand}
use redvector.Response.{Response}
use redvector.Value.{Value, Sizes}
use redvector.Keyspace.{Database}
use redvector.Command.Sets
use redvector.Command.Keeps.{Keeps}
use redvector.Command.Keeps.Stable.{Stable, StableAt, StableEverywhere, stable_rules}

module _ {Z F : Type 0} ⦃sizes : Sizes Z F⦄ {P : Database Z F → Type 0} where
  pub sismember-Keeps : (parser : ParsedCommand) → Keeps P (Sets.sismember parser)
  unfolding Sets.sismember
  sismember-Keeps parser = search stable_rules depth 60

  pub smembers-Keeps : (parser : ParsedCommand) → Keeps P (Sets.smembers parser)
  unfolding Sets.smembers
  smembers-Keeps parser = search stable_rules depth 60

  pub scard-Keeps : (parser : ParsedCommand) → Keeps P (Sets.scard parser)
  unfolding Sets.scard
  scard-Keeps parser = search stable_rules depth 60

  or_return-Keeps : {A : Type 0} (r : Result A OperationError) → Keeps P (Sets.or_return r)
  or_return-Keeps (ok a) = search stable_rules
  or_return-Keeps (err e) = search stable_rules

  expected-Keeps : {A : Type 0} (r : Result A OperationError) → Keeps P (Sets.expected r)
  expected-Keeps (ok a) = search stable_rules
  expected-Keeps (err e) = search stable_rules

  pub add_member-Keeps :
      (parser : ParsedCommand) (key : Bytes) (i : ℕ) (c : ℕ) (st : Stable P key)
      → Keeps P (Sets.add_member parser key i c)
  unfolding Sets.add_member
  add_member-Keeps parser key i c st = search (stable_rules, or_return-Keeps) depth 60

  pub remove_member-Keeps :
      (parser : ParsedCommand) (key : Bytes) (i : ℕ) (c : ℕ) (st : Stable P key)
      → Keeps P (Sets.remove_member parser key i c)
  unfolding Sets.remove_member
  remove_member-Keeps parser key i c st = search (stable_rules, or_return-Keeps) depth 60

  pub sadd-Keeps : (parser : ParsedCommand) (st : StableAt P parser) → Keeps P (Sets.sadd parser)
  unfolding Sets.sadd
  sadd-Keeps parser st = search (stable_rules, add_member-Keeps) depth 60

  pub srem-Keeps : (parser : ParsedCommand) (st : StableAt P parser) → Keeps P (Sets.srem parser)
  unfolding Sets.srem
  srem-Keeps parser st = search (stable_rules, remove_member-Keeps) depth 60

  value_at-Keeps :
      (parser : ParsedCommand) (i : ℕ) (sets : Base.List (Value Z F))
      → Keeps P (Sets.value_at parser i sets)
  unfolding Sets.value_at
  value_at-Keeps parser i sets = search stable_rules depth 60

  get_values-Keeps : (parser : ParsedCommand) (start : ℕ) → Keeps P (Sets.get_values parser start)
  unfolding Sets.get_values
  get_values-Keeps parser start = search (stable_rules, value_at-Keeps) depth 60

  present_or-Keeps : (r : Response) (v : Option (Value Z F)) → Keeps P (Sets.present_or r v)
  present_or-Keeps r none = search stable_rules depth 20
  present_or-Keeps r (some v) = search stable_rules depth 20

  pub sdiff-Keeps : (parser : ParsedCommand) → Keeps P (Sets.sdiff parser)
  unfolding Sets.sdiff
  sdiff-Keeps parser = search (stable_rules, get_values-Keeps, present_or-Keeps) depth 60

  pub sinter-Keeps : (parser : ParsedCommand) → Keeps P (Sets.sinter parser)
  unfolding Sets.sinter
  sinter-Keeps parser = search (stable_rules, get_values-Keeps, present_or-Keeps) depth 60

  pub sunion-Keeps : (parser : ParsedCommand) → Keeps P (Sets.sunion parser)
  unfolding Sets.sunion
  sunion-Keeps parser = search (stable_rules, get_values-Keeps) depth 60

  taken-Keeps : (r : Option (Result Bool OperationError)) → Keeps P (Sets.taken r)
  taken-Keeps none = search stable_rules depth 20
  taken-Keeps (some (ok false)) = search stable_rules depth 20
  taken-Keeps (some (ok true)) = search stable_rules depth 20
  taken-Keeps (some (err e)) = search stable_rules depth 20

  pub smove-Keeps : (parser : ParsedCommand) (st : StableEverywhere P) → Keeps P (Sets.smove parser)
  unfolding Sets.smove
  smove-Keeps parser st = search (stable_rules, taken-Keeps, expected-Keeps) depth 60 fits 20000

  pub sdiffstore-Keeps :
      (parser : ParsedCommand) (st : StableAt P parser) → Keeps P (Sets.sdiffstore parser)
  unfolding Sets.sdiffstore
  sdiffstore-Keeps parser st =
      search (stable_rules, get_values-Keeps, present_or-Keeps, or_return-Keeps) depth 60

  pub sinterstore-Keeps :
      (parser : ParsedCommand) (st : StableAt P parser) → Keeps P (Sets.sinterstore parser)
  unfolding Sets.sinterstore
  sinterstore-Keeps parser st = search (stable_rules, get_values-Keeps, or_return-Keeps) depth 60

  pub sunionstore-Keeps :
      (parser : ParsedCommand) (st : StableAt P parser) → Keeps P (Sets.sunionstore parser)
  unfolding Sets.sunionstore
  sunionstore-Keeps parser st = search (stable_rules, get_values-Keeps, or_return-Keeps) depth 60
