-- ===== src/Command/Keeps/Lists.antt =====
-- The handlers of list values keep what the keyspace keeps at their keys.
use redvector.Base.{
  Bool, true, false, Option, none, some, Bytes, ℤ, ℕ, Result, ok, err, Run, returns, panics,
}
use redvector.Dbutil.{OperationError}
use redvector.Parser.{ParsedCommand}
use redvector.Response.{Response}
use redvector.Value.{Value, Sizes}
use redvector.Keyspace.{Database}
use redvector.Command.Lists
use redvector.Command.Keeps.{Keeps}
use redvector.Command.Keeps.Stable.{Stable, StableAt, StableEverywhere, stable_rules}

module _ {Z F : Type 0} ⦃sizes : Sizes Z F⦄ {P : Database Z F → Type 0} where
  pub lindex-Keeps : (parser : ParsedCommand) → Keeps P (Lists.lindex parser)
  unfolding Lists.lindex
  lindex-Keeps parser = search stable_rules depth 60

  pub llen-Keeps : (parser : ParsedCommand) → Keeps P (Lists.llen parser)
  unfolding Lists.llen
  llen-Keeps parser = search stable_rules depth 60

  pub lrange-Keeps : (parser : ParsedCommand) → Keeps P (Lists.lrange parser)
  unfolding Lists.lrange
  lrange-Keeps parser = search stable_rules depth 60

  found_or_zero-Keeps : (r : Option (Result ℕ OperationError)) → Keeps P (Lists.found_or_zero r)
  found_or_zero-Keeps none = search stable_rules depth 20
  found_or_zero-Keeps (some r) = search stable_rules depth 20

  pub push_one-Keeps :
      (parser : ParsedCommand) (key : Bytes) (right : Bool) (create : Bool) (i : ℕ) (r : Response)
      (st : Stable P key)
      → Keeps P (Lists.push_one parser key right create i r)
  unfolding Lists.push_one
  push_one-Keeps parser key right create i r st =
      search (stable_rules, found_or_zero-Keeps) depth 60

  pub generic_push-Keeps :
      (parser : ParsedCommand) (right : Bool) (create : Bool) (st : StableAt P parser)
      → Keeps P (Lists.generic_push parser right create)
  unfolding Lists.generic_push
  generic_push-Keeps parser right create st = search (stable_rules, push_one-Keeps) depth 60

  pub generic_pop-Keeps :
      (parser : ParsedCommand) (right : Bool) (st : StableAt P parser)
      → Keeps P (Lists.generic_pop parser right)
  unfolding Lists.generic_pop
  generic_pop-Keeps parser right st = search stable_rules depth 60

  checked_source-Keeps : (r : Option Bool) → Keeps P (Lists.checked_source r)
  checked_source-Keeps none = search stable_rules depth 20
  checked_source-Keeps (some true) = search stable_rules depth 20
  checked_source-Keeps (some false) = search stable_rules depth 20

  popped-Keeps : (r : Option (Result (Option Bytes) OperationError)) → Keeps P (Lists.popped r)
  popped-Keeps none = search stable_rules depth 20
  popped-Keeps (some (err e)) = search stable_rules depth 20
  popped-Keeps (some (ok none)) = search stable_rules depth 20
  popped-Keeps (some (ok (some b))) = search stable_rules depth 20

  or_return-Keeps : {A : Type 0} (r : Result A OperationError) → Keeps P (Lists.or_return r)
  or_return-Keeps (ok a) = search stable_rules
  or_return-Keeps (err e) = search stable_rules

  generic_rpoplpush-Keeps :
      (source : Bytes) (destination : Bytes) (st : StableEverywhere P)
      → Keeps P (Lists.generic_rpoplpush source destination)
  unfolding Lists.generic_rpoplpush
  generic_rpoplpush-Keeps source destination st =
      search (stable_rules, checked_source-Keeps, popped-Keeps, or_return-Keeps) depth 60

  pub rpoplpush-Keeps :
      (parser : ParsedCommand) (st : StableEverywhere P) → Keeps P (Lists.rpoplpush parser)
  unfolding Lists.rpoplpush
  rpoplpush-Keeps parser st = search (stable_rules, generic_rpoplpush-Keeps) depth 60

  pub direction-Keeps : (name : Bytes) → Keeps P (Lists.direction name)
  unfolding Lists.direction
  direction-Keeps name = search stable_rules depth 60

  pub linsert-Keeps :
      (parser : ParsedCommand) (st : StableAt P parser) → Keeps P (Lists.linsert parser)
  unfolding Lists.linsert
  linsert-Keeps parser st = search (stable_rules, direction-Keeps) depth 60

  pub lrem-Keeps : (parser : ParsedCommand) (st : StableAt P parser) → Keeps P (Lists.lrem parser)
  unfolding Lists.lrem
  lrem-Keeps parser st = search stable_rules depth 60

  pub lset-Keeps : (parser : ParsedCommand) (st : StableAt P parser) → Keeps P (Lists.lset parser)
  unfolding Lists.lset
  lset-Keeps parser st = search stable_rules depth 60

  trimmed-Keeps :
      (key : Bytes) (r : Run (Value Z F × Result (Unit {0}) OperationError)) (st : Stable P key)
      → Keeps P (Lists.trimmed key r)
  trimmed-Keeps key panics st = search stable_rules depth 20
  trimmed-Keeps key (returns (v, a)) st = search stable_rules depth 20

  pub trim_found-Keeps :
      (key : Bytes) (start : ℤ) (stop : ℤ) (v : Option (Value Z F)) (st : Stable P key)
      → Keeps P (Lists.trim_found key start stop v)
  trim_found-Keeps key start stop none st = search stable_rules depth 20
  trim_found-Keeps key start stop (some v) st = search (stable_rules, trimmed-Keeps) depth 20

  pub ltrim-Keeps : (parser : ParsedCommand) (st : StableAt P parser) → Keeps P (Lists.ltrim parser)
  unfolding Lists.ltrim
  ltrim-Keeps parser st = search (stable_rules, trim_found-Keeps) depth 60
