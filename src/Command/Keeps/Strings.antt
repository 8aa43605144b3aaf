-- ===== src/Command/Keeps/Strings.antt =====
-- The handlers of string values keep what the keyspace keeps at their keys.
use redvector.Base.{Bool, Option, none, some, Bytes, ℤ, ℕ, Result, ok, err, Run, returns, panics}
use redvector.Dbutil.{OperationError}
use redvector.Parser.{ParsedCommand}
use redvector.Response.{Response, Responses}
use redvector.Value.{Value, Sizes}
use redvector.Keyspace.{Database}
use redvector.Command.{modify}
use redvector.Command.Strings
use redvector.Command.Keeps.{Keeps, Keeps-modify}
use redvector.Command.Keeps.Stable.{Stable, StableAt, StableEverywhere, stable_rules}

module _ {Z F : Type 0} ⦃sizes : Sizes Z F⦄ {P : Database Z F → Type 0} where
  set_option-Keeps :
      (parser : ParsedCommand) (i : ℕ) (options : Strings.Options)
      → Keeps P (Strings.set_option parser i options)
  unfolding Strings.set_option
  set_option-Keeps parser i options = search stable_rules depth 60

  expire_in-Keeps :
      (key : Bytes) (expiration : Option ℤ) (st : Stable P key)
      → Keeps P (modify (Strings.expire_in key expiration))
  expire_in-Keeps key none st = Keeps-modify _ (λ db h. h)
  expire_in-Keeps key (some t) st = Keeps-modify _ (λ db h. st.on_expire _ db h)

  updated-Keeps :
      (key : Bytes) (expiration : Option ℤ) (result : Result (Unit {0}) OperationError)
      (st : Stable P key)
      → Keeps P (Strings.updated key expiration result)
  updated-Keeps key expiration (ok a) st = search (stable_rules, expire_in-Keeps) depth 20
  updated-Keeps key expiration (err e) st = search stable_rules depth 20

  pub generic_set-Keeps :
      (key : Bytes) (val : Bytes) (nx : Bool) (xx : Bool) (expiration : Option ℤ)
      (st : Stable P key)
      → Keeps P (Strings.generic_set key val nx xx expiration)
  unfolding Strings.generic_set
  generic_set-Keeps key val nx xx expiration st = search (stable_rules, updated-Keeps) depth 60

  pub set-Keeps : (parser : ParsedCommand) (st : StableAt P parser) → Keeps P (Strings.set parser)
  unfolding Strings.set
  set-Keeps parser st = search (stable_rules, set_option-Keeps, generic_set-Keeps) depth 60

  pub setnx-Keeps :
      (parser : ParsedCommand) (st : StableAt P parser) → Keeps P (Strings.setnx parser)
  unfolding Strings.setnx
  setnx-Keeps parser st = search (stable_rules, generic_set-Keeps) depth 60

  pub setex-Keeps :
      (parser : ParsedCommand) (st : StableAt P parser) → Keeps P (Strings.setex parser)
  unfolding Strings.setex
  setex-Keeps parser st = search (stable_rules, generic_set-Keeps) depth 60

  pub psetex-Keeps :
      (parser : ParsedCommand) (st : StableAt P parser) → Keeps P (Strings.psetex parser)
  unfolding Strings.psetex
  psetex-Keeps parser st = search (stable_rules, generic_set-Keeps) depth 60

  pub length_or_return-Keeps :
      (result : Result ℕ OperationError) → Keeps P (Strings.length_or_return result)
  length_or_return-Keeps (ok a) = search stable_rules depth 20
  length_or_return-Keeps (err e) = search stable_rules depth 20

  pub append-Keeps :
      (parser : ParsedCommand) (st : StableAt P parser) → Keeps P (Strings.append parser)
  unfolding Strings.append
  append-Keeps parser st = search (stable_rules, length_or_return-Keeps) depth 60

  replaced-Keeps :
      (key : Bytes) (r : Response) (result : Result (Unit {0}) OperationError) (st : Stable P key)
      → Keeps P (Strings.replaced key r result)
  replaced-Keeps key r (ok a) st = search stable_rules depth 20
  replaced-Keeps key r (err e) st = search stable_rules depth 20

  pub getset-Keeps :
      (parser : ParsedCommand) (st : StableAt P parser) → Keeps P (Strings.getset parser)
  unfolding Strings.getset
  getset-Keeps parser st = search (stable_rules, replaced-Keeps) depth 60

  published_or_return-Keeps :
      (key : Bytes) (result : Result (Unit {0}) OperationError) (st : Stable P key)
      → Keeps P (Strings.published_or_return key result)
  published_or_return-Keeps key (ok a) st = search stable_rules depth 20
  published_or_return-Keeps key (err e) st = search stable_rules depth 20

  set_pair-Keeps :
      (parser : ParsedCommand) (i : ℕ) (u : Unit {0}) (st : StableEverywhere P)
      → Keeps P (Strings.set_pair parser i u)
  unfolding Strings.set_pair
  set_pair-Keeps parser i u st = search (stable_rules, published_or_return-Keeps) depth 60

  pub mset-Keeps :
      (parser : ParsedCommand) (st : StableEverywhere P) → Keeps P (Strings.mset parser)
  unfolding Strings.mset
  mset-Keeps parser st = search (stable_rules, set_pair-Keeps) depth 60

  check_absent-Keeps :
      (parser : ParsedCommand) (i : ℕ) (u : Unit {0}) → Keeps P (Strings.check_absent parser i u)
  unfolding Strings.check_absent
  check_absent-Keeps parser i u = search stable_rules depth 60

  pub msetnx-Keeps :
      (parser : ParsedCommand) (st : StableEverywhere P) → Keeps P (Strings.msetnx parser)
  unfolding Strings.msetnx
  msetnx-Keeps parser st = search (stable_rules, set_pair-Keeps, check_absent-Keeps) depth 60

  returned_data-Keeps : (r : Run Bytes) → Keeps P (Strings.returned_data r)
  returned_data-Keeps (returns a) = search stable_rules depth 20
  returned_data-Keeps panics = search stable_rules depth 20

  returned_range-Keeps :
      (r : Result (Run Bytes) OperationError) → Keeps P (Strings.returned_range r)
  returned_range-Keeps (ok a) = search (stable_rules, returned_data-Keeps) depth 20
  returned_range-Keeps (err e) = search stable_rules depth 20

  range_of-Keeps :
      (v : Option (Value Z F)) (start : ℤ) (stop : ℤ) → Keeps P (Strings.range_of v start stop)
  range_of-Keeps none start stop = search stable_rules depth 20
  range_of-Keeps (some v) start stop = search (stable_rules, returned_range-Keeps) depth 20

  pub getrange-Keeps : (parser : ParsedCommand) → Keeps P (Strings.getrange parser)
  unfolding Strings.getrange
  getrange-Keeps parser = search (stable_rules, range_of-Keeps) depth 60

  pub setrange-Keeps :
      (parser : ParsedCommand) (st : StableAt P parser) → Keeps P (Strings.setrange parser)
  unfolding Strings.setrange
  setrange-Keeps parser st = search stable_rules depth 60

  pub setbit-Keeps :
      (parser : ParsedCommand) (st : StableAt P parser) → Keeps P (Strings.setbit parser)
  unfolding Strings.setbit
  setbit-Keeps parser st = search stable_rules depth 60

  generic_incr-Keeps :
      (parser : ParsedCommand) (by : ℤ) (st : StableAt P parser)
      → Keeps P (Strings.generic_incr parser by)
  unfolding Strings.generic_incr
  generic_incr-Keeps parser by st = search stable_rules depth 60

  pub incr-Keeps : (parser : ParsedCommand) (st : StableAt P parser) → Keeps P (Strings.incr parser)
  unfolding Strings.incr
  incr-Keeps parser st = search (stable_rules, generic_incr-Keeps) depth 60

  pub decr-Keeps : (parser : ParsedCommand) (st : StableAt P parser) → Keeps P (Strings.decr parser)
  unfolding Strings.decr
  decr-Keeps parser st = search (stable_rules, generic_incr-Keeps) depth 60

  pub incrby-Keeps :
      (parser : ParsedCommand) (st : StableAt P parser) → Keeps P (Strings.incrby parser)
  unfolding Strings.incrby
  incrby-Keeps parser st = search (stable_rules, generic_incr-Keeps) depth 60

  pub decrby-Keeps :
      (parser : ParsedCommand) (st : StableAt P parser) → Keeps P (Strings.decrby parser)
  unfolding Strings.decrby
  decrby-Keeps parser st = search (stable_rules, generic_incr-Keeps) depth 60

  pub get-Keeps : (parser : ParsedCommand) → Keeps P (Strings.get parser)
  unfolding Strings.get
  get-Keeps parser = search stable_rules depth 60

  pub strlen-Keeps : (parser : ParsedCommand) → Keeps P (Strings.strlen parser)
  unfolding Strings.strlen
  strlen-Keeps parser = search stable_rules depth 60

  pub getbit-Keeps : (parser : ParsedCommand) → Keeps P (Strings.getbit parser)
  unfolding Strings.getbit
  getbit-Keeps parser = search stable_rules depth 60

  get_one-Keeps :
      (parser : ParsedCommand) (i : ℕ) (rs : Responses) → Keeps P (Strings.get_one parser i rs)
  unfolding Strings.get_one
  get_one-Keeps parser i rs = search stable_rules depth 60

  pub mget-Keeps : (parser : ParsedCommand) → Keeps P (Strings.mget parser)
  unfolding Strings.mget
  mget-Keeps parser = search (stable_rules, get_one-Keeps) depth 60
