-- ===== src/Command/Lists.antt =====
-- The handlers of list values in command/src/command.rs.
use redvector.Base.{
  ℕ, ◌-◌, Bool, true, false, not, Option, none, some, Bytes, codes, eq_bytes, Result, ok, err, Run,
  ℤ, pos, negsuc, leb, ltb_ℤ, magnitude, if◌then◌else◌, length,
}
use redvector.Dbutil.{OperationError}
use redvector.Parser.{ParsedCommand, get_str, get_vec, get_i64}
use redvector.Response.{Response, done}
use redvector.Value.{Value, Sizes}
use redvector.Value
use redvector.Keyspace.{Database, store}
use redvector.Keyspace
use redvector.Command.{
  Handler, answered, failure, ok_status, count, pure, reply, panic, gets, modify, panic, call,
  ◌>>=◌, ◌>>◌, validate, try_validate, validate_arguments_exact, update, update_found, key_updated,
  for_, to_ascii_lowercase, about, data_or_nil, data_array,
}

-- What is answered where `get_mut` finds no value.
abbrev found_or :
    {A : Type 0} → Response → (A → Response) → Option (Result A OperationError) → Response
found_or r f none = r
found_or r f (some result) = answered f result

abbrev is_ok : {A : Type 0} → Result A OperationError → Bool
is_ok (ok a) = true
is_ok (err e) = false

abbrev size_or_minus_one : Option ℕ → Response
size_or_minus_one none = Response.integer (negsuc 0)
size_or_minus_one (some n) = count n

module _ {Z F : Type 0} where
  abbrev item_of : ℤ → Option (Value Z F) → Response
  item_of index none = Response.nil
  item_of index (some el) = answered data_or_nil (Value.lindex el index)

  unfoldable pub lindex : ParsedCommand → Handler (Database Z F) Response
  lindex parser = do
    validate_arguments_exact parser 3
    key ← try_validate (get_vec parser 1) (codes "Invalid key")
    index ← try_validate (get_i64 parser 2) (codes "Invalid index")
    about key (item_of index)

  abbrev size_of : Option (Value Z F) → Response
  size_of none = count 0
  size_of (some el) = answered count (Value.llen el)

  unfoldable pub llen : ParsedCommand → Handler (Database Z F) Response
  llen parser = do
    validate_arguments_exact parser 2
    key ← try_validate (get_vec parser 1) (codes "Invalid key")
    about key size_of

  abbrev items_of : ℤ → ℤ → Option (Value Z F) → Response
  items_of start stop none = Response.array done
  items_of start stop (some el) =
      answered (λ items. Response.array (data_array items)) (Value.lrange el start stop)

  unfoldable pub lrange : ParsedCommand → Handler (Database Z F) Response
  lrange parser = do
    validate_arguments_exact parser 4
    key ← try_validate (get_vec parser 1) (codes "Invalid key")
    start ← try_validate (get_i64 parser 2) (codes "Invalid range")
    stop ← try_validate (get_i64 parser 3) (codes "Invalid range")
    about key (items_of start stop)

  -- A push onto the value of `get_mut`, or the early return where there is none.
  abbrev pub found_or_zero :
      Option (Result ℕ OperationError) → Handler (Database Z F) (Result ℕ OperationError)
  found_or_zero none = reply (count 0)
  found_or_zero (some result) = pure result

  abbrev push_onto : Bytes → Bytes → Bool → Bool → Handler (Database Z F) (Result ℕ OperationError)
  push_onto key val right create =
      if create
      then update key (λ el. Value.push el val right)
      else update_found key (λ el. Value.push el val right) >>= found_or_zero

  -- One round of the loop of `generic_push`: the response so far is replaced.
  unfoldable pub push_one :
      ParsedCommand → Bytes → Bool → Bool → ℕ → Response → Handler (Database Z F) Response
  push_one parser key right create i r = do
    val ← try_validate (get_vec parser i) (codes "Invalid value")
    result ← push_onto key val right create
    pure (answered count result)

module _ {Z F : Type 0} ⦃sizes : Sizes Z F⦄ where
  unfoldable pub generic_push : ParsedCommand → Bool → Bool → Handler (Database Z F) Response
  generic_push parser right create = do
    validate (leb 3 (length parser.argv)) (codes "Wrong number of parameters")
    key ← try_validate (get_vec parser 1) (codes "Invalid key")
    r ← for_ (length parser.argv - 2) 2 1 (push_one parser key right create) Response.nil
    key_updated key
    pure r

  abbrev pub lpush : ParsedCommand → Handler (Database Z F) Response
  lpush parser = generic_push parser false true

  abbrev pub rpush : ParsedCommand → Handler (Database Z F) Response
  rpush parser = generic_push parser true true

  abbrev pub lpushx : ParsedCommand → Handler (Database Z F) Response
  lpushx parser = generic_push parser false false

  abbrev pub rpushx : ParsedCommand → Handler (Database Z F) Response
  rpushx parser = generic_push parser true false

  unfoldable pub generic_pop : ParsedCommand → Bool → Handler (Database Z F) Response
  generic_pop parser right = do
    validate_arguments_exact parser 2
    key ← try_validate (get_vec parser 1) (codes "Invalid key")
    result ← update_found key (λ el. Value.pop el right)
    key_updated key
    pure (found_or Response.nil data_or_nil result)

  abbrev pub lpop : ParsedCommand → Handler (Database Z F) Response
  lpop parser = generic_pop parser false

  abbrev pub rpop : ParsedCommand → Handler (Database Z F) Response
  rpop parser = generic_pop parser true

  -- `db.get(..).map(|el| el.llen())` is an error.
  abbrev not_a_list : Option (Value Z F) → Bool
  not_a_list none = false
  not_a_list (some el) = not (is_ok (Value.llen el))

  -- The list that `get_mut` finds is asked for its length, and then popped.
  abbrev pub checked_source : Option Bool → Handler (Database Z F) (Unit {0})
  checked_source none = reply Response.nil
  checked_source (some true) = pure tt
  checked_source (some false) = reply (Response.error (codes "WRONGTYPE Source is not a list"))

  abbrev pub popped : Option (Result (Option Bytes) OperationError) → Handler (Database Z F) Bytes
  popped none = reply Response.nil
  popped (some (err e)) = reply (failure e)
  popped (some (ok none)) = reply Response.nil
  popped (some (ok (some el))) = pure el

  abbrev pub or_return : {A : Type 0} → Result A OperationError → Handler (Database Z F) A
  or_return (ok a) = pure a
  or_return (err e) = reply (failure e)

  unfoldable pub generic_rpoplpush : Bytes → Bytes → Handler (Database Z F) Response
  generic_rpoplpush source destination = do
    wrong ← gets (λ db. not_a_list (Keyspace.get db destination))
    validate (not wrong) (codes "WRONGTYPE Destination is not a list")
    is_list ← update_found source (λ el. (el, is_ok (Value.llen el)))
    checked_source is_list
    result ← update_found source (λ el. Value.pop el true)
    el ← popped result
    pushed_ ← update destination (λ list. Value.push list el false)
    _ ← or_return pushed_
    key_updated source
    key_updated destination
    pure (Response.bytes el)

  unfoldable pub rpoplpush : ParsedCommand → Handler (Database Z F) Response
  rpoplpush parser = do
    validate_arguments_exact parser 3
    source ← try_validate (get_vec parser 1) (codes "Invalid source")
    destination ← try_validate (get_vec parser 2) (codes "Invalid destination")
    generic_rpoplpush source destination

  unfoldable pub direction : Bytes → Handler (Database Z F) Bool
  direction name =
      if eq_bytes name (codes "after")
      then pure false
      else if eq_bytes name (codes "before")
      then pure true
      else reply (Response.error (codes "ERR syntax error"))

  unfoldable pub linsert : ParsedCommand → Handler (Database Z F) Response
  linsert parser = do
    validate_arguments_exact parser 5
    key ← try_validate (get_vec parser 1) (codes "Invalid key")
    before_str ← try_validate (get_str parser 2) (codes "Syntax error")
    pivot ← try_validate (get_vec parser 3) (codes "Invalid pivot")
    value ← try_validate (get_vec parser 4) (codes "Invalid value")
    before ← direction (to_ascii_lowercase before_str)
    result ← update_found key (λ el. Value.linsert el before pivot value)
    key_updated key
    pure (found_or (Response.integer (negsuc 0)) size_or_minus_one result)

  unfoldable pub lrem : ParsedCommand → Handler (Database Z F) Response
  lrem parser = do
    validate_arguments_exact parser 4
    key ← try_validate (get_vec parser 1) (codes "Invalid key")
    number ← try_validate (get_i64 parser 2) (codes "Invalid count")
    value ← try_validate (get_vec parser 3) (codes "Invalid value")
    result ← update_found key (λ el. Value.lrem el (ltb_ℤ number (pos 0)) (magnitude number) value)
    key_updated key
    pure (found_or (Response.array done) count result)

  unfoldable pub lset : ParsedCommand → Handler (Database Z F) Response
  lset parser = do
    validate_arguments_exact parser 4
    key ← try_validate (get_vec parser 1) (codes "Invalid key")
    index ← try_validate (get_i64 parser 2) (codes "Invalid index")
    value ← try_validate (get_vec parser 3) (codes "Invalid value")
    result ← update_found key (λ el. Value.lset el index value)
    key_updated key
    pure (found_or (Response.error (codes "ERR no such key")) (λ _. ok_status) result)

  abbrev pub trimmed :
      Bytes → Run (Value Z F × Result (Unit {0}) OperationError) → Handler (Database Z F) Response
  trimmed key Run.panics = panic
  trimmed key (Run.returns (el, result)) = do
    modify (store key el)
    pure (answered (λ _. ok_status) result)

  abbrev pub trim_found : Bytes → ℤ → ℤ → Option (Value Z F) → Handler (Database Z F) Response
  trim_found key start stop none = pure ok_status
  trim_found key start stop (some el) = trimmed key (Value.ltrim el start stop)

  unfoldable pub ltrim : ParsedCommand → Handler (Database Z F) Response
  ltrim parser = do
    validate_arguments_exact parser 4
    key ← try_validate (get_vec parser 1) (codes "Invalid key")
    start ← try_validate (get_i64 parser 2) (codes "Invalid start")
    stop ← try_validate (get_i64 parser 3) (codes "Invalid stop")
    found ← call (λ db. Keyspace.get_mut db key)
    r ← trim_found key start stop found
    key_updated key
    pure r
