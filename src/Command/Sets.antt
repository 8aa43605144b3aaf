-- ===== src/Command/Sets.antt =====
-- The handlers of set values in command/src/command.rs.
use redvector.Base.{
  ℕ, ◌+◌, ◌-◌, Bool, true, false, Option, none, some, List, [], ◌∷◌, ◌++◌, Bytes, codes, Result, ok,
  err, leb, ltb, if◌then◌else◌, length,
}
use redvector.Dbutil.{OperationError}
use redvector.Parser.{ParsedCommand, get_vec}
use redvector.Response.{Response, done}
use redvector.Value.{Value, Sizes}
use redvector.Value
use redvector.Keyspace.{Database, store}
use redvector.Keyspace
use redvector.Command.{
  Handler, answered, failure, count, flag, pure, reply, panic, gets, panic, call, ◌>>=◌, ◌>>◌,
  validate, try_validate, validate_arguments_exact, validate_arguments_gte, update, update_found,
  key_updated, for_, about, data_array,
}
use redvector.Value.Sets

abbrev members : List Bytes → Response
members els = Response.array (data_array els)

module _ {Z F : Type 0} where
  abbrev pub or_return : {A : Type 0} → Result A OperationError → Handler (Database Z F) A
  or_return (ok a) = pure a
  or_return (err e) = reply (failure e)

  abbrev membership : Bytes → Option (Value Z F) → Response
  membership member none = count 0
  membership member (some el) = answered flag (Value.sismember el member)

  unfoldable pub sismember : ParsedCommand → Handler (Database Z F) Response
  sismember parser = do
    validate_arguments_exact parser 3
    key ← try_validate (get_vec parser 1) (codes "Invalid key")
    member ← try_validate (get_vec parser 2) (codes "Invalid key")
    about key (membership member)

  abbrev members_of : Option (Value Z F) → Response
  members_of none = Response.array done
  members_of (some el) = answered (λ els. Response.array (data_array els)) (Value.smembers el)

  unfoldable pub smembers : ParsedCommand → Handler (Database Z F) Response
  smembers parser = do
    validate_arguments_exact parser 2
    key ← try_validate (get_vec parser 1) (codes "Invalid key")
    about key members_of

  abbrev cardinality : Option (Value Z F) → Response
  cardinality none = count 0
  cardinality (some el) = answered count (Value.scard el)

  unfoldable pub scard : ParsedCommand → Handler (Database Z F) Response
  scard parser = do
    validate_arguments_exact parser 2
    key ← try_validate (get_vec parser 1) (codes "Invalid key")
    about key cardinality

  -- One round of the loop of `sadd`, which counts what was added.
  unfoldable pub add_member : ParsedCommand → Bytes → ℕ → ℕ → Handler (Database Z F) ℕ
  add_member parser key i added = do
    val ← try_validate (get_vec parser i) (codes "Invalid value")
    limit ← gets (λ db. db.set_max_intset_entries)
    result ← update key (λ el. Value.sadd el val limit)
    new ← or_return result
    pure (if new then added + 1 else added)

  -- One round of the loop of `srem`, which counts what was removed.
  unfoldable pub remove_member : ParsedCommand → Bytes → ℕ → ℕ → Handler (Database Z F) ℕ
  remove_member parser key i removed = do
    val ← try_validate (get_vec parser i) (codes "Invalid value")
    result ← update key (λ el. Value.srem el val)
    there ← or_return result
    pure (if there then removed + 1 else removed)

  -- `get_values!` without its checks: one round collects one value.
  unfoldable pub value_at :
      ParsedCommand → ℕ → List (Value Z F) → Handler (Database Z F) (List (Value Z F))
  value_at parser i sets = do
    key ← try_validate (get_vec parser i) (codes "Invalid key")
    found ← gets (λ db. Keyspace.get db key)
    pure (sets ++ Keyspace.or_nil found ∷ [])

  -- `get_values!(start, parser.argv.len(), ..)`, whose second check holds.
  unfoldable pub get_values : ParsedCommand → ℕ → Handler (Database Z F) (List (Value Z F))
  get_values parser start = do
    validate_arguments_gte parser start
    for_ (length parser.argv - start) start 1 (value_at parser) []

  abbrev pub present_or : Response → Option (Value Z F) → Handler (Database Z F) (Value Z F)
  present_or r none = reply r
  present_or r (some el) = pure el

  unfoldable pub sdiff : ParsedCommand → Handler (Database Z F) Response
  sdiff parser = do
    key ← try_validate (get_vec parser 1) (codes "Invalid key")
    found ← gets (λ db. Keyspace.get db key)
    el ← present_or (Response.array done) found
    sets ← get_values parser 2
    pure (answered members (Sets.sdiff el sets))

  unfoldable pub sinter : ParsedCommand → Handler (Database Z F) Response
  sinter parser = do
    key ← try_validate (get_vec parser 1) (codes "Invalid key")
    found ← gets (λ db. Keyspace.get db key)
    el ← present_or (Response.array done) found
    sets ← get_values parser 2
    pure (answered members (Sets.sinter el sets))

  unfoldable pub sunion : ParsedCommand → Handler (Database Z F) Response
  sunion parser = do
    key ← try_validate (get_vec parser 1) (codes "Invalid key")
    found ← gets (λ db. Keyspace.get db key)
    sets ← get_values parser 2
    pure (answered members (Sets.sunion (Keyspace.or_nil found) sets))

module _ {Z F : Type 0} ⦃sizes : Sizes Z F⦄ where
  unfoldable pub sadd : ParsedCommand → Handler (Database Z F) Response
  sadd parser = do
    validate (ltb 2 (length parser.argv)) (codes "Wrong number of parameters")
    key ← try_validate (get_vec parser 1) (codes "Invalid key")
    update key (λ el. (el, tt))
    added ← for_ (length parser.argv - 2) 2 1 (add_member parser key) 0
    key_updated key
    pure (count added)

  unfoldable pub srem : ParsedCommand → Handler (Database Z F) Response
  srem parser = do
    validate (ltb 2 (length parser.argv)) (codes "Wrong number of parameters")
    key ← try_validate (get_vec parser 1) (codes "Invalid key")
    update key (λ el. (el, tt))
    removed ← for_ (length parser.argv - 2) 2 1 (remove_member parser key) 0
    key_updated key
    pure (count removed)

  abbrev is_set_or_absent : Option (Value Z F) → Bool
  is_set_or_absent none = true
  is_set_or_absent (some e) = Sets.is_set e

  -- What `srem` on the source answers decides whether the member is moved.
  abbrev pub taken : Option (Result Bool OperationError) → Handler (Database Z F) (Unit {0})
  taken none = reply (count 0)
  taken (some (ok false)) = reply (count 0)
  taken (some (ok true)) = pure tt
  taken (some (err e)) = reply (failure e)

  abbrev pub expected : {A : Type 0} → Result A OperationError → Handler (Database Z F) A
  expected (ok a) = pure a
  expected (err e) = panic

  unfoldable pub smove : ParsedCommand → Handler (Database Z F) Response
  smove parser = do
    validate_arguments_exact parser 4
    source_key ← try_validate (get_vec parser 1) (codes "Invalid key")
    destination_key ← try_validate (get_vec parser 2) (codes "Invalid destination")
    member ← try_validate (get_vec parser 3) (codes "Invalid member")
    right ← gets (λ db. is_set_or_absent (Keyspace.get db destination_key))
    validate right (codes "WRONGTYPE Operation against a key holding the wrong kind of value")
    removed ← update_found source_key (λ el. Value.srem el member)
    taken removed
    limit ← gets (λ db. db.set_max_intset_entries)
    added ← update destination_key (λ el. Value.sadd el member limit)
    _ ← expected added
    key_updated source_key
    key_updated destination_key
    pure (count 1)

  -- The end of the handlers that store a set.
  abbrev store_set : Bytes → Result (List Bytes) OperationError → Handler (Database Z F) Response
  store_set destination_key result = do
    set ← or_return result
    call (λ db. Keyspace.remove_key db destination_key)
    update destination_key (λ el. (Sets.create_set el set, tt))
    key_updated destination_key
    pure (count (length set))

  -- The three handlers differ in what they do with a missing first set, and in the operation.
  abbrev storing :
      ParsedCommand
      → (Option (Value Z F) → Handler (Database Z F) (Value Z F))
      → (Value Z F → List (Value Z F) → Result (List Bytes) OperationError)
      → Handler (Database Z F) Response
  storing parser first op = do
    validate (leb 3 (length parser.argv)) (codes "Wrong number of parameters")
    destination_key ← try_validate (get_vec parser 1) (codes "Invalid destination")
    key ← try_validate (get_vec parser 2) (codes "Invalid key")
    found ← gets (λ db. Keyspace.get db key)
    el ← first found
    sets ← get_values parser 3
    store_set destination_key (op el sets)

  unfoldable pub sdiffstore : ParsedCommand → Handler (Database Z F) Response
  sdiffstore parser = storing parser (present_or (count 0)) Sets.sdiff

  unfoldable pub sinterstore : ParsedCommand → Handler (Database Z F) Response
  sinterstore parser = storing parser (λ found. pure (Keyspace.or_nil found)) Sets.sinter

  unfoldable pub sunionstore : ParsedCommand → Handler (Database Z F) Response
  sunionstore parser = storing parser (λ found. pure (Keyspace.or_nil found)) Sets.sunion
