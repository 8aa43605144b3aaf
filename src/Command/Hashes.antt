-- ===== src/Command/Hashes.antt =====
-- The handlers of hash values in command/src/command.rs.
use redvector.Base.{
  ℕ, zero, suc, ◌+◌, ◌-◌, ◌/◌, ◌%◌, Bool, true, Option, none, some, List, [], ◌∷◌, ◌++◌, Bytes,
  codes, Result, ok, err, ◌==◌, length,
}
use redvector.Dbutil.{OperationError}
use redvector.Parser.{ParsedCommand, get_vec, get_i64}
use redvector.Response.{Response, Responses, done, then_}
use redvector.Value.{Value, Sizes}
use redvector.Keyspace.{Database, store}
use redvector.Keyspace
use redvector.Command.{
  Handler, answered, failure, ok_status, count, flag, pure, reply, gets, ◌>>=◌, ◌>>◌, validate,
  try_validate, validate_arguments_exact, validate_arguments_gte, update, update_found, key_updated,
  for_, about, pushed, data_or_nil, data_array,
}
use redvector.Value.Hashes

abbrev texts : List Bytes → Response
texts items = Response.array (data_array items)

-- The loop of `hmget`: without a value it answers that each field is missing.
abbrev nils : ℕ → Responses
nils zero = done
nils (suc n) = then_ Response.nil (nils n)

module _ {Z F : Type 0} where
  -- The handlers that read one value of the hash at their key, or answer `r` where there is none.
  abbrev reading :
      {A : Type 0}
      → Response
      → (A → Response)
      → (Value Z F → Result A OperationError)
      → Option (Value Z F)
      → Response
  reading r f op none = r
  reading r f op (some el) = answered f (op el)

  abbrev read_key :
      ParsedCommand → (Option (Value Z F) → Response) → Handler (Database Z F) Response
  read_key parser f = do
    validate_arguments_exact parser 2
    key ← try_validate (get_vec parser 1) (codes "Invalid key")
    about key f

  abbrev read_field :
      ParsedCommand → (Bytes → Option (Value Z F) → Response) → Handler (Database Z F) Response
  read_field parser f = do
    validate_arguments_exact parser 3
    key ← try_validate (get_vec parser 1) (codes "Invalid key")
    field ← try_validate (get_vec parser 2) (codes "Invalid field")
    about key (f field)

  unfoldable pub hget : ParsedCommand → Handler (Database Z F) Response
  hget parser =
      read_field parser (λ field. reading Response.nil data_or_nil (λ el. Hashes.hget el field))

  unfoldable pub hexists : ParsedCommand → Handler (Database Z F) Response
  hexists parser =
      read_field parser (λ field. reading (count 0) flag (λ el. Hashes.hexists el field))

  unfoldable pub hstrlen : ParsedCommand → Handler (Database Z F) Response
  hstrlen parser =
      read_field parser (λ field. reading (count 0) count (λ el. Hashes.hstrlen el field))

  unfoldable pub hlen : ParsedCommand → Handler (Database Z F) Response
  hlen parser = read_key parser (reading (count 0) count (λ el. Hashes.hlen el))

  unfoldable pub hkeys : ParsedCommand → Handler (Database Z F) Response
  hkeys parser = read_key parser (reading (texts []) texts (λ el. Hashes.hkeys el))

  unfoldable pub hvals : ParsedCommand → Handler (Database Z F) Response
  hvals parser = read_key parser (reading (texts []) texts (λ el. Hashes.hvals el))

  unfoldable pub hgetall : ParsedCommand → Handler (Database Z F) Response
  hgetall parser = read_key parser (reading (texts []) texts (λ el. Hashes.hgetall el))

  abbrev pub with_field :
      Responses → Result (Option Bytes) OperationError → Handler (Database Z F) Responses
  with_field result (ok value) = pure (pushed result (data_or_nil value))
  with_field result (err e) = reply (failure e)

  unfoldable pub get_field :
      ParsedCommand → Value Z F → ℕ → Responses → Handler (Database Z F) Responses
  get_field parser el i result = do
    field ← try_validate (get_vec parser i) (codes "Invalid field")
    with_field result (Hashes.hget el field)

  abbrev pub fields_of : ParsedCommand → Option (Value Z F) → Handler (Database Z F) Response
  fields_of parser none = pure (Response.array (nils (length parser.argv - 2)))
  fields_of parser (some el) = do
    result ← for_ (length parser.argv - 2) 2 1 (get_field parser el) done
    pure (Response.array result)

  unfoldable pub hmget : ParsedCommand → Handler (Database Z F) Response
  hmget parser = do
    validate_arguments_gte parser 3
    key ← try_validate (get_vec parser 1) (codes "Invalid key")
    el ← gets (λ db. Keyspace.get db key)
    fields_of parser el

  abbrev pub stored_or_return : Result Bool OperationError → Handler (Database Z F) (Unit {0})
  stored_or_return (ok _) = pure tt
  stored_or_return (err e) = reply (failure e)

  -- One round of the loop of `hmset`.
  unfoldable pub set_field :
      ParsedCommand → Bytes → ℕ → Unit {0} → Handler (Database Z F) (Unit {0})
  set_field parser key i _ = do
    field ← try_validate (get_vec parser i) (codes "Invalid field")
    value ← try_validate (get_vec parser (i + 1)) (codes "Invalid value")
    result ← update key (λ el. Hashes.hset el field value)
    stored_or_return result

  -- One round of the loop of `hdel` that collects its fields.
  unfoldable pub field_at : ParsedCommand → ℕ → List Bytes → Handler (Database Z F) (List Bytes)
  field_at parser i fields = do
    field ← try_validate (get_vec parser i) (codes "Invalid field")
    pure (fields ++ field ∷ [])

module _ {Z F : Type 0} ⦃sizes : Sizes Z F⦄ where
  -- The change is published unless it failed.
  abbrev pub published :
      {A : Type 0}
      → Bytes
      → (A → Response)
      → Result A OperationError
      → Handler (Database Z F) Response
  published key f (ok a) = key_updated key >> pure (f a)
  published key f (err e) = pure (failure e)

  unfoldable pub hset : ParsedCommand → Handler (Database Z F) Response
  hset parser = do
    validate_arguments_exact parser 4
    key ← try_validate (get_vec parser 1) (codes "Invalid key")
    field ← try_validate (get_vec parser 2) (codes "Invalid field")
    value ← try_validate (get_vec parser 3) (codes "Invalid value")
    result ← update key (λ el. Hashes.hset el field value)
    published key flag result

  unfoldable pub hmset : ParsedCommand → Handler (Database Z F) Response
  hmset parser = do
    validate_arguments_gte parser 4
    validate ((length parser.argv - 1) % 2 == 1)
        (codes "ERR wrong number of arguments for 'hmset' command")
    key ← try_validate (get_vec parser 1) (codes "Invalid key")
    update key (λ el. (el, tt))
    for_ ((length parser.argv - 1) / 2) 2 2 (set_field parser key) tt
    key_updated key
    pure ok_status

  abbrev pub deleted : Bytes → Option (Result ℕ OperationError) → Handler (Database Z F) Response
  deleted key none = pure (count 0)
  deleted key (some result) = published key count result

  unfoldable pub hdel : ParsedCommand → Handler (Database Z F) Response
  hdel parser = do
    validate_arguments_gte parser 3
    key ← try_validate (get_vec parser 1) (codes "Invalid key")
    fields ← for_ (length parser.argv - 2) 2 1 (field_at parser) []
    result ← update_found key (λ el. Hashes.hdel el fields)
    deleted key result

  -- What `hsetnx` does with the answer of `hexists`, if there is a value.
  abbrev pub unless_there :
      Bytes → Bytes → Bytes → Option (Result Bool OperationError) → Handler (Database Z F) Response
  unless_there key field value (some (ok true)) = pure (count 0)
  unless_there key field value (some (err e)) = pure (failure e)
  unless_there key field value _ = do
    result ← update key (λ el. Hashes.hset el field value)
    published key (λ _. count 1) result

  unfoldable pub hsetnx : ParsedCommand → Handler (Database Z F) Response
  hsetnx parser = do
    validate_arguments_exact parser 4
    key ← try_validate (get_vec parser 1) (codes "Invalid key")
    field ← try_validate (get_vec parser 2) (codes "Invalid field")
    value ← try_validate (get_vec parser 3) (codes "Invalid value")
    found ← update_found key (λ el. (el, Hashes.hexists el field))
    unless_there key field value found

  unfoldable pub hincrby : ParsedCommand → Handler (Database Z F) Response
  hincrby parser = do
    validate_arguments_exact parser 4
    key ← try_validate (get_vec parser 1) (codes "Invalid key")
    field ← try_validate (get_vec parser 2) (codes "Invalid field")
    increment ←
        try_validate (get_i64 parser 3) (codes "ERR value is not an integer or out of range")
    result ← update key (λ el. Hashes.hincrby el field increment)
    published key Response.integer result
