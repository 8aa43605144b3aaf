-- ===== src/Command/Strings.antt =====
-- The handlers of string values in command/src/command.rs.
use redvector.Base.{
  ℕ, ◌+◌, ◌-◌, ◌*◌, ◌/◌, ◌%◌, Bool, true, false, not, ◌&&◌, ◌||◌, Option, none, some, Bytes, codes,
  eq_bytes, Result, ok, err, Run, ℤ, pos, negsuc, ◌+ℤ◌, times, opposite, wrap_i64, leb, leb_ℤ,
  ltb_ℤ, magnitude, ◌==◌, if◌then◌else◌, length,
}
use redvector.Dict.{is_some}
use redvector.Dbutil.{OperationError, is_empty}
use redvector.Parser.{ParsedCommand, get_str, get_vec, get_i64}
use redvector.Response.{Response, Responses, done}
use redvector.Value.{Value, Sizes}
use redvector.Value
use redvector.Keyspace.{Database}
use redvector.Keyspace
use redvector.Command.{
  Handler, answered, failure, ok_status, count, flag, pure, reply, panic, gets, modify, ◌>>=◌, ◌>>◌,
  validate, try_validate, validate_arguments_exact, validate_arguments_gte, update, key_updated,
  for_, to_ascii_lowercase, about, pushed,
}

abbrev syntax_error : Bytes
syntax_error = codes "ERR syntax error"

-- What the loop of `set` over its options keeps.
pub record Options : Type 0 where
  pub nx : Bool
  pub xx : Bool
  pub expiration : Option ℤ
  pub skip : Bool

abbrev too_long : Bytes
too_long = codes "ERR string exceeds maximum allowed size (512MB)"

abbrev max_length : ℕ
max_length = 512 * 1024 * 1024

abbrev no_options : Options
no_options = record { nx = false; xx = false; expiration = none; skip = false }

abbrev text_of : Bool → Result Bytes OperationError → Response
text_of err_on_wrongtype (ok r) = Response.bytes r
text_of err_on_wrongtype (err e) = if err_on_wrongtype then failure e else Response.nil

module _ {Z F : Type 0} where
  -- One round of that loop.
  unfoldable pub set_option : ParsedCommand → ℕ → Options → Handler (Database Z F) Options
  set_option parser i options = if options.skip then pure (record options { skip = false }) else (do
    param ← try_validate (get_str parser i) syntax_error
    let name = to_ascii_lowercase param
    if eq_bytes name (codes "nx")
        then pure (record options { nx = true })
        else if eq_bytes name (codes "xx")
        then pure (record options { xx = true })
        else if eq_bytes name (codes "px")
        then (do
          px ← try_validate (get_i64 parser (i + 1)) syntax_error
          pure (record options { expiration = some px; skip = true }))
        else if eq_bytes name (codes "ex")
        then (do
          ex ← try_validate (get_i64 parser (i + 1)) syntax_error
          pure (record options { expiration = some (wrap_i64 (times ex 1000)); skip = true }))
        else reply (Response.error syntax_error))

  abbrev pub shown : Bool → Option (Value Z F) → Response
  shown err_on_wrongtype none = Response.nil
  shown err_on_wrongtype (some value) = text_of err_on_wrongtype (Value.get value)

  unfoldable pub generic_get : Database Z F → Bytes → Bool → Response
  generic_get db key err_on_wrongtype = shown err_on_wrongtype (Keyspace.get db key)

  unfoldable pub get : ParsedCommand → Handler (Database Z F) Response
  get parser = do
    validate_arguments_exact parser 2
    key ← try_validate (get_vec parser 1) (codes "Invalid key")
    gets (λ db. generic_get db key true)

  abbrev length_of : Option (Value Z F) → Response
  length_of none = count 0
  length_of (some value) = answered count (Value.strlen value)

  unfoldable pub strlen : ParsedCommand → Handler (Database Z F) Response
  strlen parser = do
    validate_arguments_exact parser 2
    key ← try_validate (get_vec parser 1) (codes "Invalid key")
    about key length_of

  abbrev bit_of : ℕ → Option (Value Z F) → Response
  bit_of index none = count 0
  bit_of index (some value) = answered flag (Value.getbit value index)

  unfoldable pub getbit : ParsedCommand → Handler (Database Z F) Response
  getbit parser = do
    validate_arguments_exact parser 3
    key ← try_validate (get_vec parser 1) (codes "Invalid key")
    index ← try_validate (get_i64 parser 2) (codes "Invalid index")
    validate (leb_ℤ (pos 0) index) (codes "Invalid index")
    about key (bit_of (magnitude index))

  -- One round of the loop of `mget`, which collects the responses.
  unfoldable pub get_one : ParsedCommand → ℕ → Responses → Handler (Database Z F) Responses
  get_one parser i responses = do
    key ← try_validate (get_vec parser i) (codes "Invalid key")
    gets (λ db. pushed responses (generic_get db key false))

  unfoldable pub mget : ParsedCommand → Handler (Database Z F) Response
  mget parser = do
    validate (leb 2 (length parser.argv)) (codes "Wrong number of parameters")
    responses ← for_ (length parser.argv - 1) 1 1 (get_one parser) done
    pure (Response.array responses)

module _ {Z F : Type 0} ⦃sizes : Sizes Z F⦄ where
  abbrev pub expire_in : Bytes → Option ℤ → Database Z F → Database Z F
  expire_in key none db = db
  expire_in key (some msexp) db = Keyspace.set_msexpiration db key (wrap_i64 (msexp +ℤ db.clock))

  abbrev pub updated :
      Bytes → Option ℤ → Result (Unit {0}) OperationError → Handler (Database Z F) Bool
  updated key expiration (err e) = reply (failure e)
  updated key expiration (ok _) = do key_updated key; modify (expire_in key expiration); pure true

  unfoldable pub generic_set : Bytes → Bytes → Bool → Bool → Option ℤ → Handler (Database Z F) Bool
  generic_set key val nx xx expiration = do
    found ← gets (λ db. is_some (Keyspace.get db key))
    if nx && found || xx && not found
        then pure false
        else (do result ← update key (λ value. Value.set value val); updated key expiration result)

  unfoldable pub set : ParsedCommand → Handler (Database Z F) Response
  set parser = do
    validate_arguments_gte parser 3
    key ← try_validate (get_vec parser 1) syntax_error
    val ← try_validate (get_vec parser 2) syntax_error
    options ← for_ (length parser.argv - 3) 3 1 (set_option parser) no_options
    updated ← generic_set key val options.nx options.xx options.expiration
    pure (if updated then ok_status else Response.nil)

  unfoldable pub setnx : ParsedCommand → Handler (Database Z F) Response
  setnx parser = do
    validate_arguments_exact parser 3
    key ← try_validate (get_vec parser 1) syntax_error
    val ← try_validate (get_vec parser 2) syntax_error
    updated ← generic_set key val true false none
    pure (flag updated)

  -- `setex`, with 1000, and `psetex`, with 1.
  abbrev set_expiring : ParsedCommand → (ℤ → ℤ) → Handler (Database Z F) Response
  set_expiring parser milliseconds = do
    validate_arguments_exact parser 4
    key ← try_validate (get_vec parser 1) syntax_error
    exp ← try_validate (get_i64 parser 2) syntax_error
    validate (leb_ℤ (pos 0) exp) (codes "ERR invalid expire time")
    val ← try_validate (get_vec parser 3) syntax_error
    updated ← generic_set key val false false (some (milliseconds exp))
    pure ok_status

  unfoldable pub setex : ParsedCommand → Handler (Database Z F) Response
  setex parser = set_expiring parser (λ exp. wrap_i64 (times exp 1000))

  unfoldable pub psetex : ParsedCommand → Handler (Database Z F) Response
  psetex parser = set_expiring parser (λ exp. exp)

  -- The old length, which an early return reports the failure of.
  abbrev pub length_or_return : Result ℕ OperationError → Handler (Database Z F) ℕ
  length_or_return (ok oldlen) = pure oldlen
  length_or_return (err e) = reply (failure e)

  unfoldable pub append : ParsedCommand → Handler (Database Z F) Response
  append parser = do
    validate_arguments_exact parser 3
    key ← try_validate (get_vec parser 1) (codes "Invalid key")
    val ← try_validate (get_vec parser 2) (codes "Invalid value")
    strlen_result ← update key (λ oldval. (oldval, Value.strlen oldval))
    oldlen ← length_or_return strlen_result
    validate (leb (oldlen + length val) max_length) too_long
    result ← update key (λ oldval. Value.append oldval val)
    key_updated key
    pure (answered count result)

  abbrev pub replaced :
      Bytes → Response → Result (Unit {0}) OperationError → Handler (Database Z F) Response
  replaced key old_value (ok _) = key_updated key >> pure old_value
  replaced key old_value (err e) = pure (failure e)

  unfoldable pub getset : ParsedCommand → Handler (Database Z F) Response
  getset parser = do
    validate_arguments_exact parser 3
    key ← try_validate (get_vec parser 1) (codes "Invalid key")
    value ← try_validate (get_vec parser 2) (codes "Invalid value")
    old_value ← gets (λ db. generic_get db key false)
    result ← update key (λ el. Value.set el value)
    replaced key old_value result

  abbrev pub published_or_return :
      Bytes → Result (Unit {0}) OperationError → Handler (Database Z F) (Unit {0})
  published_or_return key (ok _) = key_updated key
  published_or_return key (err e) = reply (failure e)

  -- One round of the loops that set.
  unfoldable pub set_pair : ParsedCommand → ℕ → Unit {0} → Handler (Database Z F) (Unit {0})
  set_pair parser i _ = do
    key ← try_validate (get_vec parser i) (codes "Invalid key")
    value ← try_validate (get_vec parser (i + 1)) (codes "Invalid value")
    result ← update key (λ el. Value.set el value)
    published_or_return key result

  unfoldable pub mset : ParsedCommand → Handler (Database Z F) Response
  mset parser = do
    validate_arguments_gte parser 3
    validate ((length parser.argv - 1) % 2 == 0)
        (codes "ERR wrong number of arguments for 'mset' command")
    for_ (length parser.argv / 2) 1 2 (set_pair parser) tt
    pure ok_status

  -- One round of the loop that checks that no key exists.
  unfoldable pub check_absent : ParsedCommand → ℕ → Unit {0} → Handler (Database Z F) (Unit {0})
  check_absent parser i _ = do
    key ← try_validate (get_vec parser i) (codes "Invalid key")
    found ← gets (λ db. is_some (Keyspace.get db key))
    if found then reply (count 0) else pure tt

  unfoldable pub msetnx : ParsedCommand → Handler (Database Z F) Response
  msetnx parser = do
    validate_arguments_gte parser 3
    validate ((length parser.argv - 1) % 2 == 0)
        (codes "ERR wrong number of arguments for 'msetnx' command")
    for_ (length parser.argv / 2) 1 2 (check_absent parser) tt
    for_ (length parser.argv / 2) 1 2 (set_pair parser) tt
    pure (count 1)

  abbrev pub returned_data : Run Bytes → Handler (Database Z F) Response
  returned_data (Run.returns b) = pure (Response.bytes b)
  returned_data Run.panics = panic

  abbrev pub returned_range : Result (Run Bytes) OperationError → Handler (Database Z F) Response
  returned_range (ok r) = returned_data r
  returned_range (err e) = pure (failure e)

  abbrev pub range_of : Option (Value Z F) → ℤ → ℤ → Handler (Database Z F) Response
  range_of none start stop = pure Response.nil
  range_of (some value) start stop = returned_range (Value.getrange value start stop)

  unfoldable pub getrange : ParsedCommand → Handler (Database Z F) Response
  getrange parser = do
    validate_arguments_exact parser 4
    key ← try_validate (get_vec parser 1) (codes "Invalid key")
    start ← try_validate (get_i64 parser 2) (codes "Invalid range")
    stop ← try_validate (get_i64 parser 3) (codes "Invalid range")
    obj ← gets (λ db. Keyspace.get db key)
    range_of obj start stop

  unfoldable pub setrange : ParsedCommand → Handler (Database Z F) Response
  setrange parser = do
    validate_arguments_exact parser 4
    key ← try_validate (get_vec parser 1) (codes "Invalid key")
    v ← try_validate (get_i64 parser 2) (codes "Invalid index")
    validate (leb_ℤ (pos 0) v) (codes "ERR offset is out of range")
    let index = magnitude v
    value ← try_validate (get_vec parser 3) (codes "Invalid value")
    found ← gets (λ db. is_some (Keyspace.get db key))
    if not found && is_empty value then pure (count 0) else (do
      update key (λ oldval. (oldval, tt))
      validate (leb (index + length value) max_length) too_long
      result ← update key (λ oldval. Value.setrange oldval index value)
      key_updated key
      pure (answered count result))

  unfoldable pub setbit : ParsedCommand → Handler (Database Z F) Response
  setbit parser = do
    validate_arguments_exact parser 4
    key ← try_validate (get_vec parser 1) (codes "Invalid key")
    let bad_offset = codes "ERR bit offset is not an integer or out of range"
    index ← try_validate (get_i64 parser 2) bad_offset
    validate (leb_ℤ (pos 0) index && ltb_ℤ index (pos (4 * 1024 * 1024 * 1024))) bad_offset
    let bad_bit = codes "ERR bit is not an integer or out of range"
    value ← try_validate (get_i64 parser 3) bad_bit
    validate (leb_ℤ (pos 0) value && leb_ℤ value (pos 1)) bad_bit
    result ← update key (λ el. Value.setbit el (magnitude index) (leb_ℤ (pos 1) value))
    key_updated key
    pure (answered flag result)

  -- `incr` of the value at the second argument.
  unfoldable pub generic_incr : ParsedCommand → ℤ → Handler (Database Z F) Response
  generic_incr parser increment = do
    key ← try_validate (get_vec parser 1) (codes "Invalid key")
    result ← update key (λ el. Value.incr el increment)
    key_updated key
    pure (answered Response.integer result)

  unfoldable pub incr : ParsedCommand → Handler (Database Z F) Response
  incr parser = do validate_arguments_exact parser 2; generic_incr parser (pos 1)

  unfoldable pub decr : ParsedCommand → Handler (Database Z F) Response
  decr parser = do validate_arguments_exact parser 2; generic_incr parser (negsuc 0)

  unfoldable pub incrby : ParsedCommand → Handler (Database Z F) Response
  incrby parser = do
    validate_arguments_exact parser 3
    increment ← try_validate (get_i64 parser 2) (codes "Invalid increment")
    generic_incr parser increment

  unfoldable pub decrby : ParsedCommand → Handler (Database Z F) Response
  decrby parser = do
    validate_arguments_exact parser 3
    decrement ← try_validate (get_i64 parser 2) (codes "Invalid increment")
    generic_incr parser (wrap_i64 (opposite decrement))
