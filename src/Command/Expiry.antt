-- ===== src/Command/Expiry.antt =====
-- The handlers of keys and of their expirations in command/src/command.rs.
use redvector.Base.{
  ℕ, ◌+◌, ◌-◌, Bool, true, false, not, ◌&&◌, ◌||◌, Option, none, some, Bytes, codes, eq_bytes, ℤ,
  negsuc, ◌+ℤ◌, times, opposite, wrap_i64, quotient_ℤ, leb, ltb, if◌then◌else◌, length,
}
use redvector.Dict.{is_some}
use redvector.Parser.{ParsedCommand, get_str, get_vec, get_i64}
use redvector.Response.{Response}
use redvector.Value.{Value, Sizes}
use redvector.Keyspace.{Database, store}
use redvector.Keyspace
use redvector.Command.{
  Handler, ok_status, count, flag, pure, reply, gets, modify, call, ◌>>=◌, ◌>>◌, validate,
  try_validate, validate_arguments_exact, validate_arguments_gte, update, key_updated, for_,
  to_ascii_lowercase, about,
}

-- What is left of an expiration.
abbrev left_of : ℤ → ℕ → Option ℤ → Response
left_of now divisor none = Response.integer (negsuc 0)
left_of now divisor (some exp) =
    Response.integer (quotient_ℤ (wrap_i64 (exp +ℤ opposite now)) divisor)

module _ {Z F : Type 0} where
  abbrev presence : Option (Value Z F) → Response
  presence value = flag (is_some value)

  unfoldable pub exists : ParsedCommand → Handler (Database Z F) Response
  exists parser = do
    validate_arguments_exact parser 2
    key ← try_validate (get_vec parser 1) (codes "Invalid key")
    about key presence

  unfoldable pub dbsize : ParsedCommand → Handler (Database Z F) Response
  dbsize parser = do validate_arguments_exact parser 1; gets (λ db. count (Keyspace.dbsize db))

  unfoldable pub echo : ParsedCommand → Handler (Database Z F) Response
  echo parser = do
    validate_arguments_exact parser 2
    msg ← try_validate (get_str parser 1) (codes "Syntax error")
    pure (Response.bytes msg)

  unfoldable pub generic_ttl : Bytes → ℕ → Handler (Database Z F) Response
  generic_ttl key divisor = do
    found ← gets (λ db. is_some (Keyspace.get db key))
    if found
        then gets (λ db. left_of db.clock divisor (Keyspace.get_msexpiration db key))
        else pure (Response.integer (negsuc 1))

  unfoldable pub ttl : ParsedCommand → Handler (Database Z F) Response
  ttl parser = do
    validate_arguments_exact parser 2
    key ← try_validate (get_vec parser 1) (codes "Invalid key")
    generic_ttl key 1000

  unfoldable pub pttl : ParsedCommand → Handler (Database Z F) Response
  pttl parser = do
    validate_arguments_exact parser 2
    key ← try_validate (get_vec parser 1) (codes "Invalid key")
    generic_ttl key 1

  abbrev type_of : Option (Value Z F) → Response
  type_of none = Response.bytes (codes "none")
  type_of (some Value.nil) = Response.bytes (codes "none")
  type_of (some (Value.string _)) = Response.bytes (codes "string")
  type_of (some (Value.list _)) = Response.bytes (codes "list")
  type_of (some (Value.set_ _)) = Response.bytes (codes "set")
  type_of (some (Value.sorted_set _)) = Response.bytes (codes "zset")
  type_of (some (Value.hash _)) = Response.bytes (codes "hash")
  type_of (some (Value.bloom _)) = Response.bytes (codes "MBbloom--")

  unfoldable pub dbtype : ParsedCommand → Handler (Database Z F) Response
  dbtype parser = do
    validate_arguments_exact parser 2
    key ← try_validate (get_vec parser 1) (codes "Invalid key")
    about key type_of

  -- `if option == "replace"`
  unfoldable pub replace_option : Bytes → Handler (Database Z F) Bool
  replace_option option =
      if eq_bytes (to_ascii_lowercase option) (codes "replace")
      then pure true
      else reply (Response.error (codes "ERR syntax error"))

  unfoldable pub restore : ParsedCommand → Handler (Database Z F) Response
  restore parser = do
    validate_arguments_gte parser 4
    key ← try_validate (get_vec parser 1) (codes "Invalid key")
    _ ← try_validate (get_i64 parser 2) (codes "Invalid TTL")
    _ ← try_validate (get_vec parser 3) (codes "Invalid serialized value")
    replace ←
        (if ltb 4 (length parser.argv)
          then (do
            option ← try_validate (get_str parser 4) (codes "Invalid option")
            replace_option option)
          else pure false)
    found ← gets (λ db. is_some (Keyspace.get db key))
    if not replace && found
        then reply (Response.error (codes "ERR Target key name is busy."))
        else pure (Response.error (codes "ERR RESTORE is not fully implemented yet"))

module _ {Z F : Type 0} ⦃sizes : Sizes Z F⦄ where
  -- One round of the loop of `del`.
  unfoldable pub del_one : ParsedCommand → ℕ → ℕ → Handler (Database Z F) ℕ
  del_one parser i c = do
    key ← try_validate (get_vec parser i) (codes "Invalid key")
    removed ← call (λ db. Keyspace.remove_key db key)
    if is_some removed then key_updated key >> pure (c + 1) else pure c

  unfoldable pub del : ParsedCommand → Handler (Database Z F) Response
  del parser = do
    validate (leb 2 (length parser.argv)) (codes "Wrong number of parameters")
    c ← for_ (length parser.argv - 1) 1 1 (del_one parser) 0
    pure (count c)

  unfoldable pub flushdb : ParsedCommand → Handler (Database Z F) Response
  flushdb parser = do
    validate_arguments_exact parser 1
    modify (λ db. Keyspace.clear db)
    pure ok_status

  unfoldable pub generic_expire : Bytes → ℤ → Handler (Database Z F) Response
  generic_expire key msexpiration = do
    found ← gets (λ db. is_some (Keyspace.get db key))
    if found
        then (do
          modify (λ db. Keyspace.set_msexpiration db key msexpiration)
          key_updated key
          pure (count 1))
        else pure (count 0)

  -- The four commands that set an expiration differ in how they read their argument at a time.
  abbrev expire_at : ParsedCommand → (ℤ → ℤ → ℤ) → Handler (Database Z F) Response
  expire_at parser msexpiration = do
    validate_arguments_exact parser 3
    key ← try_validate (get_vec parser 1) (codes "Invalid key")
    expiration ← try_validate (get_i64 parser 2) (codes "Invalid expiration")
    now ← gets (λ db. db.clock)
    generic_expire key (msexpiration now expiration)

  unfoldable pub expire : ParsedCommand → Handler (Database Z F) Response
  expire parser = expire_at parser (λ now t. wrap_i64 (now +ℤ wrap_i64 (times t 1000)))

  unfoldable pub expireat : ParsedCommand → Handler (Database Z F) Response
  expireat parser = expire_at parser (λ now t. wrap_i64 (times t 1000))

  unfoldable pub pexpire : ParsedCommand → Handler (Database Z F) Response
  pexpire parser = expire_at parser (λ now t. wrap_i64 (now +ℤ t))

  unfoldable pub pexpireat : ParsedCommand → Handler (Database Z F) Response
  pexpireat parser = expire_at parser (λ now t. t)

  unfoldable pub persist : ParsedCommand → Handler (Database Z F) Response
  persist parser = do
    validate_arguments_exact parser 2
    key ← try_validate (get_vec parser 1) (codes "Invalid key")
    expiration ← call (λ db. Keyspace.remove_msexpiration db key)
    key_updated key
    pure (flag (is_some expiration))

  abbrev pub expire_again : Bytes → Option ℤ → Handler (Database Z F) (Unit {0})
  expire_again newkey none = pure tt
  expire_again newkey (some exp) = modify (λ db. Keyspace.set_msexpiration db newkey exp)

  -- What `rename` and `renamenx` do with the value and the expiration that they took away.
  abbrev moved_to : Bytes → Value Z F → Option ℤ → Handler (Database Z F) (Unit {0})
  moved_to newkey value expiration = do
    update newkey (λ _. (value, tt))
    expire_again newkey expiration
    key_updated newkey

  abbrev pub taken : Option (Value Z F) → Handler (Database Z F) (Value Z F)
  taken none = reply (Response.error (codes "ERR no such key"))
  taken (some value) = pure value

  abbrev move_key_to : Bytes → Bytes → Handler (Database Z F) (Unit {0})
  move_key_to key newkey = do
    removed ← call (λ db. Keyspace.remove_key db key)
    value ← taken removed
    expiration ← call (λ db. Keyspace.remove_msexpiration db key)
    moved_to newkey value expiration

  unfoldable pub rename : ParsedCommand → Handler (Database Z F) Response
  rename parser = do
    validate_arguments_exact parser 3
    key ← try_validate (get_vec parser 1) (codes "Invalid key")
    newkey ← try_validate (get_vec parser 2) (codes "Invalid key")
    validate (not (eq_bytes key newkey)) (codes "ERR source and destination objects are the same")
    move_key_to key newkey
    pure ok_status

  unfoldable pub renamenx : ParsedCommand → Handler (Database Z F) Response
  renamenx parser = do
    validate_arguments_exact parser 3
    key ← try_validate (get_vec parser 1) (codes "Invalid key")
    newkey ← try_validate (get_vec parser 2) (codes "Invalid key")
    found ← gets (λ db. is_some (Keyspace.get db newkey))
    if eq_bytes key newkey || found
        then pure (count 0)
        else move_key_to key newkey >> pure (count 1)
