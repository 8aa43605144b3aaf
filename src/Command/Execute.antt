-- ===== src/Command/Execute.antt =====
-- `execute_command` of command/src/command.rs: its guards, in their order, and its table. The
-- handlers that the table leaves out are `others`.
use redvector.Base.{
  ℕ, zero, suc, Bool, true, false, ◌||◌, Option, none, some, [], ◌∷◌, ◌++◌, Bytes, codes, eq_bytes,
  Result, ok, err, ◌==◌, if◌then◌else◌, length, ◌-◌, take, min,
}
use redvector.Dict.{Dict, lookup}
use redvector.Parser.{ParsedCommand, Parsed, get_str}
use redvector.Parser
use redvector.Response.{Response}
use redvector.Value.{Sizes}
use redvector.Keyspace.{Database}
use redvector.Command.{
  Handler, continues, replies, aborts, ok_status, pure, panic, modify, ◌>>=◌, ◌>>◌, validate,
  try_validate, for_, to_ascii_lowercase,
}
use redvector.Command.Strings
use redvector.Command.Expiry
use redvector.Command.Lists
use redvector.Command.Sets
use redvector.Command.Hashes
use redvector.Command.Session.{
  Session, Config, ResponseError, no_reply, mapped_command, watch, unwatch, multi, discard, exec,
  enqueue, queued,
}

-- A handler that only knows the database.
abbrev pub on_db : {Z F A : Type 0} → Handler (Database Z F) A → Handler (Session Z F) A
on_db m s = let (o, db') = m s.db in (o, record s { db = db' })

-- `starts_with("ft.")` or `starts_with("bf.")`
abbrev is_module_command : Bytes → Bool
is_module_command name =
    eq_bytes (take 3 name) (codes "ft.") || eq_bytes (take 3 name) (codes "bf.")

module _ {S : Type 0} where
  abbrev pub quoted : Bytes → Parsed Bytes → Handler S Bytes
  quoted args (Parser.ok arg) =
      let separator = if length args == 0 then [] else codes " " in
      pure (args ++ separator ++ codes "'" ++ arg ++ codes "'")
  quoted args (Parser.err e) = pure args
  quoted args Parser.panics = panic

  -- One round of the loop that quotes arguments for the error about an unknown command.
  unfoldable pub quote_arg : ParsedCommand → ℕ → Bytes → Handler S Bytes
  quote_arg parser i args = quoted args (get_str parser i)

  unfoldable pub unknown_command : ParsedCommand → Bytes → Handler S (Result Response ResponseError)
  unknown_command parser raw_command = do
    args ← for_ (min (length parser.argv) 4 - 1) 1 1 (quote_arg parser) []
    let args_str = if length args == 0 then [] else codes ", with args beginning with: " ++ args
    pure (
        ok (Response.error (codes "ERR unknown command '" ++ raw_command ++ codes "'" ++ args_str)))

module _ {Z F : Type 0} ⦃sizes : Sizes Z F⦄ where
  -- The handlers that write at most at the key of their first argument, and those that may write at
  -- several keys.
  abbrev pub one_key : Dict (ParsedCommand → Handler (Database Z F) Response)
  one_key =
      (codes "pexpireat", Expiry.pexpireat)
      ∷ (codes "pexpire", Expiry.pexpire)
      ∷ (codes "expireat", Expiry.expireat)
      ∷ (codes "expire", Expiry.expire)
      ∷ (codes "echo", Expiry.echo)
      ∷ (codes "ttl", Expiry.ttl)
      ∷ (codes "pttl", Expiry.pttl)
      ∷ (codes "persist", Expiry.persist)
      ∷ (codes "type", Expiry.dbtype)
      ∷ (codes "set", Strings.set)
      ∷ (codes "setnx", Strings.setnx)
      ∷ (codes "setex", Strings.setex)
      ∷ (codes "psetex", Strings.psetex)
      ∷ (codes "dbsize", Expiry.dbsize)
      ∷ (codes "append", Strings.append)
      ∷ (codes "get", Strings.get)
      ∷ (codes "getrange", Strings.getrange)
      ∷ (codes "restore", Expiry.restore)
      ∷ (codes "mget", Strings.mget)
      ∷ (codes "substr", Strings.getrange)
      ∷ (codes "setrange", Strings.setrange)
      ∷ (codes "setbit", Strings.setbit)
      ∷ (codes "getbit", Strings.getbit)
      ∷ (codes "strlen", Strings.strlen)
      ∷ (codes "incr", Strings.incr)
      ∷ (codes "decr", Strings.decr)
      ∷ (codes "incrby", Strings.incrby)
      ∷ (codes "decrby", Strings.decrby)
      ∷ (codes "exists", Expiry.exists)
      ∷ (codes "lpush", Lists.lpush)
      ∷ (codes "rpush", Lists.rpush)
      ∷ (codes "lpushx", Lists.lpushx)
      ∷ (codes "rpushx", Lists.rpushx)
      ∷ (codes "lpop", Lists.lpop)
      ∷ (codes "rpop", Lists.rpop)
      ∷ (codes "lindex", Lists.lindex)
      ∷ (codes "linsert", Lists.linsert)
      ∷ (codes "llen", Lists.llen)
      ∷ (codes "lrange", Lists.lrange)
      ∷ (codes "lrem", Lists.lrem)
      ∷ (codes "lset", Lists.lset)
      ∷ (codes "ltrim", Lists.ltrim)
      ∷ (codes "sadd", Sets.sadd)
      ∷ (codes "srem", Sets.srem)
      ∷ (codes "sismember", Sets.sismember)
      ∷ (codes "smembers", Sets.smembers)
      ∷ (codes "scard", Sets.scard)
      ∷ (codes "sdiff", Sets.sdiff)
      ∷ (codes "sdiffstore", Sets.sdiffstore)
      ∷ (codes "sinter", Sets.sinter)
      ∷ (codes "sinterstore", Sets.sinterstore)
      ∷ (codes "sunion", Sets.sunion)
      ∷ (codes "sunionstore", Sets.sunionstore)
      ∷ (codes "hset", Hashes.hset)
      ∷ (codes "hsetnx", Hashes.hsetnx)
      ∷ (codes "hget", Hashes.hget)
      ∷ (codes "hmset", Hashes.hmset)
      ∷ (codes "hmget", Hashes.hmget)
      ∷ (codes "hdel", Hashes.hdel)
      ∷ (codes "hlen", Hashes.hlen)
      ∷ (codes "hstrlen", Hashes.hstrlen)
      ∷ (codes "hkeys", Hashes.hkeys)
      ∷ (codes "hvals", Hashes.hvals)
      ∷ (codes "hgetall", Hashes.hgetall)
      ∷ (codes "hexists", Hashes.hexists)
      ∷ (codes "hincrby", Hashes.hincrby)
      ∷ (codes "getset", Strings.getset)
      ∷ []

  abbrev pub several_keys : Dict (ParsedCommand → Handler (Database Z F) Response)
  several_keys =
      (codes "del", Expiry.del)
      ∷ (codes "mset", Strings.mset)
      ∷ (codes "msetnx", Strings.msetnx)
      ∷ (codes "rename", Expiry.rename)
      ∷ (codes "renamenx", Expiry.renamenx)
      ∷ (codes "flushdb", Expiry.flushdb)
      ∷ (codes "rpoplpush", Lists.rpoplpush)
      ∷ (codes "smove", Sets.smove)
      ∷ []

  abbrev pub table : Dict (ParsedCommand → Handler (Database Z F) Response)
  table = one_key ++ several_keys

  abbrev answer_of :
      Handler (Session Z F) Response → Handler (Session Z F) (Result Response ResponseError)
  answer_of m = do r ← m; pure (ok r)

  -- A response of an early return is the command's response.
  abbrev pub returning :
      Handler (Session Z F) (Result Response ResponseError)
      → Handler (Session Z F) (Result Response ResponseError)
  returning m s =
      let (o, s') = m s in
      elim o [
        | continues r ↦ (continues r, s')
        | replies r ↦ (continues (ok r), s')
        | aborts ↦ (aborts, s')
      ]

module _ {Z F : Type 0} ⦃sizes : Sizes Z F⦄ (config : Config)
    (others : Bytes → ParsedCommand → Handler (Session Z F) (Result Response ResponseError)) where
  -- The commands that are neither queued nor part of a transaction.
  abbrev pub run_found :
      Bytes
      → ParsedCommand
      → Option (ParsedCommand → Handler (Database Z F) Response)
      → Handler (Session Z F) (Result Response ResponseError)
  run_found command_name parser none = others command_name parser
  run_found command_name parser (some handler) = answer_of (on_db (handler parser))

  unfoldable pub dispatch :
      Bytes → ParsedCommand → Handler (Session Z F) (Result Response ResponseError)
  dispatch command_name parser =
      if eq_bytes command_name (codes "watch")
      then answer_of (watch parser)
      else if eq_bytes command_name (codes "unwatch")
      then answer_of (unwatch parser)
      else run_found command_name parser (lookup command_name table)

  -- What a client that has sent MULTI is told.
  unfoldable pub in_multi :
      Bytes → ParsedCommand → Handler (Session Z F) (Result Response ResponseError)
  in_multi command_name parser =
      if eq_bytes command_name (codes "watch") || eq_bytes command_name (codes "unwatch")
      then pure (ok (Response.error (codes "ERR WATCH not allowed inside MULTI")))
      else modify (enqueue parser) >> pure (ok (Response.status queued))

  -- The commands of a transaction, and then the others.
  unfoldable pub guarded :
      (ParsedCommand → Handler (Session Z F) (Result Response ResponseError))
      → Bytes
      → ParsedCommand
      → Handler (Session Z F) (Result Response ResponseError)
  guarded command command_name parser =
      if eq_bytes command_name (codes "multi")
      then answer_of multi
      else if eq_bytes command_name (codes "discard")
      then answer_of discard
      else if eq_bytes command_name (codes "exec")
      then answer_of (exec command)
      else λ s.
          if s.client.multi then in_multi command_name parser s else dispatch command_name parser s

  abbrev pub matches : Option Bytes → Bytes → Bool
  matches none password = false
  matches (some p) password = eq_bytes password p

  abbrev wrong_password : Option Bytes → Response
  wrong_password none = Response.error (codes "ERR Client sent AUTH, but no password is set")
  wrong_password (some p) = Response.error (codes "ERR invalid password")

  abbrev pub authenticate : Session Z F → Session Z F
  authenticate s = record s { client = record s.client { auth = true } }

  unfoldable pub auth : ParsedCommand → Handler (Session Z F) (Result Response ResponseError)
  auth parser = do
    validate (length parser.argv == 2) (codes "Wrong number of parameters")
    password ← try_validate (get_str parser 1) (codes "Invalid password")
    if matches config.requirepass password
        then modify authenticate >> pure (ok ok_status)
        else pure (ok (wrong_password config.requirepass))

  unfoldable pub unless_required : Option Bytes → Session Z F → Session Z F
  unless_required none s = authenticate s
  unless_required (some p) s = s

  -- Without a password every client is authenticated.
  unfoldable pub authenticated :
      (ParsedCommand → Handler (Session Z F) (Result Response ResponseError))
      → Bytes
      → ParsedCommand
      → Handler (Session Z F) (Result Response ResponseError)
  authenticated command command_name parser = do
    modify (unless_required config.requirepass)
    if eq_bytes command_name (codes "auth") then auth parser else λ s.
        if s.client.auth
        then guarded command command_name parser s
        else (continues (ok (Response.error (codes "NOAUTH Authentication required."))), s)

  abbrev pub named :
      (ParsedCommand → Handler (Session Z F) (Result Response ResponseError))
      → Bytes
      → Option Bytes
      → ParsedCommand
      → Handler (Session Z F) (Result Response ResponseError)
  named command raw_command none parser = unknown_command parser raw_command
  named command raw_command (some command_name) parser = authenticated command command_name parser

  -- The name that a command goes by.
  abbrev pub name_of : Bytes → Option Bytes
  name_of raw_command =
      let lower_command = to_ascii_lowercase raw_command in
      if is_module_command lower_command
      then some lower_command
      else mapped_command config lower_command

  unfoldable pub execute_command :
      (ParsedCommand → Handler (Session Z F) (Result Response ResponseError))
      → ParsedCommand
      → Handler (Session Z F) (Result Response ResponseError)
  execute_command command parser = if length parser.argv == 0 then pure (err no_reply) else (do
    raw_command ← try_validate (get_str parser 0) (codes "Invalid command")
    named command raw_command (name_of raw_command) parser)

  -- `command`, without what it logs. A queued command is run by `command` again: `depth` bounds how
  -- deep that goes.
  unfoldable pub command : ℕ → ParsedCommand → Handler (Session Z F) (Result Response ResponseError)
  command zero parser = panic
  command (suc depth) parser = returning (execute_command (command depth) parser)
