-- ===== src/Command/Session.antt =====
-- A connection's part in command/src/command.rs: `Client`, transactions, and the guards that
-- `execute_command` runs before a command. `select` is left out: the client's `dbindex` is the one
-- of the database. The set of watched keys is the list of them, in the order in which it drains.
use redvector.Base.{
  ℕ, Bool, true, false, Option, none, some, List, [], ◌∷◌, ◌++◌, Bytes, codes, eq_bytes, Result, ok,
  err, leb, ◌==◌, if◌then◌else◌, length, ◌-◌,
}
use redvector.Dict.{Dict, lookup}
use redvector.Parser.{ParsedCommand, get_vec}
use redvector.Response.{Response, Responses, done}
use redvector.Keyspace.{Database}
use redvector.Keyspace
use redvector.Command.{
  Handler, continues, ok_status, pure, panic, modify, ◌>>=◌, ◌>>◌, validate, try_validate, for_,
  pushed,
}

pub record Client : Type 0 where
  pub id : ℕ
  pub auth : Bool
  pub multi : Bool
  pub multi_commands : List ParsedCommand
  pub watched_keys : List Bytes

-- What `execute_command` reads of the configuration.
pub record Config : Type 0 where
  pub requirepass : Option Bytes
  pub rename_commands : Dict (Option Bytes)

pub record Session (Z F : Type 0) : Type 0 where
  pub client : Client
  pub db : Database Z F

-- `ResponseError`: a command without a response, or one that waits for it.
pub data ResponseError : Type 0 where
  no_reply wait : ResponseError

-- `HashSet::insert`.
unfoldable pub has_key : Bytes → List Bytes → Bool
has_key key [] = false
has_key key (k ∷ keys) = if eq_bytes key k then true else has_key key keys

abbrev pub add_key : Bytes → List Bytes → List Bytes
add_key key keys = if has_key key keys then keys else key ∷ keys

abbrev renamed : Bytes → Option (Option Bytes) → Option Bytes
renamed name none = some name
renamed name (some new_name) = new_name

unfoldable pub mapped_command : Config → Bytes → Option Bytes
mapped_command config name = renamed name (lookup name config.rename_commands)

abbrev pub queued : Bytes
queued = codes "QUEUED"

module _ {Z F : Type 0} where
  abbrev pub watching : Bytes → Session Z F → Session Z F
  watching key s = record s {
    client = record s.client { watched_keys = add_key key s.client.watched_keys };
    db = Keyspace.key_watch s.db key s.client.id;
  }

  -- One round of the loop of `watch`.
  unfoldable pub watch_one : ParsedCommand → ℕ → Unit {0} → Handler (Session Z F) (Unit {0})
  watch_one parser i _ = do
    key ← try_validate (get_vec parser i) (codes "Invalid key")
    modify (watching key)

  unfoldable pub watch : ParsedCommand → Handler (Session Z F) Response
  watch parser = do
    validate (leb 2 (length parser.argv)) (codes "Wrong number of parameters")
    for_ (length parser.argv - 1) 1 1 (watch_one parser) tt
    pure ok_status

  -- The loop of `generic_unwatch`, whose drain leaves no key behind when it ends early.
  unfoldable pub all_verified : Database Z F → ℕ → List Bytes → Bool
  all_verified db client_id [] = true
  all_verified db client_id (key ∷ keys) =
      if Keyspace.key_watch_verify db key client_id then all_verified db client_id keys else false

  unfoldable pub generic_unwatch : Session Z F → Session Z F × Bool
  generic_unwatch s = (
    record s { client = record s.client { watched_keys = [] } },
    all_verified s.db s.client.id s.client.watched_keys,
  )

  unfoldable pub unwatch : ParsedCommand → Handler (Session Z F) Response
  unwatch parser = do
    validate (length parser.argv == 1) (codes "Wrong number of parameters")
    modify (λ s. (generic_unwatch s).0)
    pure ok_status

  unfoldable pub multi : Handler (Session Z F) Response
  multi s =
      if s.client.multi
      then (continues (Response.error (codes "ERR MULTI calls can not be nested")), s)
      else (continues ok_status, record s { client = record s.client { multi = true } })

  -- A transaction is over, and its queue is taken.
  abbrev pub closed : Session Z F → Session Z F
  closed s = record s { client = record s.client { multi = false; multi_commands = [] } }

  unfoldable pub discard : Handler (Session Z F) Response
  discard s =
      if s.client.multi
      then (continues ok_status, (generic_unwatch (closed s)).0)
      else (continues (Response.error (codes "ERR DISCARD without MULTI")), s)

  -- The commands of a transaction, one after the other, whose results are unwrapped.
  unfoldable pub run_all :
      (ParsedCommand → Handler (Session Z F) (Result Response ResponseError))
      → List ParsedCommand
      → Responses
      → Handler (Session Z F) Responses
  run_all command [] responses = pure responses
  run_all command (c ∷ cs) responses = do
    r ← command c
    elim r [ ok response ↦ run_all command cs (pushed responses response) | err e ↦ panic ]

  -- `exec`, which is told how a queued command runs.
  unfoldable pub exec :
      (ParsedCommand → Handler (Session Z F) (Result Response ResponseError))
      → Handler (Session Z F) Response
  exec command s =
      if s.client.multi
      then (let (s', verified) = generic_unwatch (closed s) in
          if verified
          then (do
            responses ← run_all command s.client.multi_commands done
            pure (Response.array responses))
              s'
          else (continues Response.nil, s'))
      else (continues (Response.error (codes "ERR EXEC without MULTI")), s)

  abbrev pub enqueue : ParsedCommand → Session Z F → Session Z F
  enqueue parser s = record s {
    client = record s.client { multi_commands = s.client.multi_commands ++ parser ∷ [] };
  }
