-- ===== src/Command/Examples.antt =====
-- Tests of the handlers, and the properties of their modules at concrete inputs.
use redvector.Base.{
  ℕ, ◌+◌, ◌≡◌, refl, true, false, Option, none, some, List, [], ◌∷◌, ◌++◌, Bytes, codes, Result, ok,
  pos, length, eq_bytes, sym, ◌∙◌, ap, subst, if◌then◌else◌, ◌==◌, leb_ℤ, wrap_i64, ◌+ℤ◌,
}
use redvector.Parser
use redvector.Parser.{ParsedCommand, Parsed, Argument, get_vec}
use redvector.Response.{Response, then_, done}
use redvector.Response
use redvector.Value.{Value, Sizes}
use redvector.Value
use redvector.StringValue
use redvector.Keyspace.{Database}
use redvector.Keyspace
use redvector.Keyspace.Laws.{SameAt, IsValid}
use redvector.Keyspace.Settled.{NoEmpty, Settled}
use redvector.Dict.{lookup, insert}
use redvector.Decimal
use redvector.Command
use redvector.Command.{Handler, continues}
use redvector.Command.Session
use redvector.Command.Session.{Session, Client, Config, ResponseError}
use redvector.Command.Execute
use redvector.Command.Strings
use redvector.Command.Strings.{generic_set, generic_get}
use redvector.Command.Expiry
use redvector.Command.Settles.{Ends, settling, settling-Settled}
use redvector.Command.Frame.{one_key-SameAt}
use redvector.Command.Watch.{key_watch-verify, exec-settling}
use redvector.Command.Guards.{exec-count, guarded-multi}
use redvector.Command.Depth.{is_exec, command-depth}
use redvector.Command.Queue.{NoExec, command-NoExec}
use redvector.Command.Keeps.{Keeps}
use redvector.Command.Reads.{at, generic_get-set_expiring}
use redvector.Utf8

instance sizes : Sizes ℕ ℕ
sizes = record { zcard = λ z. z; insertions = λ f. f }

-- A command whose words stand one behind the other.
abbrev located : ℕ → List Bytes → List Argument
located at [] = []
located at (w ∷ ws) = record { pos = at; len = length w } ∷ located (at + length w) ws

abbrev joined : List Bytes → Bytes
joined [] = []
joined (w ∷ ws) = w ++ joined ws

abbrev words : List Bytes → ParsedCommand
words ws = record { bytes = joined ws; argv = located 0 ws }

abbrev fresh : Database ℕ ℕ
fresh = record {
  data_ = [];
  data_expiration_ms = [];
  watched_keys = [];
  key_subscribers = [];
  subscriber_id = 0;
  notified = [];
  loading = false;
  set_max_intset_entries = 512;
  clock = pos 1000;
}

abbrev open_client : Client
open_client = record { id = 7; auth = false; multi = false; multi_commands = []; watched_keys = [] }

abbrev start : Session ℕ ℕ
start = record { client = open_client; db = fresh }

abbrev no_config : Config
no_config = record { requirepass = none; rename_commands = [] }

-- The responses to a sequence of commands, and the session that they leave.
abbrev answers :
    List (List Bytes) → Session ℕ ℕ → List (Option (Result Response ResponseError)) × Session ℕ ℕ
answers [] s = ([], s)
answers (ws ∷ rest) s =
    let (o, s') =
      Execute.command no_config (λ _ _ s. (continues (ok Response.nil), s)) 2 (words ws) s in
    let (os, s'') = answers rest s' in (elim o [ continues r ↦ some r | _ ↦ none ] ∷ os, s'')

abbrev set_k : ParsedCommand
set_k = words (codes "SET" ∷ codes "k" ∷ codes "v" ∷ [])

abbrev incr_k : ParsedCommand
incr_k = words (codes "INCR" ∷ codes "k" ∷ [])

-- A session sets a key and reads it back.
set_then_get :
    (answers
      ((codes "SET" ∷ codes "k" ∷ codes "v" ∷ []) ∷ (codes "GET" ∷ codes "k" ∷ []) ∷ [])
      start).0
    ≡ some (ok (Response.status (codes "OK"))) ∷ some (ok (Response.bytes (codes "v"))) ∷ []
unfolding Execute.command Execute.execute_command Execute.authenticated Execute.unless_required
    Execute.guarded Execute.dispatch Command.◌>>=◌ Command.try_validate Command.validate
    Command.to_ascii_lowercase Command.for_ Command.update Command.validate_arguments_exact
    Command.validate_arguments_gte Session.mapped_command Parser.get_str Parser.get_vec
    Parser.get_i64 Utf8.is_utf8 eq_bytes lookup insert Keyspace.get Keyspace.get_or_create
    Keyspace.key_updated Value.is_empty StringValue.new StringValue.to_vec Decimal.parse_i64
    Strings.set Strings.set_option Strings.generic_set Strings.get Strings.generic_get
set_then_get = refl

-- A transaction is queued and then run.
transaction :
    (answers
      ((codes "MULTI" ∷ [])
        ∷ (codes "INCR" ∷ codes "k" ∷ [])
        ∷ (codes "INCR" ∷ codes "k" ∷ [])
        ∷ (codes "EXEC" ∷ [])
        ∷ [])
      start).0
    ≡ some (ok (Response.status (codes "OK")))
      ∷ some (ok (Response.status (codes "QUEUED")))
      ∷ some (ok (Response.status (codes "QUEUED")))
      ∷ some (
          ok (
            Response.array
              (then_ (Response.integer (pos 1)) (then_ (Response.integer (pos 2)) done))))
      ∷ []
unfolding Execute.command Execute.execute_command Execute.authenticated Execute.unless_required
    Execute.guarded Execute.dispatch Command.◌>>=◌ Command.try_validate Command.validate
    Command.to_ascii_lowercase Command.for_ Command.update Command.validate_arguments_exact
    Command.validate_arguments_gte Session.mapped_command Parser.get_str Parser.get_vec
    Parser.get_i64 Utf8.is_utf8 eq_bytes lookup insert Keyspace.get Keyspace.get_or_create
    Keyspace.key_updated Value.is_empty StringValue.new StringValue.to_vec Decimal.parse_i64
    Execute.in_multi Session.multi Session.exec Session.run_all Session.generic_unwatch
    Session.all_verified Strings.incr Strings.generic_incr Value.incr StringValue.incr
transaction = refl

fresh-IsValid : IsValid fresh
fresh-IsValid = record { values = tt; expirations = tt; watched = tt; awaited = tt }

fresh-NoEmpty : NoEmpty fresh
unfolding lookup
fresh-NoEmpty = record { valid = fresh-IsValid; full = λ x v e. cc }

-- The key of `incr_k` is "k".
second_word : get_vec incr_k 1 ≡ Parser.ok (codes "k")
unfolding get_vec
second_word = refl

incr_found : lookup (codes "incr") (Execute.one_key {Z = ℕ} {F = ℕ}) ≡ some Strings.incr
unfolding lookup eq_bytes
incr_found = refl

incr_in_list : lookup (codes "incr") (settling {Z = ℕ} {F = ℕ}) ≡ some Strings.incr
unfolding lookup eq_bytes
incr_in_list = refl

abbrev or_empty : Parsed Bytes → Bytes
or_empty (Parser.ok key) = key
or_empty _ = []

x_apart : (key : Bytes) → get_vec incr_k 1 ≡ Parser.ok key → eq_bytes (codes "x") key ≡ false
unfolding eq_bytes
x_apart key e = subst (λ k. eq_bytes (codes "x") k ≡ false) (ap or_empty (sym second_word ∙ e)) refl

one_key-SameAt_example : SameAt (codes "x") fresh (Strings.incr incr_k fresh).1
one_key-SameAt_example =
    one_key-SameAt (codes "incr") Strings.incr incr_k (codes "x") fresh incr_found x_apart

abbrev rename_k : ParsedCommand
rename_k = words (codes "RENAME" ∷ codes "k" ∷ codes "x" ∷ [])

settling-Settled_example : Ends (Settled (codes "k")) (Strings.incr incr_k fresh)
settling-Settled_example =
    settling-Settled (codes "incr") Strings.incr incr_k (codes "k") fresh incr_in_list second_word
      fresh-NoEmpty

-- A client that watches "k" and has started a transaction.
abbrev watching_k : Client
watching_k = record open_client {
  multi = true;
  multi_commands = incr_k ∷ [];
  watched_keys = codes "k" ∷ [];
}

abbrev ignoring : ParsedCommand → Handler (Session ℕ ℕ) (Result Response ResponseError)
ignoring _ s = (continues (ok Response.nil), s)

k_watched : Session.has_key (codes "k") watching_k.watched_keys ≡ true
unfolding Session.has_key eq_bytes
k_watched = refl

abbrev in_transaction : Session ℕ ℕ
in_transaction = record { client = watching_k; db = fresh }

incr_ends : (Strings.incr incr_k fresh).0 ≡ continues (Response.integer (pos 1))
unfolding Command.◌>>=◌ Command.try_validate Command.update Command.validate_arguments_exact
    Parser.get_str Parser.get_vec lookup insert Keyspace.get_or_create Keyspace.key_updated
    Value.is_empty Strings.incr Strings.generic_incr Value.incr
incr_ends = refl

exec-settling_example :
    (Session.exec ignoring (record { client = watching_k; db = (Strings.incr incr_k fresh).1 })).0
    ≡ continues Response.nil
exec-settling_example =
    exec-settling (codes "incr") Strings.incr incr_k (codes "k") fresh (Response.integer (pos 1))
      ignoring watching_k incr_in_list second_word fresh-NoEmpty incr_ends refl k_watched

key_watch-verify_example :
    Keyspace.key_watch_verify (Keyspace.key_watch fresh (codes "k") 7) (codes "k") 7 ≡ (
      if eq_bytes (codes "k") (codes "k")
      then (if 7 == 7 then true else Keyspace.key_watch_verify fresh (codes "k") 7)
      else Keyspace.key_watch_verify fresh (codes "k") 7)
key_watch-verify_example = key_watch-verify fresh (codes "k") (codes "k") 7 7

-- A transaction whose watched keys verify.
abbrev unwatching : Session ℕ ℕ
unwatching = record in_transaction { client = record watching_k { watched_keys = [] } }

exec_ends :
    (Session.exec ignoring unwatching).0 ≡ continues (Response.array (then_ Response.nil done))
unfolding Session.exec Session.run_all Session.generic_unwatch Session.all_verified Command.◌>>=◌
exec_ends = refl

exec-count_example : Response.count (then_ Response.nil done) ≡ 1
exec-count_example = exec-count ignoring unwatching (then_ Response.nil done) exec_ends

not_exec : eq_bytes (codes "incr") (codes "exec") ≡ false
unfolding eq_bytes
not_exec = refl

abbrev no_others : Bytes → ParsedCommand → Handler (Session ℕ ℕ) (Result Response ResponseError)
no_others name = ignoring

guarded-multi_example :
    (Execute.guarded no_config no_others ignoring (codes "incr") incr_k in_transaction).1.db ≡ fresh
guarded-multi_example =
    guarded-multi no_config no_others ignoring (codes "incr") incr_k in_transaction refl not_exec

abbrev locked : Config
locked = record { requirepass = some (codes "secret"); rename_commands = [] }

generic_get-set_expiring_example :
    generic_get
      (at (pos 1500) (generic_set (codes "k") (codes "v") false false (some (pos 500)) fresh).1)
      (codes "k")
      true
    ≡ (if leb_ℤ (wrap_i64 (pos 500 +ℤ pos 1000)) (pos 1500)
        then Response.nil
        else Response.bytes (StringValue.to_vec (StringValue.new (codes "v"))))
generic_get-set_expiring_example =
    generic_get-set_expiring fresh (codes "k") (codes "v") (pos 500) (pos 1500) true refl

plain_incr : is_exec no_config no_others incr_k ≡ false
unfolding Parser.get_str Utf8.is_utf8 eq_bytes Command.to_ascii_lowercase Session.mapped_command
    lookup
plain_incr = refl

command-depth_example :
    Execute.command no_config no_others 5 incr_k in_transaction
    ≡ Execute.command no_config no_others 2 incr_k in_transaction
command-depth_example = command-depth no_config no_others 3 incr_k in_transaction (plain_incr, tt)

ignoring-Keeps :
    (name : Bytes) (c : ParsedCommand) → Keeps (NoExec no_config no_others) (no_others name c)
ignoring-Keeps name c = record { at = λ s h. h }

command-NoExec_example :
    NoExec no_config no_others (Execute.command no_config no_others 2 set_k in_transaction).1
command-NoExec_example =
    command-NoExec no_config no_others 2 set_k in_transaction ignoring-Keeps (plain_incr, tt)
