-- ===== src/Command/Frame.antt =====
-- What a command leaves alone: the other keys, and that no map has a key twice.
use redvector.Base.{◌≡◌, ◌∙◌, false, some, Bytes, eq_bytes}
use redvector.Dict.{lookup}
use redvector.Dict.Laws.{insert-Distinct, remove-Distinct, lookup-insert_other, lookup-remove_other}
use redvector.Parser.{ParsedCommand, get_vec}
use redvector.Parser
use redvector.Response.{Response}
use redvector.Value.{Sizes}
use redvector.Keyspace.{Database}
use redvector.Keyspace
use redvector.Keyspace.Laws.{
  SameAt, SameAt-refl, IsValid, remove_key-SameAt, remove_key-IsValid, key_updated-SameAt,
  key_updated-IsValid,
}
use redvector.Command.{Handler}
use redvector.Command.Execute
use redvector.Command.Keeps.Stable.{Stable}
use redvector.Command.Keeps.Table.{one_key-Keeps}

module _ {Z F : Type 0} ⦃sizes : Sizes Z F⦄ where
  pub SameAt-Stable :
      (x key : Bytes) (before : Database Z F)
      → eq_bytes x key ≡ false
      → Stable (SameAt x before) key
  unfolding Keyspace.remove_msexpiration Keyspace.set_msexpiration
  SameAt-Stable x key before e = record {
    on_store = λ value db h. record {
      value = lookup-insert_other x key value _ e ∙ h.value;
      expiration = h.expiration;
      watchers = h.watchers;
      waiters = h.waiters;
      time = h.time;
      mode = h.mode;
    };
    on_remove = λ db h. remove_key-SameAt x key before db e h;
    on_unexpire = λ db h. record {
      value = h.value;
      expiration = lookup-remove_other x key _ e ∙ h.expiration;
      watchers = h.watchers;
      waiters = h.waiters;
      time = h.time;
      mode = h.mode;
    };
    on_updated = λ db h. key_updated-SameAt x key before db e h;
    on_expire = λ t db h.
        let h' = key_updated-SameAt x key before db e h in
        record {
          value = h'.value;
          expiration = lookup-insert_other x key t _ e ∙ h'.expiration;
          watchers = h'.watchers;
          waiters = h'.waiters;
          time = h'.time;
          mode = h'.mode;
        };
  }

  pub IsValid-Stable : (key : Bytes) → Stable {Z = Z} {F = F} IsValid key
  unfolding Keyspace.remove_msexpiration Keyspace.set_msexpiration
  IsValid-Stable key = record {
    on_store = λ value db h. record {
      values = insert-Distinct key value _ h.values;
      expirations = h.expirations;
      watched = h.watched;
      awaited = h.awaited;
    };
    on_remove = λ db h. remove_key-IsValid db key h;
    on_unexpire = λ db h. record {
      values = h.values;
      expirations = remove-Distinct key _ h.expirations;
      watched = h.watched;
      awaited = h.awaited;
    };
    on_updated = λ db h. key_updated-IsValid db key h;
    on_expire = λ t db h.
        let h' = key_updated-IsValid db key h in
        record {
          values = h'.values;
          expirations = insert-Distinct key t _ h'.expirations;
          watched = h'.watched;
          awaited = h'.awaited;
        };
  }

  -- A handler of the table `one_key` leaves every key but that of its first argument as it was: its
  -- value, its expiration, and the clients that watch it or wait for it.
  pub one_key-SameAt :
      (name : Bytes) (handler : ParsedCommand → Handler (Database Z F) Response)
      (parser : ParsedCommand) (x : Bytes) (db : Database Z F)
      → lookup name Execute.one_key ≡ some handler
      → ((key : Bytes) → get_vec parser 1 ≡ Parser.ok key → eq_bytes x key ≡ false)
      → SameAt x db (handler parser db).1
  one_key-SameAt name handler parser x db found other =
      (one_key-Keeps (SameAt x db) name handler found parser
          (λ key e. SameAt-Stable x key db (other key e))).at
        db (SameAt-refl x db)
