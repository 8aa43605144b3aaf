-- ===== src/Command/Keeps/Table.antt =====
-- The handlers of the table keep what the keyspace keeps at the keys that they work on.
use redvector.Base.{◌≡◌, true, false, some, Bytes, All, All-append, All-mono}
use redvector.Dict.{lookup}
use redvector.Dict.Laws.{All-lookup}
use redvector.Parser.{ParsedCommand}
use redvector.Response.{Response}
use redvector.Value.{Sizes}
use redvector.Keyspace.{Database}
use redvector.Keyspace
use redvector.Command.{Handler}
use redvector.Command.Execute
use redvector.Command.Keeps.{Keeps}
use redvector.Command.Keeps.Stable.{StableAt, StableEverywhere}
use redvector.Command.Keeps.Strings
use redvector.Command.Keeps.Expiry
use redvector.Command.Keeps.Lists
use redvector.Command.Keeps.Sets
use redvector.Command.Keeps.Hashes

module _ {Z F : Type 0} ⦃sizes : Sizes Z F⦄ (P : Database Z F → Type 0) where
  abbrev KeepsAtKey : (ParsedCommand → Handler (Database Z F) Response) → Type 0
  KeepsAtKey handler = (parser : ParsedCommand) → StableAt P parser → Keeps P (handler parser)

  abbrev KeepsAnywhere : (ParsedCommand → Handler (Database Z F) Response) → Type 0
  KeepsAnywhere handler =
      (parser : ParsedCommand)
      → StableEverywhere P
      → ((db : Database Z F) → P db → P (Keyspace.clear db))
      → Keeps P (handler parser)

  one_key-All : All (λ entry. KeepsAtKey entry.1) Execute.one_key
  one_key-All = (
    (λ p st. Expiry.pexpireat-Keeps p st),
    (
      (λ p st. Expiry.pexpire-Keeps p st),
      (
        (λ p st. Expiry.expireat-Keeps p st),
        (
          (λ p st. Expiry.expire-Keeps p st),
          (
            (λ p st. Expiry.echo-Keeps p),
            (
              (λ p st. Expiry.ttl-Keeps p),
              (
                (λ p st. Expiry.pttl-Keeps p),
                (
                  (λ p st. Expiry.persist-Keeps p st),
                  (
                    (λ p st. Expiry.dbtype-Keeps p),
                    (
                      (λ p st. Strings.set-Keeps p st),
                      (
                        (λ p st. Strings.setnx-Keeps p st),
                        (
                          (λ p st. Strings.setex-Keeps p st),
                          (
                            (λ p st. Strings.psetex-Keeps p st),
                            (
                              (λ p st. Expiry.dbsize-Keeps p),
                              (
                                (λ p st. Strings.append-Keeps p st),
                                (
                                  (λ p st. Strings.get-Keeps p),
                                  (
                                    (λ p st. Strings.getrange-Keeps p),
                                    (
                                      (λ p st. Expiry.restore-Keeps p),
                                      (
                                        (λ p st. Strings.mget-Keeps p),
                                        (
                                          (λ p st. Strings.getrange-Keeps p),
                                          (
                                            (λ p st. Strings.setrange-Keeps p st),
                                            (
                                              (λ p st. Strings.setbit-Keeps p st),
                                              (
                                                (λ p st. Strings.getbit-Keeps p),
                                                (
                                                  (λ p st. Strings.strlen-Keeps p),
                                                  (
                                                    (λ p st. Strings.incr-Keeps p st),
                                                    (
                                                      (λ p st. Strings.decr-Keeps p st),
                                                      (
                                                        (λ p st. Strings.incrby-Keeps p st),
                                                        (
                                                          (λ p st. Strings.decrby-Keeps p st),
                                                          (
                                                            (λ p st. Expiry.exists-Keeps p),
                                                            (
                                                            (λ p st.
                                                            Lists.generic_push-Keeps p false true
                                                            st),
                                                            (
                                                            (λ p st.
                                                            Lists.generic_push-Keeps p true true
                                                            st),
                                                            (
                                                            (λ p st.
                                                            Lists.generic_push-Keeps p false false
                                                            st),
                                                            (
                                                            (λ p st.
                                                            Lists.generic_push-Keeps p true false
                                                            st),
                                                            (
                                                            (λ p st.
                                                            Lists.generic_pop-Keeps p false st),
                                                            (
                                                            (λ p st.
                                                            Lists.generic_pop-Keeps p true st),
                                                            (
                                                            (λ p st. Lists.lindex-Keeps p),
                                                            (
                                                            (λ p st. Lists.linsert-Keeps p st),
                                                            (
                                                            (λ p st. Lists.llen-Keeps p),
                                                            (
                                                            (λ p st. Lists.lrange-Keeps p),
                                                            (
                                                            (λ p st. Lists.lrem-Keeps p st),
                                                            (
                                                            (λ p st. Lists.lset-Keeps p st),
                                                            (
                                                            (λ p st. Lists.ltrim-Keeps p st),
                                                            (
                                                            (λ p st. Sets.sadd-Keeps p st),
                                                            (
                                                            (λ p st. Sets.srem-Keeps p st),
                                                            (
                                                            (λ p st. Sets.sismember-Keeps p),
                                                            (
                                                            (λ p st. Sets.smembers-Keeps p),
                                                            (
                                                            (λ p st. Sets.scard-Keeps p),
                                                            (
                                                            (λ p st. Sets.sdiff-Keeps p),
                                                            (
                                                            (λ p st. Sets.sdiffstore-Keeps p st),
                                                            (
                                                            (λ p st. Sets.sinter-Keeps p),
                                                            (
                                                            (λ p st. Sets.sinterstore-Keeps p st),
                                                            (
                                                            (λ p st. Sets.sunion-Keeps p),
                                                            (
                                                            (λ p st. Sets.sunionstore-Keeps p st),
                                                            (
                                                            (λ p st. Hashes.hset-Keeps p st),
                                                            (
                                                            (λ p st. Hashes.hsetnx-Keeps p st),
                                                            (
                                                            (λ p st. Hashes.hget-Keeps p),
                                                            (
                                                            (λ p st. Hashes.hmset-Keeps p st),
                                                            (
                                                            (λ p st. Hashes.hmget-Keeps p),
                                                            (
                                                            (λ p st. Hashes.hdel-Keeps p st),
                                                            (
                                                            (λ p st. Hashes.hlen-Keeps p),
                                                            (
                                                            (λ p st. Hashes.hstrlen-Keeps p),
                                                            (
                                                            (λ p st. Hashes.hkeys-Keeps p),
                                                            (
                                                            (λ p st. Hashes.hvals-Keeps p),
                                                            (
                                                            (λ p st. Hashes.hgetall-Keeps p),
                                                            (
                                                            (λ p st. Hashes.hexists-Keeps p),
                                                            (
                                                            (λ p st. Hashes.hincrby-Keeps p st),
                                                            (
                                                            (λ p st. Strings.getset-Keeps p st),
                                                            tt,
                                                            ),
                                                            ),
                                                            ),
                                                            ),
                                                            ),
                                                            ),
                                                            ),
                                                            ),
                                                            ),
                                                            ),
                                                            ),
                                                            ),
                                                            ),
                                                            ),
                                                            ),
                                                            ),
                                                            ),
                                                            ),
                                                            ),
                                                            ),
                                                            ),
                                                            ),
                                                            ),
                                                            ),
                                                            ),
                                                            ),
                                                            ),
                                                            ),
                                                            ),
                                                            ),
                                                            ),
                                                            ),
                                                            ),
                                                            ),
                                                            ),
                                                            ),
                                                            ),
                                                            ),
                                                          ),
                                                        ),
                                                      ),
                                                    ),
                                                  ),
                                                ),
                                              ),
                                            ),
                                          ),
                                        ),
                                      ),
                                    ),
                                  ),
                                ),
                              ),
                            ),
                          ),
                        ),
                      ),
                    ),
                  ),
                ),
              ),
            ),
          ),
        ),
      ),
    ),
  )

  several_keys-All : All (λ entry. KeepsAnywhere entry.1) Execute.several_keys
  several_keys-All = (
    (λ p st cleared. Expiry.del-Keeps p st),
    (
      (λ p st cleared. Strings.mset-Keeps p st),
      (
        (λ p st cleared. Strings.msetnx-Keeps p st),
        (
          (λ p st cleared. Expiry.rename-Keeps p st),
          (
            (λ p st cleared. Expiry.renamenx-Keeps p st),
            (
              (λ p st cleared. Expiry.flushdb-Keeps p cleared),
              (
                (λ p st cleared. Lists.rpoplpush-Keeps p st),
                ((λ p st cleared. Sets.smove-Keeps p st), tt),
              ),
            ),
          ),
        ),
      ),
    ),
  )

  pub one_key-Keeps :
      (name : Bytes) (handler : ParsedCommand → Handler (Database Z F) Response)
      → lookup name Execute.one_key ≡ some handler
      → (parser : ParsedCommand) → StableAt P parser
      → Keeps P (handler parser)
  one_key-Keeps name handler found =
      All-lookup KeepsAtKey name handler Execute.one_key one_key-All found

  pub table-Keeps :
      (name : Bytes) (handler : ParsedCommand → Handler (Database Z F) Response)
      → lookup name Execute.table ≡ some handler
      → (parser : ParsedCommand) → StableEverywhere P
      → ((db : Database Z F) → P db → P (Keyspace.clear db))
      → Keeps P (handler parser)
  table-Keeps name handler found =
      All-lookup KeepsAnywhere name handler Execute.table
        (All-append (λ entry. KeepsAnywhere entry.1) Execute.one_key Execute.several_keys
          (All-mono (λ entry. KeepsAtKey entry.1) (λ entry. KeepsAnywhere entry.1) Execute.one_key
            (λ entry keeps p st cleared. keeps p (λ key _. st key)) one_key-All)
          several_keys-All)
        found
