-- ===== src/Lib.antt =====
-- redvector, a server that speaks the Redis protocol: the reading of requests and the writing of
-- replies, the values that keys hold, the keyspace, the commands and transactions on it, and the
-- encoding in which values are dumped.
--
-- A client's bytes go into the buffer of its connection's stream parser, which cuts them into
-- commands (parser/src/lib.rs); the guards of execute_command and its table lead to a handler
-- (command/src/command.rs), which works on the keys of the database and on the string, list, set
-- or hash values that they hold (database/src), negative positions and numbers in texts being
-- read by database/src/dbutil.rs; its reply is written back by response/src/lib.rs. DUMP writes a
-- value in the RDB format (database/rdbutil).
--
-- The files, and what each models:
-- - Base and its children: shared names, lists measured by native numbers, integers, Rust's
--   Result, calls that may panic (Run), machine words.
-- - Decimal, Utf8: what Rust's standard library does in to_string, parse and from_utf8, for
--   usize, i64 and bytes.
-- - Dbutil: database/src/dbutil.rs (normalize_position, usize_to_vec, vec_to_usize) and the
--   errors of database/src/error.rs. Dbutil/Position and Dbutil/Numbers hold the proofs.
-- - ListValue: database/src/list.rs, ValueList as a list of byte strings, one function per method
--   under the method's name; lrange, lrem and ltrim keep the source's intermediate values in
--   functions of their own. ListValue/Dump is the dump.
-- - StringValue: database/src/string.rs, ValueString with its two constructors; Numbers is about
--   integers and texts, Reads about getrange, Writes about setrange, Bits about setbit and
--   getbit, Dump holds the dump.
-- - SetValue: database/src/set.rs, ValueSet with its two constructors; a HashSet is the list of
--   its elements. Contents is about such lists, Texts about the numbers of an intset and their
--   texts, Members about sadd and srem, Dump holds the dump.
-- - Dict: a map keyed by byte strings as the list of its entries, with its laws.
-- - HashValue: database/src/hash.rs, ValueHash with its two constructors; its HashMap is a Dict.
--   Fields is about what a field reads as, Dump holds the dump.
-- - Value: the enum Value of database/src/lib.rs and the methods that pass a string, list, set or
--   hash operation on to the value held; Sets and Hashes hold those on several sets and on
--   hashes, Errors is about the operations as a whole.
-- - Rdb: database/rdbutil/src/lib.rs and constants.rs, with htonl of util/src/lib.rs. Rdb/Decoder
--   is a reader of the same format, which the source does not have, as the other side of the
--   round trips.
-- - Response: response/src/lib.rs, the replies and as_bytes.
-- - Pubsub: the enum PubsubEvent of database/src/lib.rs.
-- - Keyspace: the struct Database of database/src/lib.rs for one dbindex: data, expirations,
--   watched keys and key subscribers, one function per method under the method's name (remove is
--   remove_key). A modification through a `&mut Value` stores the value again. Keyspace/Laws is
--   about other keys and the shape of the maps, Keyspace/Settled about key_updated.
-- - Command: the handlers of command/src/command.rs as functions of the database in a monad with
--   early returns and panics (the macros of its first lines are validate, try_validate and the
--   like); Strings, Expiry, Lists, Sets and Hashes hold the handlers, Session the client, WATCH,
--   MULTI, EXEC and DISCARD, Execute the guards and the table of execute_command. Keeps and its
--   children say, handler by handler, that what the keyspace's operations keep is kept; Frame,
--   Settles, Watch, Guards, Depth, Queue and Reads hold what follows.
-- - Parser: parse and the accessors of ParsedCommand of parser/src/lib.rs. A slice from an index
--   on is the list of the bytes that are left, so that an index past its end is a clause of its
--   own: it answers Incomplete or panics as the source does there.
-- - Stream: the struct Parser of parser/src/lib.rs and the read of networking/src/lib.rs.
--
-- Numbers: a usize is a natural number below 2^64, with the wrap-around written out where the
-- source can reach it, as in a build without overflow checks; lengths are taken to be below 2^63
-- where a position is cast to i64, which theorems state as a hypothesis. A panic is a value of
-- its own (Run, Parsed). Writing to a Vec does not fail. The time does not pass while a command
-- runs: `clock` is what mstime() answers throughout. The keyspace is that of a server without
-- maxmemory (nothing is evicted), with no keyspace events configured and no append-only file,
-- whose maps are rehashed without a change of their contents. A set or a map iterates in the
-- order of its list. A queued command is run by command again, on a depth that falls by one; a
-- queue holds no EXEC, so that two is enough. The digits of a number are printed on fuel, one
-- more than the number, and any such fuel gives the same digits.
--
-- Not modelled: floats (sorted sets, INCRBYFLOAT, the accessors for f64), vector search and GPU
-- code, sockets, threads, files and logging, HyperLogLog and Bloom filters of external crates,
-- the HTTP and gRPC interfaces; glob patterns; of the commands those on floats, sorted sets and
-- Bloom filters, on bits in bulk, on random elements, scans, SORT, SELECT, MOVE, FLUSHALL,
-- publish/subscribe, blocking pops and the administrative ones, which execute_command is given as
-- `others`. Time spent in them is not logged.
pub mod Base
pub mod Decimal
pub mod Utf8
pub mod Dbutil
pub mod ListValue
pub mod StringValue
pub mod SetValue
pub mod Dict
pub mod HashValue
pub mod Value
pub mod Rdb
pub mod Response
pub mod Pubsub
pub mod Parser
pub mod Stream
pub mod Keyspace
pub mod Command
