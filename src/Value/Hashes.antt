-- ===== src/Value/Hashes.antt =====
-- `enum Value` of database/src/lib.rs: the dispatch of the hash operations.
use redvector.Base.{ℕ, Bool, false, Option, none, List, [], Bytes, Result, ok, err, ℤ}
use redvector.Dbutil.{OperationError, wrong_type_error}
use redvector.HashValue
use redvector.Value.{Value, nil, hash}

module _ {Z F : Type 0} where
  abbrev stored_hash : {A : Type 0} → HashValue.ValueHash × A → Value Z F × Result A OperationError
  stored_hash (h, a) = (hash h, ok a)

  unfoldable pub hset : Value Z F → Bytes → Bytes → Value Z F × Result Bool OperationError
  hset nil field value = stored_hash (HashValue.hset HashValue.new field value)
  hset (hash h) field value = stored_hash (HashValue.hset h field value)
  hset v field value = (v, err wrong_type_error)

  abbrev pub hget : Value Z F → Bytes → Result (Option Bytes) OperationError
  hget nil field = ok none
  hget (hash h) field = ok (HashValue.hget h field)
  hget _ field = err wrong_type_error

  unfoldable pub hdel : Value Z F → List Bytes → Value Z F × Result ℕ OperationError
  hdel nil fields = (nil, ok 0)
  hdel (hash h) fields = stored_hash (HashValue.hdel h fields)
  hdel v fields = (v, err wrong_type_error)

  abbrev pub hexists : Value Z F → Bytes → Result Bool OperationError
  hexists nil field = ok false
  hexists (hash h) field = ok (HashValue.hexists h field)
  hexists _ field = err wrong_type_error

  abbrev pub hlen : Value Z F → Result ℕ OperationError
  hlen nil = ok 0
  hlen (hash h) = ok (HashValue.hlen h)
  hlen _ = err wrong_type_error

  abbrev pub hkeys : Value Z F → Result (List Bytes) OperationError
  hkeys nil = ok []
  hkeys (hash h) = ok (HashValue.hkeys h)
  hkeys _ = err wrong_type_error

  abbrev pub hvals : Value Z F → Result (List Bytes) OperationError
  hvals nil = ok []
  hvals (hash h) = ok (HashValue.hvals h)
  hvals _ = err wrong_type_error

  abbrev pub hgetall : Value Z F → Result (List Bytes) OperationError
  hgetall nil = ok []
  hgetall (hash h) = ok (HashValue.hgetall h)
  hgetall _ = err wrong_type_error

  abbrev pub hstrlen : Value Z F → Bytes → Result ℕ OperationError
  hstrlen nil field = ok 0
  hstrlen (hash h) field = ok (HashValue.hstrlen h field)
  hstrlen _ field = err wrong_type_error

  -- An error of `hincrby` on a new hash leaves the value as it was.
  abbrev new_hash :
      HashValue.ValueHash × Result ℤ OperationError → Value Z F × Result ℤ OperationError
  new_hash (h, ok i) = (hash h, ok i)
  new_hash (h, err e) = (nil, err e)

  unfoldable pub hincrby : Value Z F → Bytes → ℤ → Value Z F × Result ℤ OperationError
  hincrby nil field increment = new_hash (HashValue.hincrby HashValue.new field increment)
  hincrby (hash h) field increment =
      let (h', answer) = HashValue.hincrby h field increment in (hash h', answer)
  hincrby v field increment = (v, err wrong_type_error)
